-- ===== src/Retry/Backoff.antt =====
-- What stands between two attempts: the limit, the reset of the body, the backoff.
use conjure_rust_runtime.Prelude.{
  ℕ, ◌+◌, ◌-◌, ◌*◌, ◌%◌, ◌^◌, Bool, true, not, ◌&&◌, Option, none, some, ltb, leb, ◌==◌,
  if◌then◌else◌, ◌>>=◌,
}
use conjure_rust_runtime.Errors.{Duration, Error}
use conjure_rust_runtime.Retry.Request.{
  RetryService, RequestBody, empty, fixed, streaming, Attempt, State, ResetTracker, Step, next,
  stop, panic,
}

abbrev pub u32_mod : ℕ
u32_mod = 2 ^ 32

-- The longest `Duration`, in nanoseconds.
abbrev pub duration_max : Duration
duration_max = 2 ^ 64 * 1_000_000_000 - 1

-- `a + 1` and `a - 1` on `u32`.
unfoldable pub add_one : Bool → ℕ → Option ℕ
add_one checks a = if checks && leb (u32_mod - 1) a then none else some ((a + 1) % u32_mod)

unfoldable pub sub_one : Bool → ℕ → Option ℕ
sub_one checks a = if checks && a == 0 then none else some ((a + u32_mod - 1) % u32_mod)

-- `1 << n` on `u32`: without checks the amount is taken modulo the width.
unfoldable pub shift_one : Bool → ℕ → Option ℕ
shift_one checks n = if ltb n 32 then some (2 ^ n) else if checks then none else some (2 ^ (n % 32))

-- `Duration * u32` panics in every build.
unfoldable pub times : Duration → ℕ → Option Duration
times d k = if leb (d * k) duration_max then some (d * k) else none

-- The backoff before the retry number `attempt`. `random_range` panics on an empty range.
unfoldable pub backoff : RetryService → (ℕ → ℕ) → ℕ → Option Duration → Option Duration
backoff s random_range attempt (some retry_after) = some retry_after
backoff s random_range attempt none = do
  shift ← sub_one s.overflow_checks attempt
  scale ← shift_one s.overflow_checks shift
  max ← times s.backoff_slot_size scale
  some (if max == 0 then 0 else random_range max)

-- May the body be sent again?
unfoldable pub body_ready : RequestBody → ResetTracker → Bool → Bool
body_ready empty t resets = true
body_ready fixed t resets = true
body_ready streaming t resets = not (t.needs_reset && not resets)

unfoldable pub sleep_for : State → ℕ → Option Duration → Step (State × Duration)
sleep_for s attempt none = panic
sleep_for s attempt (some d) = next (record s { attempt = attempt }, d)

unfoldable pub prepare_attempt :
    {R : Type 0}
    → RetryService
    → State
    → RequestBody
    → ResetTracker
    → Attempt R
    → Error
    → Option Duration
    → ℕ
    → Step (State × Duration)
unfolding sleep_for
prepare_attempt svc s body t a error retry_after attempt =
    if ltb svc.max_num_retries attempt
    then stop error
    else if body_ready body t a.resets
    then sleep_for s attempt (backoff svc a.random_range attempt retry_after)
    else stop error

-- The new state, and the time to sleep.
unfoldable pub prepare_for_retry :
    {R : Type 0}
    → RetryService
    → State
    → RequestBody
    → ResetTracker
    → Attempt R
    → Error
    → Option Duration
    → Step (State × Duration)
prepare_for_retry svc s body t a error retry_after = elim (add_one svc.overflow_checks s.attempt) [
  | none ↦ panic
  | some attempt ↦ prepare_attempt svc s body t a error retry_after attempt
]
