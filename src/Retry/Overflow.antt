-- ===== src/Retry/Overflow.antt =====
-- Beyond 32 retries the shift of the backoff overflows.
use conjure_rust_runtime.Prelude.{
  ℕ, ◌+◌, ◌-◌, ◌%◌, ◌≤◌, ◌<◌, ◌≡◌, Bool, true, false, none, some, arith, ge→ltb, lt→ltb,
}
use conjure_rust_runtime.Retry.Request.{RetryService}
use conjure_rust_runtime.Retry.Backoff.{backoff, sub_one, shift_one, u32_mod}

sub_one_any : (checks : Bool) (a : ℕ) → 1 ≤ a → a < u32_mod → sub_one checks a ≡ some (a - 1)
unfolding sub_one
sub_one_any checks a low high = ground arith

shift_one-over : (n : ℕ) → 32 ≤ n → shift_one true n ≡ none
unfolding shift_one
shift_one-over n h = rw (ge→ltb n 32 h)

shift_one-wraps : (n : ℕ) → n < 32 → shift_one false (n + 32) ≡ shift_one false n
unfolding shift_one
shift_one-wraps n h = rw (ge→ltb (n + 32) 32 (omega arith), lt→ltb n 32 h, wraps)
  where
    wraps : (n + 32) % 32 ≡ n
    wraps = omega arith

-- In a build with overflow checks the 33rd retry, and every later one, panics unless the server
-- asked for a delay.
pub backoff_panics :
    (svc : RetryService) (random_range : ℕ → ℕ) (attempt : ℕ)
    → svc.overflow_checks ≡ true
    → 33 ≤ attempt
    → attempt < u32_mod
    → backoff svc random_range attempt none ≡ none
unfolding backoff
backoff_panics svc random_range attempt checks low high = rw (
  checks,
  sub_one_any true attempt (omega arith) high,
  shift_one-over (attempt - 1) (omega arith),
)

-- In a build without them the backoff of the retry number `attempt + 32` is that of `attempt`: it
-- starts again at one slot.
backoff_restarts :
    (svc : RetryService) (random_range : ℕ → ℕ) (attempt : ℕ)
    → svc.overflow_checks ≡ false
    → 1 ≤ attempt
    → attempt ≤ 32
    → backoff svc random_range (attempt + 32) none ≡ backoff svc random_range attempt none
unfolding backoff
backoff_restarts svc random_range attempt checks low high = rw (
  checks,
  sub_one_any false (attempt + 32) (omega arith) (omega arith),
  sub_one_any false attempt low (omega arith),
  same,
  shift_one-wraps (attempt - 1) (omega arith),
)
  where
    same : attempt + 32 - 1 ≡ attempt - 1 + 32
    same = omega arith
