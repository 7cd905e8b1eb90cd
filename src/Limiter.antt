-- ===== src/Limiter.antt =====
-- conjure-runtime/src/service/node/limiter/ciad.rs: the concurrency limit of a host or of an
-- endpoint, which follows the responses.
--
-- `f64` is a parameter (`Float`). Of the semaphore only its total matters here, which no other call
-- changes. The limit is exchanged first, and the semaphore is adjusted in a second step, so that
-- threads come in between: each of the two is a step of its own.
use conjure_rust_runtime.Prelude.{
  ℕ, zero, suc, ◌+◌, ◌-◌, ◌^◌, Bool, true, false, Option, none, some, List, [], ◌∷◌, ◌++◌, ltb, leb,
  ◌==◌, ◌||◌, if◌then◌else◌, ◌>>=◌,
}
use conjure_rust_runtime.Errors.{Cause, raw_client_error, Error, Result, ok, err}
pub mod Modes
pub mod Rules
pub mod Counts
pub mod Totals
pub mod Alone
mod Examples

-- The operations of `f64`, the constant 0.9, and the comparison of bits in `AtomicF64`.
pub record Float (F : Type 0) : Type 0 where
  pub of_nat : ℕ → F
  pub to_usize : F → ℕ
  pub add : F → F → F
  pub mul : F → F → F
  pub div : F → F → F
  pub fmin : F → F → F
  pub fmax : F → F → F
  pub floor : F → F
  pub backoff_ratio : F
  pub same_bits : F → F → Bool

abbrev pub initial_limit : ℕ
initial_limit = 20

abbrev pub min_limit : ℕ
min_limit = 1

abbrev pub max_limit : ℕ
max_limit = 1_000_000

abbrev pub usize_max : ℕ
usize_max = 2 ^ 64 - 1

pub data Mode : Type 0 where
  ignore success dropped : Mode

-- `HostLevel` and `EndpointLevel`; `is_server_error` is that of `StatusCode`.
module _ (is_server_error : ℕ → Bool) where
  unfoldable pub host_on_success : ℕ → Mode
  host_on_success status =
      if status == 500 || status == 429
      then ignore
      else if is_server_error status
      then dropped
      else success

  unfoldable pub endpoint_on_success : ℕ → Mode
  endpoint_on_success status =
      if status == 500 || status == 429
      then dropped
      else if is_server_error status
      then ignore
      else success

  abbrev pub on_cause : Cause → Mode
  on_cause (raw_client_error c) = dropped
  on_cause c = ignore

  abbrev pub host_on_failure : Error → Mode
  host_on_failure e = on_cause e.cause

  abbrev pub endpoint_on_failure : Error → Mode
  endpoint_on_failure e = ignore

  -- The modes of the two halves of a `Permit` after `on_response`: the endpoint's, and the host's.
  unfoldable pub on_response : Result ℕ → Mode × Mode
  unfolding host_on_success endpoint_on_success
  on_response (ok status) = (endpoint_on_success status, host_on_success status)
  on_response (err e) = (endpoint_on_failure e, host_on_failure e)

pub record CiadConcurrencyLimiter (F : Type 0) : Type 0 where
  pub limit : F
  pub in_flight : ℕ

-- What is still to be done to the semaphore.
pub data Change : Type 0 where
  add_permits remove_permits : ℕ → Change
  keep : Change

-- A thread in `update_limit`: it has read the limit, or it has exchanged it.
pub data Update (F : Type 0) : Type 0 where
  reading : Mode → ℕ → F → Update F
  adjusting : Change → Update F

-- The total of the semaphore, and the threads.
pub record World (F : Type 0) : Type 0 where
  pub limiter : CiadConcurrencyLimiter F
  pub total : ℕ
  pub updates : List (Update F)

pub data Event : Type 0 where
  acquires : Event
  drops : Mode → ℕ → Event
  moves : ℕ → Event

-- `add_permits` and `remove_permits` of the semaphore, which panic on overflow.
unfoldable pub adjust : ℕ → Change → Option ℕ
adjust total (add_permits n) = if leb (total + n) usize_max then some (total + n) else none
adjust total (remove_permits n) = if leb n total then some (total - n) else none
adjust total keep = some total

module _ {F : Type 0} (float : Float F) where
  unfoldable pub new : World F
  new = record {
    limiter = record { limit = float.of_nat initial_limit; in_flight = 0 };
    total = initial_limit;
    updates = [];
  }

  -- The closures that `Permit::drop` gives to `update_limit`.
  unfoldable pub new_limit : Mode → ℕ → F → Option F
  new_limit ignore snapshot old = none
  new_limit success snapshot old =
      if leb (float.to_usize (float.mul old float.backoff_ratio)) snapshot
      then some
          (float.fmin (float.of_nat max_limit) (float.add old (float.div (float.of_nat 1) old)))
      else none
  new_limit dropped snapshot old =
      some (float.fmax (float.of_nat min_limit) (float.floor (float.mul old float.backoff_ratio)))

  unfoldable pub change : ℕ → ℕ → Change
  change old new =
      if ltb old new
      then add_permits (new - old)
      else if ltb new old
      then remove_permits (old - new)
      else keep

  -- One turn of the loop in `update_limit`.
  unfoldable pub exchange :
      CiadConcurrencyLimiter F
      → Mode
      → ℕ
      → F
      → Option F
      → CiadConcurrencyLimiter F × List (Update F)
  exchange l mode snapshot old none = (l, [])
  exchange l mode snapshot old (some new) =
      if float.same_bits old l.limit
      then (
        record l { limit = new },
        adjusting (change (float.to_usize old) (float.to_usize new)) ∷ [],
      )
      else (l, reading mode snapshot l.limit ∷ [])

  -- The next step of a thread, and the thread after it, if it goes on.
  unfoldable pub advance :
      CiadConcurrencyLimiter F
      → ℕ
      → Update F
      → Option (CiadConcurrencyLimiter F × ℕ × List (Update F))
  advance l total (adjusting c) = do t ← adjust total c; some (l, t, [])
  advance l total (reading mode snapshot old) =
      let (l, us) = exchange l mode snapshot old (new_limit mode snapshot old) in
      some (l, total, us)

  unfoldable pub move :
      CiadConcurrencyLimiter F
      → ℕ
      → List (Update F)
      → ℕ
      → Option (CiadConcurrencyLimiter F × ℕ × List (Update F))
  move l total [] i = some (l, total, [])
  move l total (u ∷ us) zero = do (l, t, vs) ← advance l total u; some (l, t, vs ++ us)
  move l total (u ∷ us) (suc i) = do (l, t, vs) ← move l total us i; some (l, t, u ∷ vs)

  -- What `Permit::drop` starts.
  unfoldable pub begin_drop : Mode → ℕ → F → List (Update F)
  begin_drop ignore snapshot limit = []
  begin_drop success snapshot limit = reading success snapshot limit ∷ []
  begin_drop dropped snapshot limit = reading dropped snapshot limit ∷ []

  -- The result is `none` if a thread panics.
  unfoldable pub step : World F → Event → Option (World F)
  step w acquires =
      some (record w { limiter = record w.limiter { in_flight = w.limiter.in_flight + 1 } })
  step w (drops mode snapshot) = some (record {
    limiter = record w.limiter { in_flight = w.limiter.in_flight - 1 };
    total = w.total;
    updates = begin_drop mode snapshot w.limiter.limit ++ w.updates;
  })
  step w (moves i) = do
    (l, t, us) ← move w.limiter w.total w.updates i
    some (record { limiter = l; total = t; updates = us })

  unfoldable pub run : World F → List Event → Option (World F)
  run w [] = some w
  run w (e ∷ es) = do w ← step w e; run w es
