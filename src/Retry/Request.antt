-- ===== src/Retry/Request.antt =====
-- The configuration of the layer, one attempt as its environment answers it, and the body's tracker.
use conjure_rust_runtime.Prelude.{ℕ, Bool, true, false, Option, if◌then◌else◌}
use conjure_rust_runtime.Errors.{Duration, Error, Result, ok}

pub data Idempotency : Type 0 where
  always by_method never : Idempotency

-- `RetryService`, and the build profile.
pub record RetryService : Type 0 where
  pub idempotency : Idempotency
  pub max_num_retries : ℕ
  pub backoff_slot_size : Duration
  pub overflow_checks : Bool

pub data RequestBody : Type 0 where
  empty fixed streaming : RequestBody

-- What happens in one attempt. `polled`: the HTTP client asked for the body. `written`: the outcome
-- of writing it. `resets`: what `reset` on the body answers afterwards. `random_range` draws below
-- its argument.
pub record Attempt (R : Type 0) : Type 0 where
  pub response : Result R
  pub polled : Bool
  pub written : Result (Unit {0})
  pub resets : Bool
  pub random_range : ℕ → ℕ

pub record State : Type 0 where
  pub idempotent : Bool
  pub attempt : ℕ

pub record ResetTracker : Type 0 where
  pub needs_reset : Bool

pub data AttemptOutcome (R : Type 0) : Type 0 where
  success : R → AttemptOutcome R
  retry : Error → Option Duration → AttemptOutcome R

-- A panic ends the request too.
pub data Step {ℓ} (A : Type ℓ) : Type ℓ where
  next : A → Step A
  stop : Error → Step A
  panic : Step A

unfoldable pub is_idempotent : Idempotency → Bool → Bool
is_idempotent always method_is_idempotent = true
is_idempotent by_method method_is_idempotent = method_is_idempotent
is_idempotent never method_is_idempotent = false

-- `self.tracker.needs_reset = true`, before the body is written.
abbrev pub write_body : ResetTracker → ResetTracker
write_body t = record { needs_reset = true }

-- `Writer::write`. The body is written only if the client asks for it.
unfoldable pub write :
    {R : Type 0} → RequestBody → Attempt R → ResetTracker → ResetTracker × Result (Unit {0})
write empty a t = (t, ok tt)
write fixed a t = (t, ok tt)
write streaming a t = if a.polled then (write_body t, a.written) else (t, ok tt)
