-- ===== src/Retry/Loop.antt =====
-- The loop over the attempts.
use conjure_rust_runtime.Prelude.{ℕ, zero, suc, Bool, false, Option, List, [], ◌∷◌}
use conjure_rust_runtime.Errors.{Duration, Error}
use conjure_rust_runtime.Retry.Request.{
  RetryService, RequestBody, Attempt, State, ResetTracker, AttemptOutcome, success, retry, Step,
  next, stop, panic, is_idempotent, write,
}
use conjure_rust_runtime.Retry.Send.{send_raw, send_attempt}
use conjure_rust_runtime.Retry.Backoff.{prepare_for_retry}

pub data Outcome (R : Type 0) : Type 0 where
  response : R → Outcome R
  failure : Error → Outcome R
  panicked : Outcome R
  out_of_fuel : Outcome R

-- How a call ends, how often the request was sent, and the times slept in between.
pub record Run (R : Type 0) : Type 0 where
  pub outcome : Outcome R
  pub sends : ℕ
  pub sleeps : List Duration

abbrev pub ended : {R : Type 0} → Outcome R → Run R
ended o = record { outcome = o; sends = 1; sleeps = [] }

abbrev pub slept : {R : Type 0} → Duration → Run R → Run R
slept d r = record { outcome = r.outcome; sends = suc r.sends; sleeps = d ∷ r.sleeps }

-- After the pause before a retry.
unfoldable pub resume :
    {R : Type 0}
    → Error
    → Option Duration
    → Step (State × Duration)
    → Step (AttemptOutcome R × State × Duration)
resume error retry_after panic = panic
resume error retry_after (stop e) = stop e
resume error retry_after (next (s, d)) = next (retry error retry_after, s, d)

-- After the attempt.
unfoldable pub settle :
    {R : Type 0}
    → RetryService
    → RequestBody
    → State
    → ResetTracker
    → Attempt R
    → Step (AttemptOutcome R)
    → Step (AttemptOutcome R × State × Duration)
settle svc body s t a panic = panic
settle svc body s t a (stop error) = stop error
settle svc body s t a (next (success r)) = next (success r, s, 0)
settle svc body s t a (next (retry error retry_after)) =
    resume error retry_after (prepare_for_retry svc s body t a error retry_after)

abbrev pub fresh_tracker : ResetTracker
fresh_tracker = record { needs_reset = false }

-- One round of the loop: the request is sent, and the loop ends or is ready for the next round.
unfoldable pub round :
    {R : Type 0}
    → RetryService
    → RequestBody
    → State
    → Attempt R
    → Step (AttemptOutcome R × State × Duration)
round svc body s a =
    let (t, body_result) = write body a fresh_tracker in
    settle svc body s t a (send_attempt s (send_raw body_result a.response))

-- `State::call`: `i` counts the rounds. The source's loop has no bound of its own.
unfoldable pub call_loop :
    {R : Type 0} → RetryService → RequestBody → (ℕ → Attempt R) → ℕ → ℕ → State → Run R
call_loop svc body attempts zero i s = record { outcome = out_of_fuel; sends = 0; sleeps = [] }
call_loop svc body attempts (suc fuel) i s = elim (round svc body s (attempts i)) [
  | panic ↦ ended panicked
  | stop error ↦ ended (failure error)
  | next (success r, s', d) ↦ ended (response r)
  | next (retry error retry_after, s', d) ↦ slept d (call_loop svc body attempts fuel (suc i) s')
]

unfoldable pub call : {R : Type 0} → RetryService → Bool → RequestBody → (ℕ → Attempt R) → ℕ → Run R
call svc method_is_idempotent body attempts fuel =
    call_loop svc body attempts fuel 0
      (record { idempotent = is_idempotent svc.idempotency method_is_idempotent; attempt = 0 })
