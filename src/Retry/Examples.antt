-- ===== src/Retry/Examples.antt =====
-- Tests of the retry layer, and its theorems at concrete calls.
use conjure_rust_runtime.Prelude.{
  ℕ, zero, suc, ◌*◌, ◌^◌, ◌≡◌, ◌+◌, ◌-◌, refl, Bool, true, false, none, some, [], ◌∷◌, arith, ◌⊎◌,
}
use conjure_rust_runtime.Errors
use conjure_rust_runtime.Errors.{
  Duration, Error, internal, throttled_error, raw_client_error, remote_error, request_body_error,
  other_error, wrapping_error, Result, ok, err,
}
use conjure_rust_runtime.Retry.Request.{
  RetryService, fixed, streaming, always, by_method, Attempt, State, is_idempotent, write,
}
use conjure_rust_runtime.Retry.Send.{
  send_raw, send_attempt, deconflict_errors, classify_kind, classify_cause,
  is_internal_server_error, aborted_by_body,
}
use conjure_rust_runtime.Retry.Backoff.{
  backoff, prepare_for_retry, prepare_attempt, sleep_for, body_ready, add_one, sub_one, shift_one,
  times,
}
use conjure_rust_runtime.Retry.Loop.{response, failure, call, call_loop, round, settle, resume}
use conjure_rust_runtime.Retry.Classified.{
  Classified, InChain, send_attempt-Classified, deconflict_errors_lem,
}
use conjure_rust_runtime.Retry.Jitter.{IsModest, Jittered, backoff_lem}
use conjure_rust_runtime.Retry.Trace.{Trace, call-Trace, Draws}
use conjure_rust_runtime.Retry.Overflow.{backoff_panics}

-- The default settings: four retries, a slot of 250 milliseconds.
abbrev default_service : RetryService
default_service = record {
  idempotency = by_method;
  max_num_retries = 4;
  backoff_slot_size = 250_000_000;
  overflow_checks = true;
}

-- The longest draw.
abbrev top_of : ℕ → ℕ
top_of max = max - 1

abbrev attempt_with : Result ℕ → Attempt ℕ
attempt_with r = record {
  response = r;
  polled = true;
  written = ok tt;
  resets = true;
  random_range = top_of;
}

-- A 503, a 429 that asks for a second, and then a response.
abbrev recovering : ℕ → Attempt ℕ
recovering zero = attempt_with (err (internal Errors.unavailable_error))
recovering (suc zero) = attempt_with (err (internal (throttled_error (some 1_000_000_000))))
recovering (suc (suc i)) = attempt_with (ok 7)

-- Every attempt answers with a 500.
abbrev failing : ℕ → Attempt ℕ
failing i = attempt_with (err (internal (remote_error 500 none)))

abbrev runs : Unit {0}
unfolding call call_loop round settle resume prepare_for_retry prepare_attempt sleep_for body_ready
    backoff add_one sub_one shift_one times send_raw send_attempt classify_kind classify_cause
    is_internal_server_error deconflict_errors aborted_by_body write is_idempotent
runs = tt

recovers :
    call default_service false streaming recovering 9
    ≡ record { outcome = response 7; sends = 3; sleeps = 249_999_999 ∷ 1_000_000_000 ∷ [] }
unfolding runs
recovers = refl

gives_up : call default_service true fixed failing 9 ≡ record {
  outcome = failure (internal (remote_error 500 none));
  sends = 5;
  sleeps = 249_999_999 ∷ 499_999_999 ∷ 999_999_999 ∷ 1_999_999_999 ∷ [];
}
unfolding runs
gives_up = refl

not_idempotent :
    call default_service false fixed failing 9
    ≡ record { outcome = failure (internal (remote_error 500 none)); sends = 1; sleeps = [] }
unfolding runs
not_idempotent = refl

default-IsModest : IsModest default_service
default-IsModest = record { retries = omega arith; slot = omega arith }

recovering-Draws : Draws recovering
recovering-Draws zero max h = omega arith
recovering-Draws (suc zero) max h = omega arith
recovering-Draws (suc (suc i)) max h = omega arith

call-Trace_example :
    Trace default_service streaming
      (is_idempotent by_method false)
      recovering
      0
      (call default_service false streaming recovering 9)
call-Trace_example =
    call-Trace default_service false streaming recovering 9 default-IsModest recovering-Draws
      (omega arith)

abbrev first_attempt : State
first_attempt = record { idempotent = true; attempt = 0 }

send_attempt-Classified_example :
    Classified {R = ℕ} first_attempt
      (internal (remote_error 500 none))
      (send_attempt first_attempt (err (internal (remote_error 500 none))))
send_attempt-Classified_example =
    send_attempt-Classified first_attempt (internal (remote_error 500 none))

-- The connection failed because the body did.
abbrev aborted : Error
aborted = internal (raw_client_error (wrapping_error request_body_error))

deconflict_errors_lem_example :
    (InChain aborted.cause
      × (deconflict_errors (internal other_error) aborted ≡ internal other_error))
    ⊎ ((¬ InChain aborted.cause) × (deconflict_errors (internal other_error) aborted ≡ aborted))
deconflict_errors_lem_example = deconflict_errors_lem (internal other_error) aborted

backoff_lem_example :
    (d : Duration) × (backoff default_service top_of (2 + 1) none ≡ some d)
    × Jittered (250_000_000 * 2 ^ 2) d
backoff_lem_example =
    backoff_lem default_service top_of 2 default-IsModest (λ max h. omega arith) (omega arith)

abbrev eager_service : Bool → RetryService
eager_service checks = record {
  idempotency = always;
  max_num_retries = 40;
  backoff_slot_size = 1_000_000;
  overflow_checks = checks;
}

backoff_panics_example : backoff (eager_service true) top_of 33 none ≡ none
backoff_panics_example =
    backoff_panics (eager_service true) top_of 33 refl (omega arith) (omega arith)
