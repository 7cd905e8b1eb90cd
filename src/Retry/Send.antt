-- ===== src/Retry/Send.antt =====
-- Sending one attempt, and whether its error is retried.
use conjure_rust_runtime.Errors
use conjure_rust_runtime.Prelude.{Bool, true, false, ◌&&◌, none, ◌==◌, if◌then◌else◌}
use conjure_rust_runtime.Errors.{
  Duration, ErrorKind, service, throttle, Cause, throttled_error, raw_client_error, remote_error,
  request_body_error, wrapping_error, Error, source, Result, ok, err,
}
use conjure_rust_runtime.Retry.Request.{State, AttemptOutcome, success, retry, Step, next, stop}

-- Is there a `RequestBodyError` in the chain of sources?
unfoldable pub aborted_by_body : Cause → Bool
aborted_by_body request_body_error = true
aborted_by_body (raw_client_error c) = aborted_by_body c
aborted_by_body (wrapping_error c) = aborted_by_body c
aborted_by_body c = false

unfoldable pub deconflict_errors : Error → Error → Error
unfolding aborted_by_body
deconflict_errors body_error hyper_error =
    if aborted_by_body hyper_error.cause then body_error else hyper_error

unfoldable pub send_raw : {R : Type 0} → Result (Unit {0}) → Result R → Result R
send_raw body_result (ok response) = ok response
send_raw (ok done) (err e) = err e
send_raw (err body) (err hyper) = err (deconflict_errors body hyper)

unfoldable pub is_internal_server_error : Cause → Bool
is_internal_server_error (remote_error status e) = status == 500
is_internal_server_error c = false

is_raw_client_error : Cause → Bool
is_raw_client_error (raw_client_error c) = true
is_raw_client_error c = false

-- The ladder of tests on the cause of a service error.
unfoldable pub classify_cause : {R : Type 0} → Bool → Error → Cause → Step (AttemptOutcome R)
unfolding is_raw_client_error is_internal_server_error
classify_cause idempotent error (throttled_error retry_after) = next (retry error retry_after)
classify_cause idempotent error Errors.unavailable_error = next (retry error none)
classify_cause idempotent error c =
    if idempotent && is_raw_client_error c
    then next (retry error none)
    else if idempotent && is_internal_server_error c
    then next (retry error none)
    else stop error

-- Propagated QoS errors are not retried.
unfoldable pub classify_kind : {R : Type 0} → Bool → Error → ErrorKind → Step (AttemptOutcome R)
unfolding classify_cause
classify_kind idempotent error service = classify_cause idempotent error error.cause
classify_kind idempotent error (throttle d) = stop error
classify_kind idempotent error Errors.unavailable = stop error

unfoldable pub send_attempt : {R : Type 0} → State → Result R → Step (AttemptOutcome R)
unfolding classify_kind
send_attempt s (ok response) = next (success response)
send_attempt s (err error) = classify_kind s.idempotent error error.kind
