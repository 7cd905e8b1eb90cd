-- ===== src/HttpError/Examples.antt =====
-- Tests of the errors for responses, and the theorems at concrete responses.
use conjure_rust_runtime.Prelude.{
  ℕ, ◌≡◌, refl, true, ◌&&◌, Option, none, some, List, [], ◌∷◌, leb, arith,
}
use conjure_rust_runtime.Errors.{
  SerializableError, internal_with_instance_id, service, Error, internal, throttled_error,
  remote_error, err,
}
use conjure_rust_runtime.Retry.Request.{State}
use conjure_rust_runtime.Retry.Send.{send_attempt}
use conjure_rust_runtime.HttpError.{
  automatic_retry, wrap_in_new_error, Runtime, Response, data_chunk, read_error, call, requested,
  parse_u64, parse_digits, read_body, body_error, too_many_requests, service_unavailable, remote,
}
use conjure_rust_runtime.HttpError.Body.{ReadsUpTo, contents, read_body_lem}
use conjure_rust_runtime.HttpError.Table.{Answer, call-Answer}
use conjure_rust_runtime.HttpError.Retries.{Handled, call_retries}

abbrev conflict : SerializableError
conflict = record { error_code = 4; error_name = 5; error_instance_id = 6 }

-- Every body that is not empty is this error.
abbrev some_error : Unit {0} → List ℕ → Option SerializableError
some_error encoding [] = none
some_error encoding (b ∷ bs) = some conflict

abbrev runtime : Runtime (Unit {0})
runtime = record {
  is_success = λ s. leb 200 s && leb s 299;
  to_str = some;
  json_encoding = tt;
  deserialize = some_error;
}

abbrev runs : Unit {0}
unfolding call requested parse_u64 parse_digits read_body body_error too_many_requests
    service_unavailable remote
runs = tt

-- "+12"
parsed_plus : parse_u64 (43 ∷ 49 ∷ 50 ∷ []) ≡ some 12
unfolding runs
parsed_plus = refl

parsed_sign : parse_u64 (43 ∷ []) ≡ none
unfolding runs
parsed_sign = refl

-- 2 ^ 64
parsed_overflow :
    parse_u64 (
      49 ∷ 56 ∷ 52 ∷ 52 ∷ 54 ∷ 55 ∷ 52 ∷ 52 ∷ 48 ∷ 55 ∷ 51 ∷ 55 ∷ 48 ∷ 57 ∷ 53 ∷ 53 ∷ 49 ∷ 54 ∷ 49
      ∷ 54 ∷ [])
    ≡ none
unfolding runs
parsed_overflow = refl

abbrev throttling : Response (Unit {0})
throttling = record { status = 429; retry_after = some (50 ∷ []); encoding = none; body = [] }

abbrev failing : Response (Unit {0})
failing = record {
  status = 500;
  retry_after = none;
  encoding = none;
  body = data_chunk (123 ∷ []) ∷ read_error ∷ [];
}

throttling_waits :
    call runtime automatic_retry wrap_in_new_error throttling
    ≡ err (internal (throttled_error (some 2_000_000_000)))
unfolding runs
throttling_waits = refl

abbrev failure : Error
failure = record {
  kind = service;
  cause = remote_error 500 (some conflict);
  identity = internal_with_instance_id 6;
}

failing_fails : call runtime automatic_retry wrap_in_new_error failing ≡ err failure
unfolding runs
failing_fails = refl

call-Answer_example :
    Answer runtime automatic_retry wrap_in_new_error failing
      (call runtime automatic_retry wrap_in_new_error failing)
call-Answer_example = call-Answer runtime automatic_retry wrap_in_new_error failing

abbrev first_attempt : State
first_attempt = record { idempotent = true; attempt = 0 }

call_retries_example :
    let o = call runtime automatic_retry wrap_in_new_error throttling in
    Handled runtime first_attempt throttling automatic_retry o (send_attempt first_attempt o)
call_retries_example =
    call_retries runtime first_attempt throttling automatic_retry wrap_in_new_error

read_body_lem_example : ReadsUpTo 1 (contents failing.body) (read_body [] failing.body)
read_body_lem_example = read_body_lem 1 failing.body (omega arith, tt)
