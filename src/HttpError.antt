-- ===== src/HttpError.antt =====
-- conjure-runtime/src/service/http_error.rs: the layer that turns responses which report a failure
-- into errors.
--
-- The crates http, conjure_http and conjure_error are parameters (`Runtime`). Parameters of errors and
-- log lines are left out.
use conjure_rust_runtime.Prelude.{
  ℕ, ◌+◌, ◌*◌, ◌-◌, ◌^◌, ◌<◌, Bool, true, false, ◌&&◌, ◌||◌, Option, none, some, List, [], ◌∷◌,
  ◌++◌, length, ltb, leb, ◌==◌, if◌then◌else◌,
}
use conjure_rust_runtime.Errors.{
  Duration, SerializableError, Identity, new_identity, internal_with_instance_id, identity_of,
  ErrorKind, service, throttle, unavailable, Cause, throttled_error, unavailable_error,
  remote_error, Error, internal, Result, ok, err,
}
pub mod Body
pub mod RetryAfter
pub mod Table
pub mod Retries
mod Examples

pub data ServerQos : Type 0 where
  automatic_retry propagate_429_and_503_to_caller : ServerQos

pub data ServiceError : Type 0 where
  wrap_in_new_error propagate_to_caller : ServiceError

-- `StatusCode::is_success`, `HeaderValue::to_str`, and the deserializer of an encoding.
pub record Runtime (Encoding : Type 0) : Type 0 where
  pub is_success : ℕ → Bool
  pub to_str : List ℕ → Option (List ℕ)
  pub json_encoding : Encoding
  pub deserialize : Encoding → List ℕ → Option SerializableError

-- What reading from the body gives next.
pub data Chunk : Type 0 where
  data_chunk : List ℕ → Chunk
  read_error : Chunk

-- `encoding`: what `ConjureRuntime::response_body_encoding` answers for the headers.
pub record Response (Encoding : Type 0) : Type 0 where
  pub status : ℕ
  pub retry_after : Option (List ℕ)
  pub encoding : Option Encoding
  pub body : List Chunk

abbrev pub u64_mod : ℕ
u64_mod = 2 ^ 64

abbrev pub is_digit : ℕ → Bool
is_digit c = leb 48 c && leb c 57

-- The digits after those that came to `n`.
unfoldable pub parse_digits : ℕ → List ℕ → Option ℕ
parse_digits n [] = some n
parse_digits n (c ∷ cs) =
    let rest = parse_digits (n * 10 + (c - 48)) cs in
    if is_digit c && ltb (n * 10 + (c - 48)) u64_mod then rest else none

-- `str::parse::<u64>`: an optional `+`, and then one digit at least.
unfoldable pub parse_u64 : List ℕ → Option ℕ
unfolding parse_digits
parse_u64 [] = none
parse_u64 (c ∷ []) = parse_digits 0 (c ∷ [])
parse_u64 (c ∷ d ∷ cs) = if c == 43 then parse_digits 0 (d ∷ cs) else parse_digits 0 (c ∷ d ∷ cs)

abbrev pub seconds : Option ℕ → Option Duration
seconds none = none
seconds (some s) = some (s * 1_000_000_000)

abbrev pub parsed : Option (List ℕ) → Option ℕ
parsed none = none
parsed (some s) = parse_u64 s

abbrev pub body_limit : ℕ
body_limit = 500 * 1024

-- The loop over the chunks of the body; `read` is what it has so far.
unfoldable pub read_body : List ℕ → List Chunk → List ℕ
read_body read [] = read
read_body read (read_error ∷ chunks) = read
read_body read (data_chunk c ∷ chunks) =
    let rest = read_body (read ++ c) chunks in
    if ltb body_limit (length (read ++ c)) then read ++ c else rest

unfoldable pub too_many_requests : ServerQos → Option Duration → Error
too_many_requests automatic_retry retry_after = internal (throttled_error retry_after)
too_many_requests propagate_429_and_503_to_caller retry_after = record {
  kind = throttle retry_after;
  cause = throttled_error retry_after;
  identity = new_identity;
}

unfoldable pub service_unavailable : ServerQos → Error
service_unavailable automatic_retry = internal unavailable_error
service_unavailable propagate_429_and_503_to_caller = record {
  kind = unavailable;
  cause = unavailable_error;
  identity = new_identity;
}

unfoldable pub remote : ServiceError → ℕ → Option SerializableError → Error
remote s status none = internal (remote_error status none)
remote propagate_to_caller status (some e) = record {
  kind = service;
  cause = remote_error status (some e);
  identity = identity_of e;
}
remote wrap_in_new_error status (some e) = record {
  kind = service;
  cause = remote_error status (some e);
  identity = internal_with_instance_id e.error_instance_id;
}

module _ {Encoding : Type 0} (runtime : Runtime Encoding) where
  unfoldable pub requested : Option (List ℕ) → Option Duration
  requested none = none
  requested (some h) = seconds (parsed (runtime.to_str h))

  abbrev pub error_encoding : Option Encoding → Encoding
  error_encoding none = runtime.json_encoding
  error_encoding (some e) = e

  -- The Conjure error in the body.
  unfoldable pub body_error : Response Encoding → Option SerializableError
  body_error r = runtime.deserialize (error_encoding r.encoding) (read_body [] r.body)

  -- `HttpErrorService::call`, after the inner service.
  unfoldable pub call : ServerQos → ServiceError → Response Encoding → Result (Response Encoding)
  call server_qos service_error r =
      if runtime.is_success r.status
      then ok r
      else if r.status == 429
      then err (too_many_requests server_qos (requested r.retry_after))
      else if r.status == 503
      then err (service_unavailable server_qos)
      else err (remote service_error r.status (body_error r))
