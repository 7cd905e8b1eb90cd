-- ===== src/Errors.antt =====
-- conjure-runtime/src/errors.rs and service/map_error.rs: the errors that layers hand to each
-- other. Of `conjure_error::Error` the layers look at its kind and at its cause, a chain of
-- `std::error::Error::source` links; texts and parameters are left out.
use conjure_rust_runtime.Prelude.{ℕ, Option, none, some}

-- A `Duration`, in nanoseconds.
abbrev pub Duration : Type 0
Duration = ℕ

-- A Conjure error as servers send it: its identity, and its instance.
pub record SerializableError : Type 0 where
  pub error_code : ℕ
  pub error_name : ℕ
  pub error_instance_id : ℕ

pub data ErrorKind : Type 0 where
  service : ErrorKind
  throttle : Option Duration → ErrorKind
  unavailable : ErrorKind

-- `ThrottledError`, `UnavailableError`, `RawClientError` with the error that it wraps,
-- `RemoteError`, `RequestBodyError`, and errors of other types, with and without a source.
pub data Cause : Type 0 where
  throttled_error : Option Duration → Cause
  unavailable_error : Cause
  raw_client_error : Cause → Cause
  remote_error : ℕ → Option SerializableError → Cause
  request_body_error : Cause
  other_error : Cause
  wrapping_error : Cause → Cause

-- The identity that an error shows to its callers: one made up for it, Conjure's internal error
-- with a given instance ID, or that of a Conjure error which it passes on.
pub data Identity : Type 0 where
  new_identity : Identity
  internal_with_instance_id : ℕ → Identity
  identity_of : SerializableError → Identity

pub record Error : Type 0 where
  pub kind : ErrorKind
  pub cause : Cause
  pub identity : Identity

-- `std::error::Error::source`.
unfoldable pub source : Cause → Option Cause
source (throttled_error d) = none
source unavailable_error = none
source (raw_client_error c) = some c
source (remote_error s e) = none
source request_body_error = none
source other_error = none
source (wrapping_error c) = some c

-- `Error::internal_safe`.
abbrev pub internal : Cause → Error
internal c = record { kind = service; cause = c; identity = new_identity }

pub data Result {ℓ} (A : Type ℓ) : Type ℓ where
  ok : A → Result A
  err : Error → Result A

-- What the raw HTTP client returns: a response, or an error of its own.
pub data RawResult {ℓ} (A : Type ℓ) : Type ℓ where
  responded : A → RawResult A
  failed : Cause → RawResult A

-- `MapErrorService::call`: a failure of the raw client becomes an internal error around it.
unfoldable pub map_error {ℓ} : {A : Type ℓ} → RawResult A → Result A
map_error (responded a) = ok a
map_error (failed c) = err (internal (raw_client_error c))
