-- ===== src/HttpError/Table.antt =====
-- Which error answers which response.
use conjure_rust_runtime.Prelude.{
  ℕ, ◌≡◌, ◌≢◌, refl, true, false, Bool-cases, Option, none, some, inl, inr, ◌==◌, ==_iff, arith,
}
use conjure_rust_runtime.Errors.{
  Duration, SerializableError, Identity, new_identity, internal_with_instance_id, identity_of,
  ErrorKind, service, throttle, unavailable, throttled_error, unavailable_error, remote_error,
  Error, Result, ok, err,
}
use conjure_rust_runtime.HttpError.RetryAfter.{Asks, requested-Asks}
use conjure_rust_runtime.HttpError.{
  ServerQos, automatic_retry, propagate_429_and_503_to_caller, ServiceError, wrap_in_new_error,
  propagate_to_caller, Runtime, Response, call, requested, too_many_requests, service_unavailable,
  remote, body_error,
}

-- Which error callers see for a Conjure error in the body: an internal one with its instance ID, or that error itself.
abbrev pub shown : ServiceError → Option SerializableError → Identity
shown s none = new_identity
shown wrap_in_new_error (some e) = internal_with_instance_id e.error_instance_id
shown propagate_to_caller (some e) = identity_of e

-- The kind of the error for a QoS response with this cause.
abbrev pub qos_kind : ServerQos → ErrorKind → ErrorKind
qos_kind automatic_retry k = service
qos_kind propagate_429_and_503_to_caller k = k

module _ {Encoding : Type 0} (runtime : Runtime Encoding) where
  -- What a response is turned into.
  pub data Answer (qos : ServerQos) (s : ServiceError) (r : Response Encoding)
      : Result (Response Encoding) → Type 0 where
    passed : runtime.is_success r.status ≡ true → Answer qos s r (ok r)
    throttled :
        (e : Error) (d : Option Duration)
        → runtime.is_success r.status ≡ false
        → r.status ≡ 429
        → Asks runtime r.retry_after d
        → e.cause ≡ throttled_error d
        → e.kind ≡ qos_kind qos (throttle d)
        → e.identity ≡ new_identity
        → Answer qos s r (err e)
    not_available :
        (e : Error)
        → runtime.is_success r.status ≡ false
        → r.status ≡ 503
        → e.cause ≡ unavailable_error
        → e.kind ≡ qos_kind qos unavailable
        → e.identity ≡ new_identity
        → Answer qos s r (err e)
    failed :
        (e : Error)
        → runtime.is_success r.status ≡ false
        → r.status ≢ 429
        → r.status ≢ 503
        → e.cause ≡ remote_error r.status (body_error runtime r)
        → e.kind ≡ service
        → e.identity ≡ shown s (body_error runtime r)
        → Answer qos s r (err e)

  remote_lem :
      (s : ServiceError) (status : ℕ) (b : Option SerializableError)
      → ((remote s status b).cause ≡ remote_error status b)
        × ((remote s status b).kind ≡ service)
        × ((remote s status b).identity ≡ shown s b)
  unfolding remote
  remote_lem wrap_in_new_error status none = (refl, refl, refl)
  remote_lem propagate_to_caller status none = (refl, refl, refl)
  remote_lem wrap_in_new_error status (some e) = (refl, refl, refl)
  remote_lem propagate_to_caller status (some e) = (refl, refl, refl)

  throttled_lem :
      (qos : ServerQos) (d : Option Duration)
      → ((too_many_requests qos d).cause ≡ throttled_error d)
        × ((too_many_requests qos d).kind ≡ qos_kind qos (throttle d))
        × ((too_many_requests qos d).identity ≡ new_identity)
  unfolding too_many_requests
  throttled_lem automatic_retry d = (refl, refl, refl)
  throttled_lem propagate_429_and_503_to_caller d = (refl, refl, refl)

  unavailable_lem :
      (qos : ServerQos)
      → ((service_unavailable qos).cause ≡ unavailable_error)
        × ((service_unavailable qos).kind ≡ qos_kind qos unavailable)
        × ((service_unavailable qos).identity ≡ new_identity)
  unfolding service_unavailable
  unavailable_lem automatic_retry = (refl, refl, refl)
  unavailable_lem propagate_429_and_503_to_caller = (refl, refl, refl)

  -- A success is passed on. A 429 and a 503 become new errors with the causes for them, of a kind that
  -- callers see as QoS only if these are propagated; that for a 429 holds the time that `Retry-After` asks for,
  -- if it is the numeral of a `u64`. Any other status becomes a service error that holds the status and the
  -- Conjure error in the body, if there is one: if such errors are propagated, callers see that error, and if not, an
  -- internal one with its instance ID.
  pub call-Answer :
      (qos : ServerQos) (s : ServiceError) (r : Response Encoding)
      → Answer qos s r (call runtime qos s r)
  unfolding call
  call-Answer qos s r = elim (Bool-cases (runtime.is_success r.status)) [
    | inl e ↦ rw e (passed e)
    | inr e ↦ elim (Bool-cases (r.status == 429)) [
      | inl t ↦
          let (c, k, i) = throttled_lem qos (requested runtime r.retry_after) in
          rw (e, t)
            (throttled _ (requested runtime r.retry_after) e ((==_iff r.status 429).0 t)
              (requested-Asks runtime r.retry_after) c k i)
      | inr t ↦ elim (Bool-cases (r.status == 503)) [
        | inl u ↦
            let (c, k, i) = unavailable_lem qos in
            rw (e, t, u) (not_available _ e ((==_iff r.status 503).0 u) c k i)
        | inr u ↦
            let (c, k, i) = remote_lem s r.status (body_error runtime r) in
            rw (e, t, u) (failed _ e (ground arith) (ground arith) c k i)
      ]
    ]
  ]
