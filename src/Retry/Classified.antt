-- ===== src/Retry/Classified.antt =====
-- Which errors are retried, and which of two errors is reported.
use conjure_rust_runtime.Prelude.{
  ℕ, ◌≡◌, refl, Bool, true, false, Option, none, some, ◌⊎◌, inl, inr, Bool-cases, ◌==◌, ==_iff,
  arith, ap, sym, ◌∙◌, false≢true,
}
use conjure_rust_runtime.Errors
use conjure_rust_runtime.Errors.{
  Duration, SerializableError, ErrorKind, service, throttle, Cause, throttled_error,
  raw_client_error, remote_error, request_body_error, other_error, wrapping_error, Error, source,
  Result, ok, err,
}
use conjure_rust_runtime.Retry.Request.{State, AttemptOutcome, retry, Step, next, stop}
use conjure_rust_runtime.Retry.Send.{
  send_attempt, classify_kind, classify_cause, aborted_by_body, deconflict_errors,
}

-- The errors that may be retried: QoS responses always, a failure of the connection and a 500 only
-- for an idempotent request.
pub data Retriable (idempotent : Bool) : Cause → Type 0 where
  throttled : (d : Option Duration) → Retriable idempotent (throttled_error d)
  unavailable : Retriable idempotent Errors.unavailable_error
  connection : (c : Cause) → idempotent ≡ true → Retriable idempotent (raw_client_error c)
  server_error :
      (e : Option SerializableError) (status : ℕ)
      → idempotent ≡ true
      → status ≡ 500
      → Retriable idempotent (remote_error status e)

abbrev pub IsRetried : State → Error → Type 0
IsRetried s e = (e.kind ≡ service) × Retriable s.idempotent e.cause

-- The delay that the server asked for.
abbrev pub requested_delay : Cause → Option Duration
requested_delay (throttled_error d) = d
requested_delay c = none

not_raw : (c : Cause) → ¬ Retriable false (raw_client_error c)
not_raw c (connection c' h) = cc

not_500 :
    (n : ℕ) (r : Option SerializableError)
    → (n == 500) ≡ false
    → ¬ Retriable true (remote_error n r)
not_500 n r d (server_error r' n' h e) = ground arith

not_idempotent : (n : ℕ) (r : Option SerializableError) → ¬ Retriable false (remote_error n r)
not_idempotent n r (server_error r' n' h e) = cc

-- An attempt that failed is retried with the delay that the server asked for, or its error ends
-- the call.
abbrev pub Classified : {R : Type 0} → State → Error → Step (AttemptOutcome R) → Type 0
Classified s e r =
    (IsRetried s e × (r ≡ next (retry e (requested_delay e.cause))))
    ⊎ ((¬ IsRetried s e) × (r ≡ stop e))

classify_cause_lem :
    {R : Type 0} (idempotent : Bool) (e : Error) (c : Cause)
    → (Retriable idempotent c
        × (classify_cause {R = R} idempotent e c ≡ next (retry e (requested_delay c))))
      ⊎ ((¬ Retriable idempotent c) × (classify_cause {R = R} idempotent e c ≡ stop e))
unfolding classify_cause
classify_cause_lem idempotent e (throttled_error d) = inl (throttled d, refl)
classify_cause_lem idempotent e Errors.unavailable_error = inl (unavailable, refl)
classify_cause_lem true e (raw_client_error c) = inl (connection c refl, refl)
classify_cause_lem false e (raw_client_error c) = inr (not_raw c, refl)
classify_cause_lem true e (remote_error n r) = elim (Bool-cases (n == 500)) [
  | inl h ↦ inl (server_error r n refl ((==_iff n 500).0 h), rw h)
  | inr h ↦ inr (not_500 n r h, rw h)
]
classify_cause_lem false e (remote_error n r) = inr (not_idempotent n r, refl)
classify_cause_lem idempotent e request_body_error = inr (λ h. elim h [ ], ground arith)
classify_cause_lem idempotent e other_error = inr (λ h. elim h [ ], ground arith)
classify_cause_lem idempotent e (wrapping_error c) = inr (λ h. elim h [ ], ground arith)

-- A failed attempt is retried, after the delay that the server asked for if it did, exactly when
-- it is a service error whose cause is a 429, a 503, or for an idempotent request a connection
-- failure or a 500. Any other error is returned at once.
pub send_attempt-Classified :
    {R : Type 0} (s : State) (e : Error) → Classified {R = R} s e (send_attempt s (err e))
unfolding send_attempt classify_kind
send_attempt-Classified {R} s e = go e.kind refl
  where
    go : (k : ErrorKind) → e.kind ≡ k → Classified {R = R} s e (classify_kind s.idempotent e k)
    go service h = elim (classify_cause_lem {R = R} s.idempotent e e.cause) [
      | inl (c, r) ↦ inl ((h, c), r)
      | inr (c, r) ↦ inr ((λ x. c x.1), r)
    ]
    go (throttle d) h = inr ((λ x. cc (x.0)), refl)
    go Errors.unavailable h = inr ((λ x. cc (x.0)), refl)

-- The errors whose chain of sources leads to a `RequestBodyError`.
pub data InChain : Cause → Type 0 where
  here : InChain request_body_error
  there : (c d : Cause) → source c ≡ some d → InChain d → InChain c

some-eq : {c d : Cause} → some c ≡ some d → c ≡ d
some-eq h = cc

aborted-source : (c d : Cause) → source c ≡ some d → aborted_by_body c ≡ aborted_by_body d
unfolding source aborted_by_body
aborted-source (throttled_error r) d h = cc
aborted-source Errors.unavailable_error d h = cc
aborted-source (raw_client_error c) d h = ap aborted_by_body (some-eq h)
aborted-source (remote_error n r) d h = cc
aborted-source request_body_error d h = cc
aborted-source other_error d h = cc
aborted-source (wrapping_error c) d h = ap aborted_by_body (some-eq h)

aborted_of_chain : (c : Cause) → InChain c → aborted_by_body c ≡ true
unfolding aborted_by_body
aborted_of_chain _ here = refl
aborted_of_chain c (there c' d h r) = aborted-source c' d h ∙ aborted_of_chain d r

chain_of_aborted : (c : Cause) → aborted_by_body c ≡ true → InChain c
unfolding aborted_by_body source
chain_of_aborted (throttled_error r) h = cc
chain_of_aborted Errors.unavailable_error h = cc
chain_of_aborted (raw_client_error c) h = there (raw_client_error c) c refl (chain_of_aborted c h)
chain_of_aborted (remote_error n r) h = cc
chain_of_aborted request_body_error h = here
chain_of_aborted other_error h = cc
chain_of_aborted (wrapping_error c) h = there (wrapping_error c) c refl (chain_of_aborted c h)

-- When both the body and the request fail, the body's error is reported if the request failed
-- because the body did, directly or through other errors, and the request's error if not.
pub deconflict_errors_lem :
    (body hyper : Error)
    → (InChain hyper.cause × (deconflict_errors body hyper ≡ body))
      ⊎ ((¬ InChain hyper.cause) × (deconflict_errors body hyper ≡ hyper))
unfolding deconflict_errors
deconflict_errors_lem body hyper = elim (Bool-cases (aborted_by_body hyper.cause)) [
  | inl e ↦ inl (chain_of_aborted hyper.cause e, rw e)
  | inr e ↦ inr (λ c. false≢true (sym e ∙ aborted_of_chain hyper.cause c), rw e)
]
