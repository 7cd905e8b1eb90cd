-- ===== src/HttpError/Retries.antt =====
-- Which responses the retry layer, on top of this one, sends the request for again.
use conjure_rust_runtime.Prelude.{
  ℕ, ◌≡◌, ◌≢◌, ◌↔◌, Bool, true, false, refl, none, Option, ◌⊎◌, inl, inr, arith, sym, subst,
}
use conjure_rust_runtime.Errors.{
  Duration, SerializableError, service, Cause, remote_error, Error, Result, ok, err,
}
use conjure_rust_runtime.Retry.Request.{State, AttemptOutcome, success, retry, Step, next, stop}
use conjure_rust_runtime.Retry.Send.{send_attempt}
use conjure_rust_runtime.Retry.Classified
use conjure_rust_runtime.Retry.Classified.{
  Retriable, IsRetried, requested_delay, send_attempt-Classified,
}
use conjure_rust_runtime.HttpError.RetryAfter.{Asks}
use conjure_rust_runtime.HttpError.{
  ServerQos, automatic_retry, propagate_429_and_503_to_caller, ServiceError, Runtime, Response,
  call,
}
use conjure_rust_runtime.HttpError.Table.{
  Answer, passed, throttled, not_available, failed, call-Answer,
}

-- The statuses that are retried.
abbrev pub RetriedStatus : ServerQos → Bool → ℕ → Type 0
RetriedStatus automatic_retry idempotent status =
    (status ≡ 429) ⊎ (status ≡ 503) ⊎ ((idempotent ≡ true) × (status ≡ 500))
RetriedStatus propagate_429_and_503_to_caller idempotent status =
    (idempotent ≡ true) × (status ≡ 500)

remote_retried :
    {idempotent : Bool} {c : Cause} (status : ℕ) (b : Option SerializableError)
    → c ≡ remote_error status b
    → Retriable idempotent c
    → (idempotent ≡ true) × (status ≡ 500)
remote_retried status b h (Classified.throttled d) = cc
remote_retried status b h Classified.unavailable = cc
remote_retried status b h (Classified.connection c i) = cc
remote_retried status b h (Classified.server_error e n i f) = (i, cc)

module _ {Encoding : Type 0} (runtime : Runtime Encoding) (s : State) (r : Response Encoding) where
  abbrev Retries : ServerQos → Result (Response Encoding) → Type 0
  Retries qos (ok x) = Unit
  Retries qos (err e) = IsRetried s e ↔ RetriedStatus qos s.idempotent r.status

  failed_retries :
      (qos : ServerQos) (e : Error) (b : Option SerializableError)
      → r.status ≢ 429
      → r.status ≢ 503
      → e.cause ≡ remote_error r.status b
      → e.kind ≡ service
      → IsRetried s e ↔ RetriedStatus qos s.idempotent r.status
  failed_retries automatic_retry e b t u c k = (
    (λ x. inr (inr (remote_retried r.status b c x.1))),
    (λ x. elim x [
      | inl h ↦ absurd (t h)
      | inr (inl h) ↦ absurd (u h)
      | inr (inr (i, h)) ↦
          (k, subst (Retriable s.idempotent) (sym c) (Classified.server_error b r.status i h))
    ]),
  )
  failed_retries propagate_429_and_503_to_caller e b t u c k = (
    (λ x. remote_retried r.status b c x.1),
    (λ (i, h).
        (k, subst (Retriable s.idempotent) (sym c) (Classified.server_error b r.status i h))),
  )

  Answer-Retries :
      (qos : ServerQos) (x : ServiceError) (o : Result (Response Encoding))
      → Answer runtime qos x r o
      → Retries qos o
  Answer-Retries qos x _ (passed h) = tt
  Answer-Retries automatic_retry x _ (throttled e d f h a c k i) =
      ((λ y. inl h), (λ y. (k, subst (Retriable s.idempotent) (sym c) (Classified.throttled _))))
  Answer-Retries propagate_429_and_503_to_caller x _ (throttled e d f h a c k i) =
      ((λ y. cc (y.0)), (λ (y, z). absurd (omega arith)))
  Answer-Retries automatic_retry x _ (not_available e f h c k i) = (
    (λ y. inr (inl h)),
    (λ y. (k, subst (Retriable s.idempotent) (sym c) Classified.unavailable)),
  )
  Answer-Retries propagate_429_and_503_to_caller x _ (not_available e f h c k i) =
      ((λ y. cc (y.0)), (λ (y, z). absurd (omega arith)))
  Answer-Retries qos x _ (failed e h t u c k i) = failed_retries qos e _ t u c k

  -- The time that the server asked to wait.
  abbrev pub Waits : Option Duration → Type 0
  Waits d = ((r.status ≡ 429) × Asks runtime r.retry_after d) ⊎ ((r.status ≢ 429) × (d ≡ none))

  -- What the retry layer makes of the answer `o` that this layer gives it.
  pub data Handled (qos : ServerQos) (o : Result (Response Encoding))
      : Step (AttemptOutcome (Response Encoding)) → Type 0 where
    accepted : runtime.is_success r.status ≡ true → o ≡ ok r → Handled qos o (next (success r))
    repeated :
        (e : Error) (d : Option Duration)
        → runtime.is_success r.status ≡ false
        → o ≡ err e
        → RetriedStatus qos s.idempotent r.status
        → Waits d
        → Handled qos o (next (retry e d))
    returned :
        (e : Error)
        → runtime.is_success r.status ≡ false
        → o ≡ err e
        → ¬ RetriedStatus qos s.idempotent r.status
        → Handled qos o (stop e)

  failed-Handled :
      (qos : ServerQos) (e : Error)
      → runtime.is_success r.status ≡ false
      → IsRetried s e ↔ RetriedStatus qos s.idempotent r.status
      → Waits (requested_delay e.cause)
      → Handled qos (err e) (send_attempt s (err e))
  failed-Handled qos e f same waits = elim (send_attempt-Classified {R = Response Encoding} s e) [
    | inl (y, h) ↦
        subst (Handled qos (err e)) (sym h)
          (repeated e (requested_delay e.cause) f refl (same.0 y) waits)
    | inr (n, h) ↦ subst (Handled qos (err e)) (sym h) (returned e f refl (λ y. n (same.1 y)))
  ]

  Answer-Handled :
      (qos : ServerQos) (x : ServiceError) (o : Result (Response Encoding))
      → Answer runtime qos x r o
      → Handled qos o (send_attempt s o)
  unfolding send_attempt
  Answer-Handled qos x _ (passed h) = accepted h refl
  Answer-Handled qos x o (throttled e d f h a c k i) =
      failed-Handled qos e f (Answer-Retries qos x _ (throttled e d f h a c k i))
        (subst (λ c. Waits (requested_delay c)) (sym c) (inl (h, a)))
  Answer-Handled qos x o (not_available e f h c k i) =
      failed-Handled qos e f (Answer-Retries qos x _ (not_available e f h c k i))
        (subst (λ c. Waits (requested_delay c)) (sym c) (inr ((λ z. omega (arith, h, z)), refl)))
  Answer-Handled qos x o (failed e f t u c k i) =
      failed-Handled qos e f (Answer-Retries qos x _ (failed e f t u c k i))
        (subst (λ c. Waits (requested_delay c)) (sym c) (inr (t, refl)))

  -- An attempt whose response this layer turns into a result, which the retry layer then looks at: a success is the
  -- call's response; the request is to be sent again, after the time that the server asked for, for a 429 and a 503
  -- unless these are propagated to the caller, and for a 500 if the request is idempotent; only a 429 asks for a
  -- time; and for any other response the error is returned.
  pub call_retries :
      (qos : ServerQos) (x : ServiceError)
      → let o = call runtime qos x r in Handled qos o (send_attempt s o)
  call_retries qos x = Answer-Handled qos x _ (call-Answer runtime qos x r)
