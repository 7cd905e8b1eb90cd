-- ===== src/Retry/Round.antt =====
-- One round of the loop: how it ends, or why there is another one.
use conjure_rust_runtime.Prelude.{
  ℕ, ◌+◌, ◌*◌, ◌^◌, ◌≤◌, ◌<◌, ◌≡◌, refl, Bool, true, false, Option, none, some, ◌⊎◌, inl, inr,
  Bool-cases, ltb, lt→ltb, ge→ltb, ltb→ge, ltb→lt, arith, ap, ◌∙◌, Option-cases,
}
use conjure_rust_runtime.Errors.{Duration, Cause, Error, Result, ok, err}
use conjure_rust_runtime.Retry.Request.{
  RetryService, RequestBody, Attempt, State, ResetTracker, AttemptOutcome, success, retry, Step,
  next, stop, write,
}
use conjure_rust_runtime.Retry.Send.{send_raw, send_attempt}
use conjure_rust_runtime.Retry.Backoff.{prepare_for_retry, prepare_attempt, body_ready, backoff}
use conjure_rust_runtime.Retry.Loop.{round, settle, resume, fresh_tracker}
use conjure_rust_runtime.Retry.Classified.{IsRetried, requested_delay, send_attempt-Classified}
use conjure_rust_runtime.Retry.Jitter.{IsModest, Jittered, add_one_small, backoff_lem}

abbrev pub at : Bool → ℕ → State
at idempotent i = record { idempotent = idempotent; attempt = i }

-- The delay before the retry that follows round `i`.
abbrev pub Delay : RetryService → ℕ → Cause → Duration → Type 0
Delay svc i c d =
    (requested_delay c ≡ some d)
    ⊎ ((requested_delay c ≡ none) × Jittered (svc.backoff_slot_size * 2 ^ i) d)

delayed :
    (svc : RetryService) (random_range : ℕ → ℕ) (i : ℕ) (c : Cause)
    → IsModest svc
    → ((max : ℕ) → 0 < max → random_range max < max)
    → i < svc.max_num_retries
    → (d : Duration) × (backoff svc random_range (i + 1) (requested_delay c) ≡ some d)
      × Delay svc i c d
unfolding backoff
delayed svc random_range i c m draws h = elim (Option-cases (requested_delay c)) [
  | inl e ↦ let (d, b, j) = backoff_lem svc random_range i m draws h in (d, rw e b, inr (e, j))
  | inr (d, e) ↦ (d, rw (e, backoff), inl e)
]

module _ {R : Type 0} where
  -- What the attempt comes to: its response, or the error that is looked at.
  abbrev pub sent : RequestBody → Attempt R → Result R
  sent body a = send_raw (write body a fresh_tracker).1 a.response

  -- Nothing of the body has been written, or the body was reset.
  abbrev pub reusable : RequestBody → Attempt R → Bool
  reusable body a = body_ready body (write body a fresh_tracker).0 a.resets

  -- Why an error is final.
  abbrev pub IsFinal : RetryService → RequestBody → Bool → ℕ → Attempt R → Error → Type 0
  IsFinal svc body idempotent i a e =
      (¬ IsRetried (at idempotent i) e) ⊎ (svc.max_num_retries ≤ i) ⊎ (reusable body a ≡ false)

  pub data Rounds (svc : RetryService) (body : RequestBody) (idempotent : Bool) (i : ℕ)
      (a : Attempt R) (r : Step (AttemptOutcome R × State × Duration)) : Type 0 where
    answered :
        (x : R)
        → sent body a ≡ ok x
        → r ≡ next (success x, at idempotent i, 0)
        → Rounds svc body idempotent i a r
    final :
        (e : Error)
        → sent body a ≡ err e
        → IsFinal svc body idempotent i a e
        → r ≡ stop e
        → Rounds svc body idempotent i a r
    again :
        (e : Error) (d : Duration)
        → sent body a ≡ err e
        → IsRetried (at idempotent i) e
        → i < svc.max_num_retries
        → reusable body a ≡ true
        → Delay svc i e.cause d
        → r ≡ next (retry e (requested_delay e.cause), at idempotent (i + 1), d)
        → Rounds svc body idempotent i a r

  module _ (svc : RetryService) (body : RequestBody) (idempotent : Bool) (i : ℕ) (a : Attempt R)
      (m : IsModest svc) (draws : (max : ℕ) → 0 < max → a.random_range max < max) where
    abbrev tracker : ResetTracker
    tracker = (write body a fresh_tracker).0

    abbrev prepared : Error → Option Duration → Step (State × Duration)
    prepared e d = prepare_for_retry svc (at idempotent i) body tracker a e d

    prepared-over :
        (e : Error) (d : Option Duration) → i ≡ svc.max_num_retries → prepared e d ≡ stop e
    unfolding prepare_for_retry prepare_attempt
    prepared-over e d h = rw (
      add_one_small svc.overflow_checks i (omega (arith, m.retries)),
      prepare_for_retry,
      lt→ltb svc.max_num_retries (i + 1) (omega arith),
    )

    prepared-spent :
        (e : Error) (d : Option Duration)
        → i < svc.max_num_retries
        → reusable body a ≡ false
        → prepared e d ≡ stop e
    unfolding prepare_for_retry prepare_attempt
    prepared-spent e d h spent = rw (
      add_one_small svc.overflow_checks i (omega (arith, m.retries)),
      prepare_for_retry,
      ge→ltb svc.max_num_retries (i + 1) (omega arith),
      spent,
    )

    prepared-ready :
        (e : Error) (asked : Option Duration) (d : Duration)
        → i < svc.max_num_retries
        → reusable body a ≡ true
        → backoff svc a.random_range (i + 1) asked ≡ some d
        → prepared e asked ≡ next (at idempotent (i + 1), d)
    unfolding prepare_for_retry prepare_attempt
    prepared-ready e asked d h whole b = rw (
      add_one_small svc.overflow_checks i (omega (arith, m.retries)),
      prepare_for_retry,
      ge→ltb svc.max_num_retries (i + 1) (omega arith),
      whole,
      b,
    )

    settled :
        (r : Result R) (o : Step (AttemptOutcome R))
        → sent body a ≡ r
        → send_attempt (at idempotent i) r ≡ o
        → round svc body (at idempotent i) a ≡ settle svc body (at idempotent i) tracker a o
    unfolding round
    settled r o s e =
        ap (settle svc body (at idempotent i) tracker a) (ap (send_attempt (at idempotent i)) s ∙ e)

    retried :
        (e : Error)
        → i ≤ svc.max_num_retries
        → sent body a ≡ err e
        → IsRetried (at idempotent i) e
        → send_attempt {R = R} (at idempotent i) (err e) ≡ next (retry e (requested_delay e.cause))
        → Rounds svc body idempotent i a (round svc body (at idempotent i) a)
    unfolding settle resume
    retried e h s y c = elim (Bool-cases (ltb i svc.max_num_retries)) [
      | inr over ↦ final e s (inr (inl (ltb→ge i svc.max_num_retries over))) (
          settled _ _ s c
          ∙ ap (resume e (requested_delay e.cause)) (
              prepared-over e (requested_delay e.cause)
                (omega (arith, ltb→ge i svc.max_num_retries over))))
      | inl low ↦ elim (Bool-cases (reusable body a)) [
        | inr spent ↦ final e s (inr (inr spent)) (
            settled _ _ s c
            ∙ ap (resume e (requested_delay e.cause)) (
                prepared-spent e (requested_delay e.cause) (ltb→lt i svc.max_num_retries low)
                  spent))
        | inl whole ↦
            let within = ltb→lt i svc.max_num_retries low in
            let (d, b, j) = delayed svc a.random_range i e.cause m draws within in
            again e d s y within whole j (
              settled _ _ s c
              ∙ ap (resume e (requested_delay e.cause))
                  (prepared-ready e (requested_delay e.cause) d within whole b))
      ]
    ]

    -- A round ends with the response, with an error that is final, or it starts another round.
    pub round_lem :
        i ≤ svc.max_num_retries
        → Rounds svc body idempotent i a (round svc body (at idempotent i) a)
    unfolding settle send_attempt
    round_lem h = go (sent body a) refl
      where
        go :
            (r : Result R)
            → sent body a ≡ r
            → Rounds svc body idempotent i a (round svc body (at idempotent i) a)
        go (ok x) s = answered x s (settled (ok x) (next (success x)) s refl)
        go (err e) s = elim (send_attempt-Classified {R = R} (at idempotent i) e) [
          | inr (n, c) ↦ final e s (inl n) (settled (err e) (stop e) s c)
          | inl (y, c) ↦ retried e h s y c
        ]
