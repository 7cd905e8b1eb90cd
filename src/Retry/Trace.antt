-- ===== src/Retry/Trace.antt =====
-- A whole call: the loop ends, and every attempt that was made is accounted for.
use conjure_rust_runtime.Prelude.{
  ℕ, zero, suc, ◌+◌, ◌≤◌, ◌<◌, ◌≡◌, ◌⊎◌, inl, inr, refl, Bool, length, arith, subst,
}
use conjure_rust_runtime.Errors.{Duration, Error, Result, ok, err}
use conjure_rust_runtime.Retry.Request.{RetryService, RequestBody, Attempt, is_idempotent}
use conjure_rust_runtime.Retry.Loop.{response, failure, Run, ended, slept, call_loop, call}
use conjure_rust_runtime.Retry.Classified.{IsRetried}
use conjure_rust_runtime.Retry.Jitter.{IsModest}
use conjure_rust_runtime.Retry.Round.{sent, at, Delay, IsFinal, answered, final, again, round_lem}
use conjure_rust_runtime.Retry.Sent.{
  Sent, Reusable, Spent, sent-Sent, reusable-Reusable, reusable-Spent,
}

module _ {R : Type 0} where
  -- Why an error ends a call after the attempt `i`: it may not be retried, there are no retries left, or the body has been
  -- written and cannot be reset.
  abbrev pub Stops : RetryService → RequestBody → Bool → ℕ → Attempt R → Error → Type 0
  Stops svc body idempotent i a e =
      (¬ IsRetried (at idempotent i) e) ⊎ (svc.max_num_retries ≤ i) ⊎ Spent body a

  final-Stops :
      (svc : RetryService) (body : RequestBody) (idempotent : Bool) (i : ℕ) (a : Attempt R)
      (e : Error)
      → IsFinal svc body idempotent i a e
      → Stops svc body idempotent i a e
  final-Stops svc body idempotent i a e (inl n) = inl n
  final-Stops svc body idempotent i a e (inr (inl h)) = inr (inl h)
  final-Stops svc body idempotent i a e (inr (inr h)) = inr (inr (reusable-Spent body a h))

  -- What a call is meant to do from attempt `i` on. It returns the first response; it sends the
  -- request again only after an error that may be retried, while retries are left and the body has
  -- not been written or has been reset, after the delay that belongs to the attempt; and it returns the last error as
  -- soon as that error is final.
  pub data Trace (svc : RetryService) (body : RequestBody) (idempotent : Bool)
      (attempts : ℕ → Attempt R) : ℕ → Run R → Type 0 where
    succeeded :
        {i : ℕ} (x : R)
        → Sent body (attempts i) (ok x)
        → Trace svc body idempotent attempts i (ended (response x))
    gave_up :
        {i : ℕ} (e : Error)
        → Sent body (attempts i) (err e)
        → Stops svc body idempotent i (attempts i) e
        → Trace svc body idempotent attempts i (ended (failure e))
    retried :
        {i : ℕ} {r : Run R} (e : Error) (d : Duration)
        → Sent body (attempts i) (err e)
        → IsRetried (at idempotent i) e
        → i < svc.max_num_retries
        → Reusable body (attempts i)
        → Delay svc i e.cause d
        → Trace svc body idempotent attempts (suc i) r
        → Trace svc body idempotent attempts i (slept d r)

  -- The random numbers that the environment draws are in range.
  abbrev pub Draws : (ℕ → Attempt R) → Type 0
  Draws attempts = (i max : ℕ) → 0 < max → (attempts i).random_range max < max

  module _ (svc : RetryService) (body : RequestBody) (idempotent : Bool) (attempts : ℕ → Attempt R)
      (m : IsModest svc) (draws : Draws attempts) where
    sent_as : (r : Result R) (i : ℕ) → sent body (attempts i) ≡ r → Sent body (attempts i) r
    sent_as r i e = subst (Sent body (attempts i)) e (sent-Sent body (attempts i))

    call_loop-Trace :
        (fuel i : ℕ)
        → i ≤ svc.max_num_retries
        → svc.max_num_retries < i + fuel
        → Trace svc body idempotent attempts i
            (call_loop svc body attempts fuel i (at idempotent i))
    unfolding call_loop
    call_loop-Trace zero i h f = absurd (omega arith)
    call_loop-Trace (suc fuel) i h f =
        elim (round_lem svc body idempotent i (attempts i) m (draws i) h) [
          | answered x s r ↦ rw (r, call_loop) (succeeded x (sent_as (ok x) i s))
          | final e s why r ↦
              rw (r, call_loop)
                (gave_up e (sent_as (err e) i s)
                  (final-Stops svc body idempotent i (attempts i) e why))
          | again e d s y low whole j r ↦
              rw (r, call_loop)
                (retried e d (sent_as (err e) i s) y low (reusable-Reusable body (attempts i) whole)
                  j
                  (subst
                    (λ n.
                      Trace svc body idempotent attempts (suc i)
                        (call_loop svc body attempts fuel (suc i) (at idempotent n)))
                    (omega arith) (call_loop-Trace fuel (suc i) low (omega arith))))
        ]

  -- With at most 32 retries, a slot size that can be doubled 31 times, and random numbers in range, a call ends, whatever
  -- the inner service answers: more fuel than retries is enough. It returns the first response, whatever became of the
  -- body; it sends the request again only after an error that may be retried, while retries are left, and if the body has
  -- not been written or has been reset, and it waits before that as long as the server asked, or else a time below the
  -- exponential bound; and it returns the first error for which this does not hold: the body's own, if it is why the
  -- request failed.
  pub call-Trace :
      (svc : RetryService) (method_is_idempotent : Bool) (body : RequestBody)
      (attempts : ℕ → Attempt R) (fuel : ℕ)
      → IsModest svc
      → Draws attempts
      → svc.max_num_retries < fuel
      → Trace svc body
          (is_idempotent svc.idempotency method_is_idempotent)
          attempts
          0
          (call svc method_is_idempotent body attempts fuel)
  unfolding call
  call-Trace svc method body attempts fuel m draws f =
      call_loop-Trace svc body (is_idempotent svc.idempotency method) attempts m draws fuel 0
        (omega arith) (omega arith)

  Trace-sends :
      {svc : RetryService} {body : RequestBody} {idempotent : Bool} {attempts : ℕ → Attempt R}
      {i : ℕ} {r : Run R}
      → Trace svc body idempotent attempts i r
      → i ≤ svc.max_num_retries
      → (i + r.sends ≤ svc.max_num_retries + 1) × (length r.sleeps + 1 ≡ r.sends)
  Trace-sends (succeeded x s) h = (omega arith, refl)
  Trace-sends (gave_up e s why) h = (omega arith, refl)
  Trace-sends (retried e d s y low whole j t) h =
      let (bound, count) = Trace-sends t low in (omega (arith, bound), omega (arith, count))

  -- A request is sent at most once more than there are retries, and there is one pause between any
  -- two attempts.
  call-sends :
      (svc : RetryService) (method_is_idempotent : Bool) (body : RequestBody)
      (attempts : ℕ → Attempt R) (fuel : ℕ)
      → IsModest svc
      → Draws attempts
      → svc.max_num_retries < fuel
      → let r = call svc method_is_idempotent body attempts fuel in
        (r.sends ≤ svc.max_num_retries + 1) × (length r.sleeps + 1 ≡ r.sends)
  call-sends svc method body attempts fuel m draws f =
      let (bound, count) =
        Trace-sends (call-Trace svc method body attempts fuel m draws f) (omega arith) in
      (omega (arith, bound), count)
