-- ===== src/Retry/Sent.antt =====
-- What an attempt comes to, and whether its body can be sent again.
use conjure_rust_runtime.Prelude.{
  ◌≡◌, refl, sym, ◌∙◌, Bool, true, false, false≢true, inl, inr, if◌then◌else◌, arith,
}
use conjure_rust_runtime.Errors.{Error, Result, ok, err}
use conjure_rust_runtime.Retry.Request.{
  RequestBody, empty, fixed, streaming, Attempt, write, write_body, ResetTracker,
}
use conjure_rust_runtime.Retry.Send.{send_raw}
use conjure_rust_runtime.Retry.Backoff.{body_ready}
use conjure_rust_runtime.Retry.Loop.{fresh_tracker}
use conjure_rust_runtime.Retry.Classified.{InChain, deconflict_errors_lem}
use conjure_rust_runtime.Retry.Round.{sent, reusable}

module _ {R : Type 0} where
  -- The body is one that is written as it is sent, and the client asked for it.
  abbrev pub Written : RequestBody → Attempt R → Type 0
  Written body a = (body ≡ streaming) × (a.polled ≡ true)

  abbrev pub BodyFails : RequestBody → Attempt R → Error → Type 0
  BodyFails body a b = Written body a × (a.written ≡ err b)

  -- What an attempt should come to: a response, whatever became of the body; the client's error; or the error of the body
  -- if that is why the client failed.
  pub data Sent (body : RequestBody) (a : Attempt R) : Result R → Type 0 where
    responded : (x : R) → a.response ≡ ok x → Sent body a (ok x)
    refused :
        (e : Error)
        → a.response ≡ err e
        → ((b : Error) → BodyFails body a b → ¬ InChain e.cause)
        → Sent body a (err e)
    aborted :
        (e b : Error)
        → a.response ≡ err e
        → BodyFails body a b
        → InChain e.cause
        → Sent body a (err b)

  -- A body that has been written can be sent again only if it has been reset.
  abbrev pub Reusable : RequestBody → Attempt R → Type 0
  Reusable body a = Written body a → a.resets ≡ true

  abbrev pub Spent : RequestBody → Attempt R → Type 0
  Spent body a = Written body a × (a.resets ≡ false)

  module _ (body : RequestBody) (a : Attempt R) where
    unwritten-Sent :
        (r : Result R)
        → a.response ≡ r
        → ((b : Error) → ¬ BodyFails body a b)
        → Sent body a (send_raw (ok tt) r)
    unfolding send_raw
    unwritten-Sent (ok x) h none = responded x h
    unwritten-Sent (err e) h none = refused e h (λ b f. absurd (none b f))

    written-Sent :
        (w : Result (Unit {0}))
        → (r : Result R) → Written body a
        → a.written ≡ w
        → a.response ≡ r
        → Sent body a (send_raw w r)
    unfolding send_raw
    written-Sent w (ok x) h f g = responded x g
    written-Sent (ok u) (err e) h f g = refused e g (λ b x. cc (x.1, f))
    written-Sent (err b) (err e) h f g = elim (deconflict_errors_lem b e) [
      | inl (c, s) ↦ rw s (aborted e b g (h, f) c)
      | inr (c, s) ↦ rw s (refused e g (λ b' x. c))
    ]

  -- An attempt comes to what it should.
  pub sent-Sent : (body : RequestBody) (a : Attempt R) → Sent body a (sent body a)
  unfolding write
  sent-Sent empty a = unwritten-Sent empty a a.response refl (λ b f. cc (f.0.0))
  sent-Sent fixed a = unwritten-Sent fixed a a.response refl (λ b f. cc (f.0.0))
  sent-Sent streaming a = go a.polled refl
    where
      go :
          (p : Bool)
          → a.polled ≡ p
          → Sent streaming a (
              let r : ResetTracker × Result (Unit {0}) =
                if p then (write_body fresh_tracker, a.written) else (fresh_tracker, ok tt) in
              send_raw r.1 a.response)
      go true e = written-Sent streaming a a.written a.response (refl, e) refl refl
      go false e = unwritten-Sent streaming a a.response refl (λ b f. false≢true (sym e ∙ f.0.1))

  pub reusable-Reusable :
      (body : RequestBody) (a : Attempt R) → reusable body a ≡ true → Reusable body a
  unfolding write body_ready
  reusable-Reusable empty a h w = cc (w.0)
  reusable-Reusable fixed a h w = cc (w.0)
  reusable-Reusable streaming a h w = ground (arith, w.1)

  pub reusable-Spent : (body : RequestBody) (a : Attempt R) → reusable body a ≡ false → Spent body a
  unfolding write body_ready
  reusable-Spent empty a h = cc
  reusable-Spent fixed a h = cc
  reusable-Spent streaming a h = ground arith
