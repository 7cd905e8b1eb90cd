-- ===== src/Body/Blocking/Shim.antt =====
-- The shim between the blocking code and the asynchronous writer.
use conjure_rust_runtime.Prelude.{
  ◌≡◌, sym, ap, subst, ◌∙◌, Bool, true, Option, none, some, List, [], ◌∷◌, ◌++◌, map, append_assoc,
  append-nil, inl, inr,
}
use conjure_rust_runtime.Body.{Bytes, Answer, Poll, pending, failed, ready}
use conjure_rust_runtime.Body
use conjure_rust_runtime.Body.Written
use conjure_rust_runtime.Body.Blocking.{
  BodyPart, data_part, error, done, new, run, WriteBody, stream_write, ShimResult, ok, aborted,
  io_error, dropped, body_error, and_relay, relay,
}
use conjure_rust_runtime.Body.Blocking.Relayed.{before_done, Marked, stream_write-Marked}

abbrev pub received : {E : Type 0} → BodyPart E × Answer × Answer → BodyPart E
received (p, a, b) = p

-- What a relay that succeeded has written.
abbrev Relayed :
    {E : Type 0} → Body.BodyWriter → Option Bytes → Body.BodyWriter × ShimResult E → Type 0
Relayed w none (v, ok) = ⊥
Relayed w (some bytes) (v, ok) = Written.contents v ≡ Written.contents w ++ bytes
Relayed w o (v, aborted) = Unit
Relayed w o (v, io_error) = Unit
Relayed w o (v, dropped) = Unit
Relayed w o (v, body_error e) = Unit

module _ {E : Type 0} where
  Relayed-after :
      (w u : Body.BodyWriter) (b : Bytes) (o : Option Bytes) (r : Body.BodyWriter × ShimResult E)
      → Written.contents u ≡ Written.contents w ++ b
      → Relayed u o r
      → Relayed w (elim o [ none ↦ none | some bs ↦ some (b ++ bs) ]) r
  Relayed-after w u b none (v, ok) e h = h
  Relayed-after w u b (some bs) (v, ok) e h =
      h ∙ ap (λ c. c ++ bs) e ∙ append_assoc (Written.contents w) b bs
  Relayed-after w u b none (v, aborted) e h = tt
  Relayed-after w u b (some bs) (v, aborted) e h = tt
  Relayed-after w u b none (v, io_error) e h = tt
  Relayed-after w u b (some bs) (v, io_error) e h = tt
  Relayed-after w u b none (v, dropped) e h = tt
  Relayed-after w u b (some bs) (v, dropped) e h = tt
  Relayed-after w u b none (v, body_error x) e h = tt
  Relayed-after w u b (some bs) (v, body_error x) e h = tt

  relay-Relayed :
      (ps : List (BodyPart E × Answer × Answer)) (w : Body.BodyWriter)
      → Written.AllFrames w.sent
      → Relayed w (before_done (map received ps)) (relay ps w)
  unfolding relay
  relay-Relayed [] w f = tt
  relay-Relayed ((data_part bytes, a, b) ∷ ps) w f =
      go (Body.write_bytes w bytes a b) (Written.write_bytes-Adds w bytes a b f)
        (λ v. relay-Relayed ps v)
    where
      go :
          (r : Body.BodyWriter × Poll)
          → Written.Adds w bytes r
          → ((v : Body.BodyWriter)
              → Written.AllFrames v.sent
              → Relayed v (before_done (map received ps)) (relay ps v))
          → Relayed w
              (before_done (map received ((data_part bytes, a, b) ∷ ps)))
              (and_relay r (relay ps r.0))
      go (v, failed) h later = tt
      go (v, pending) h later = tt
      go (v, ready) (g, e) later =
          Relayed-after w v bytes (before_done (map received ps)) (relay ps v) e (later v g)
  relay-Relayed ((error e, a, b) ∷ ps) w f = tt
  relay-Relayed ((done, a, b) ∷ ps) w f = sym (append-nil (Written.contents w))

  -- If the shim's `write_body` succeeds on what `stream` sent it, then the blocking code ended without an error, and
  -- the asynchronous writer has been given exactly its bytes, in order.
  pub relay-stream_write :
      (body : WriteBody E) (a b : Bool) (ps : List (BodyPart E × Answer × Answer))
      (w v : Body.BodyWriter)
      → Written.AllFrames w.sent
      → map received ps ≡ (stream_write body a b).0.sent
      → relay ps w ≡ (v, ok)
      → ((run {E = E} body.calls new).1 ≡ true)
        × (body.own_error ≡ none)
        × (Written.contents v ≡ Written.contents w ++ (run {E = E} body.calls new).2)
  relay-stream_write body a b ps w v f s h = go (stream_write-Marked body a b)
    where
      given : Relayed {E = E} w (before_done (stream_write body a b).0.sent) (v, ok)
      given =
          subst (λ r. Relayed {E = E} w (before_done (stream_write body a b).0.sent) r) h
            (subst (λ qs. Relayed {E = E} w (before_done qs) (relay ps w)) s (relay-Relayed ps w f))

      go :
          Marked (run {E = E} body.calls new) body.own_error (stream_write body a b).0.sent
          → ((run {E = E} body.calls new).1 ≡ true)
            × (body.own_error ≡ none)
            × (Written.contents v ≡ Written.contents w ++ (run {E = E} body.calls new).2)
      go (inl e) = elim (subst (λ o. Relayed {E = E} w o (v, ok)) e given) [ ]
      go (inr (r, o, e)) = (r, o, subst (λ o. Relayed {E = E} w o (v, ok)) e given)
