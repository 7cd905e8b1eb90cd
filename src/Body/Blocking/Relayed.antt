-- ===== src/Body/Blocking/Relayed.antt =====
-- Bytes written by blocking code reach the asynchronous writer.
use conjure_rust_runtime.Prelude.{
  ◌≡◌, refl, sym, ap, ◌∙◌, Bool, true, false, Option, none, some, List, [], ◌∷◌, ◌++◌, append_assoc,
  append-nil, length, ltb, if◌then◌else◌, ◌⊎◌, inl, inr,
}
use conjure_rust_runtime.Body.{Bytes}
use conjure_rust_runtime.Body.Blocking.{
  BodyPart, data_part, error, done, BodyWriter, new, write_limit, send, flush_buf, flush, write,
  and_send, write_bytes, finish, Write, writes, flushes, writes_bytes, bytes_of, step, and_run, run,
  WriteBody, close, stream_write,
}

-- The data before the mark of the end, if that comes before any error.
abbrev pub before_done : {E : Type 0} → List (BodyPart E) → Option Bytes
before_done [] = none
before_done (data_part b ∷ ps) = elim (before_done ps) [ none ↦ none | some bs ↦ some (b ++ bs) ]
before_done (error e ∷ ps) = none
before_done (done ∷ ps) = some []

module _ {E : Type 0} where
  abbrev pub data_of : List (BodyPart E) → Bytes
  data_of [] = []
  data_of (data_part b ∷ ps) = b ++ data_of ps
  data_of (error e ∷ ps) = data_of ps
  data_of (done ∷ ps) = data_of ps

  abbrev pub AllData : List (BodyPart E) → Type 0
  AllData [] = Unit {0}
  AllData (data_part b ∷ ps) = AllData ps
  AllData (error e ∷ ps) = ⊥
  AllData (done ∷ ps) = ⊥

  data-append :
      (ps : List (BodyPart E)) (b : Bytes) → data_of (ps ++ data_part b ∷ []) ≡ data_of ps ++ b
  data-append [] b = append-nil b
  data-append (data_part c ∷ ps) b =
      ap (λ z. c ++ z) (data-append ps b) ∙ sym (append_assoc c (data_of ps) b)
  data-append (error e ∷ ps) b = data-append ps b
  data-append (done ∷ ps) b = data-append ps b

  AllData-append :
      (ps : List (BodyPart E)) (b : Bytes) → AllData ps → AllData (ps ++ data_part b ∷ [])
  AllData-append [] b f = tt
  AllData-append (data_part c ∷ ps) b f = AllData-append ps b f
  AllData-append (error e ∷ ps) b f = f
  AllData-append (done ∷ ps) b f = f

  abbrev pub contents : BodyWriter E → Bytes
  contents w = data_of w.sent ++ w.buf

  -- After a call: only data is sent, and if the call succeeded, `bytes` are new.
  abbrev pub Adds : BodyWriter E → Bytes → BodyWriter E × Bool → Type 0
  Adds w bytes (v, false) = AllData v.sent
  Adds w bytes (v, true) = AllData v.sent × (contents v ≡ contents w ++ bytes)

  sent_data :
      (ps : List (BodyPart E)) (b : Bytes)
      → data_of (ps ++ data_part b ∷ []) ++ [] ≡ data_of ps ++ b
  sent_data ps b = append-nil (data_of (ps ++ data_part b ∷ [])) ∙ data-append ps b

  -- A flush adds nothing, and leaves an empty buffer.
  abbrev pub Flushes : BodyWriter E → BodyWriter E × Bool → Type 0
  Flushes w (v, false) = AllData v.sent
  Flushes w (v, true) = AllData v.sent × (contents v ≡ contents w) × (v.buf ≡ [])

  flush-Flushes : (w : BodyWriter E) (a : Bool) → AllData w.sent → Flushes w (flush w a)
  unfolding flush flush_buf send
  flush-Flushes w a f = go w.buf refl a
    where
      go : (b : Bytes) → w.buf ≡ b → (a : Bool) → Flushes w (flush_buf w b a)
      go [] e a = (f, refl, e)
      go (b ∷ bs) e false = f
      go (b ∷ bs) e true = (
        AllData-append w.sent (b ∷ bs) f,
        sent_data w.sent (b ∷ bs) ∙ ap (λ c. data_of w.sent ++ c) (sym e),
        refl,
      )

  Flushes-Adds :
      (w v : BodyWriter E) (bytes : Bytes) (r : BodyWriter E × Bool)
      → contents v ≡ contents w ++ bytes
      → Flushes v r
      → Adds w bytes r
  Flushes-Adds w v bytes (u, false) e h = h
  Flushes-Adds w v bytes (u, true) e (f, h, z) = (f, h ∙ e)

  write-Adds :
      (w : BodyWriter E) (bytes : Bytes) (a : Bool)
      → AllData w.sent
      → Adds w bytes (write w bytes a)
  unfolding write
  write-Adds w bytes a f = go (ltb write_limit (length bytes))
    where
      e : data_of w.sent ++ (w.buf ++ bytes) ≡ contents w ++ bytes
      e = sym (append_assoc (data_of w.sent) w.buf bytes)

      go :
          (b : Bool)
          → Adds w bytes (
              if b
              then flush (record w { buf = w.buf ++ bytes }) a
              else (record w { buf = w.buf ++ bytes }, true))
      go true =
          Flushes-Adds w (record w { buf = w.buf ++ bytes }) bytes
            (flush (record w { buf = w.buf ++ bytes }) a) e
            (flush-Flushes (record w { buf = w.buf ++ bytes }) a f)
      go false = (f, e)

  send-Adds :
      (w : BodyWriter E) (bytes : Bytes) (b : Bool) (r : BodyWriter E × Bool)
      → Flushes w r
      → Adds w bytes (and_send (data_part bytes) b r)
  unfolding send
  send-Adds w bytes b (v, false) h = h
  send-Adds w bytes false (v, true) (f, e, z) = f
  send-Adds w bytes true (v, true) (f, e, z) = (
    AllData-append v.sent bytes f,
    ap (λ c. data_of (v.sent ++ data_part bytes ∷ []) ++ c) z
        ∙ sent_data v.sent bytes
        ∙ ap (λ c. c ++ bytes)
            (sym (append-nil (data_of v.sent)) ∙ ap (λ c. data_of v.sent ++ c) (sym z) ∙ e),
  )

  step-Adds : (w : BodyWriter E) (c : Write) → AllData w.sent → Adds w (bytes_of c) (step w c)
  unfolding step write_bytes
  step-Adds w (writes bytes a) f = write-Adds w bytes a f
  step-Adds w (flushes a) f =
      Flushes-Adds w w [] (flush w a) (sym (append-nil (contents w))) (flush-Flushes w a f)
  step-Adds w (writes_bytes bytes a b) f = send-Adds w bytes b (flush w a) (flush-Flushes w a f)

  abbrev Ran : BodyWriter E → BodyWriter E × Bool × Bytes → Type 0
  Ran w (v, false, bytes) = AllData v.sent
  Ran w (v, true, bytes) = AllData v.sent × (contents v ≡ contents w ++ bytes)

  and_run-Ran :
      (w v : BodyWriter E) (b : Bytes) (r : BodyWriter E × Bool × Bytes)
      → contents v ≡ contents w ++ b
      → Ran v r
      → Ran w (and_run b (v, true) r)
  and_run-Ran w v b (u, true, bytes) e (f, h) =
      (f, h ∙ ap (λ c. c ++ bytes) e ∙ append_assoc (contents w) b bytes)
  and_run-Ran w v b (u, false, bytes) e f = f

  run-Ran : (cs : List Write) (w : BodyWriter E) → AllData w.sent → Ran w (run cs w)
  unfolding run
  run-Ran [] w f = (f, sym (append-nil (contents w)))
  run-Ran (c ∷ cs) w f = go (step w c) (step-Adds w c f) (λ v. run-Ran cs v)
    where
      go :
          (r : BodyWriter E × Bool)
          → Adds w (bytes_of c) r
          → ((v : BodyWriter E) → AllData v.sent → Ran v (run cs v))
          → Ran w (and_run (bytes_of c) r (run cs r.0))
      go (v, false) h later = h
      go (v, true) (g, e) later = and_run-Ran w v (bytes_of c) (run cs v) e (later v g)

  data_before :
      (ps : List (BodyPart E)) (p : BodyPart E)
      → AllData ps
      → before_done (p ∷ []) ≡ none
      → before_done (ps ++ p ∷ []) ≡ none
  data_before [] p f e = e
  data_before (data_part b ∷ ps) p f e = rw (data_before ps p f e, before_done) refl
  data_before (error x ∷ ps) p f e = refl
  data_before (done ∷ ps) p f e = elim f [ ]

  data-done :
      (ps : List (BodyPart E)) → AllData ps → before_done (ps ++ done ∷ []) ≡ some (data_of ps)
  data-done [] f = refl
  data-done (data_part b ∷ ps) f = rw (data-done ps f, before_done) refl
  data-done (error x ∷ ps) f = elim f [ ]
  data-done (done ∷ ps) f = elim f [ ]

  data_only : (ps : List (BodyPart E)) → AllData ps → before_done ps ≡ none
  data_only [] f = refl
  data_only (data_part b ∷ ps) f = rw (data_only ps f, before_done) refl
  data_only (error x ∷ ps) f = refl
  data_only (done ∷ ps) f = elim f [ ]

  -- An error is sent, or it is not: either way there is no mark of the end.
  sent_error :
      (e : E) (w : BodyWriter E) (a : Bool)
      → AllData w.sent
      → before_done (send (error e) w a).0.sent ≡ none
  unfolding send
  sent_error e w true f = data_before w.sent (error e) f refl
  sent_error e w false f = data_only w.sent f

  -- Either there is no mark of the end, or the body ended without an error and its bytes are before the mark.
  abbrev pub Marked : BodyWriter E × Bool × Bytes → Option E → List (BodyPart E) → Type 0
  Marked r own ps =
      (before_done ps ≡ none) ⊎ ((r.1 ≡ true) × (own ≡ none) × (before_done ps ≡ some r.2))

  finish-Marked :
      (w v : BodyWriter E) (bytes : Bytes) (b : Bool) (r : BodyWriter E × Bool)
      → contents w ≡ bytes
      → Flushes w r
      → Marked (v, true, bytes) none (and_send done b r).0.sent
  unfolding send
  finish-Marked w v bytes b (u, false) e f = inl (data_only u.sent f)
  finish-Marked w v bytes false (u, true) e (f, h, z) = inl (data_only u.sent f)
  finish-Marked w v bytes true (u, true) e (f, h, z) = inr (
    refl,
    refl,
    data-done u.sent f
        ∙ ap some
            (sym (append-nil (data_of u.sent)) ∙ ap (λ c. data_of u.sent ++ c) (sym z) ∙ h ∙ e),
  )

  close-Marked :
      (calls : List Write) (own : Option E) (io : E) (a b : Bool) (r : BodyWriter E × Bool × Bytes)
      → Ran new r
      → Marked r own
          (close (record { calls = calls; own_error = own; call_error = io }) a b r).0.sent
  unfolding new finish
  close-Marked calls own io a b (w, false, bytes) f = inl (sent_error io w b f)
  close-Marked calls none io a b (w, true, bytes) (f, e) =
      finish-Marked w w bytes b (flush w a) e (flush-Flushes w a f)
  close-Marked calls (some x) io a b (w, true, bytes) (f, e) = inl (sent_error x w b f)

  pub stream_write-Marked :
      (body : WriteBody E) (a b : Bool)
      → Marked (run body.calls new) body.own_error (stream_write body a b).0.sent
  unfolding stream_write new
  stream_write-Marked body a b =
      close-Marked body.calls body.own_error body.call_error a b (run body.calls new)
        (run-Ran body.calls new tt)
