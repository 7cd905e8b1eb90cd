-- ===== src/Body/Delivered.antt =====
-- What the HTTP client makes of the parts that a writer has sent.
use conjure_rust_runtime.Prelude.{
  ◌≡◌, refl, sym, ap, ◌∙◌, Bool, true, false, List, [], ◌∷◌, ◌++◌, subst, append-nil,
}
use conjure_rust_runtime.Body.{
  Bytes, Frame, data_frame, trailers, RequestBodyPart, frame, done, Answer, Poll, failed, pending,
  ready, BodyWriter, new, finish,
}
use conjure_rust_runtime.Body.Request.{
  stream, streaming, Received, part, closed, waiting, Ending, complete, aborted, collect,
  poll_frame, receive,
}
use conjure_rust_runtime.Body.Request.Writing.{
  Outcome, written, not_polled, write_error, finish_error, dropped, write, after_body, finished,
}
use conjure_rust_runtime.Body.Written.{
  Write, run, data_of, data-append, AllFrames, contents, Ran, run-Ran, Finished, finish-Finished,
}

-- The channel keeps the order, loses nothing, and ends once the sender is dropped.
pub data Delivers : List RequestBodyPart → List Received → Type 0 where
  waits :
      (ps : List RequestBodyPart) (rs : List Received) → Delivers ps rs → Delivers ps (waiting ∷ rs)
  next :
      (p : RequestBodyPart) (ps : List RequestBodyPart) (rs : List Received)
      → Delivers ps rs
      → Delivers (p ∷ ps) (part p ∷ rs)
  last : (rs : List Received) → Delivers [] (closed ∷ rs)

abbrev pub data_in : List Frame → Bytes
data_in [] = []
data_in (data_frame b ∷ fs) = b ++ data_in fs
data_in (trailers ∷ fs) = data_in fs

frame-Delivers :
    (u : Bool) (f : Frame) (ps : List RequestBodyPart) (rs : List Received)
    → data_in (collect (stream false) rs).0 ≡ data_of ps
    → data_in (collect (stream u) (part (frame f) ∷ rs)).0 ≡ data_of (frame f ∷ ps)
unfolding collect poll_frame
frame-Delivers u (data_frame b) ps rs h = ap (λ c. b ++ c) h
frame-Delivers u trailers ps rs h = h

-- Frames alone end in an error.
frames-aborted :
    (ps : List RequestBodyPart) (rs : List Received) (u : Bool)
    → AllFrames ps
    → Delivers ps rs
    → ((collect (stream u) rs).1 ≡ aborted) × (data_in (collect (stream u) rs).0 ≡ data_of ps)
unfolding collect poll_frame
frames-aborted _ _ u f (last rs) = (refl, refl)
frames-aborted _ _ u f (waits ps rs d) = frames-aborted ps rs false f d
frames-aborted _ _ u f (next (frame g) ps rs d) =
    let (e, h) = frames-aborted ps rs false f d in (e, frame-Delivers u g ps rs h)
frames-aborted _ _ u f (next done ps rs d) = elim f [ ]

-- Frames, and the mark of the end after them.
abbrev Ends : List RequestBodyPart → Type 0
Ends [] = ⊥
Ends (frame f ∷ ps) = Ends ps
Ends (done ∷ ps) = ps ≡ []

frames-Ends : (fs : List RequestBodyPart) → AllFrames fs → Ends (fs ++ done ∷ [])
frames-Ends [] f = refl
frames-Ends (frame g ∷ fs) f = frames-Ends fs f
frames-Ends (done ∷ fs) f = elim f [ ]

data-Ends : (fs : List RequestBodyPart) → data_of (fs ++ done ∷ []) ≡ data_of fs
data-Ends fs = data-append fs (done ∷ []) ∙ append-nil (data_of fs)

Ends-complete :
    (ps : List RequestBodyPart) (rs : List Received) (u : Bool)
    → Ends ps
    → Delivers ps rs
    → ((collect (stream u) rs).1 ≡ complete) × (data_in (collect (stream u) rs).0 ≡ data_of ps)
unfolding collect poll_frame receive
Ends-complete _ _ u f (last rs) = elim f [ ]
Ends-complete _ _ u f (waits ps rs d) = Ends-complete ps rs false f d
Ends-complete _ _ u f (next (frame g) ps rs d) =
    let (e, h) = Ends-complete ps rs false f d in (e, frame-Delivers u g ps rs h)
Ends-complete _ _ u f (next done ps rs d) = (refl, sym (ap data_of f))

frames-complete :
    (fs : List RequestBodyPart) (rs : List Received)
    → AllFrames fs
    → Delivers (fs ++ done ∷ []) rs
    → ((collect (stream true) rs).1 ≡ complete)
      × (data_in (collect (stream true) rs).0 ≡ data_of fs)
frames-complete fs rs f d =
    let (e, h) = Ends-complete (fs ++ done ∷ []) rs true (frames-Ends fs f) d in
    (e, h ∙ data-Ends fs)

-- What the client gets of a body whose writer is through, by how that ended.
abbrev pub Seen : BodyWriter × Outcome → Bytes → List Frame × Ending → Type 0
Seen (w, written) bytes (fs, e) = (e ≡ complete) × (data_in fs ≡ bytes)
Seen (w, not_polled) bytes (fs, e) = (e ≡ aborted) × (data_in fs ≡ data_of w.sent)
Seen (w, write_error) bytes (fs, e) = (e ≡ aborted) × (data_in fs ≡ data_of w.sent)
Seen (w, finish_error) bytes (fs, e) = (e ≡ aborted) × (data_in fs ≡ data_of w.sent)
Seen (w, dropped) bytes (fs, e) = (e ≡ aborted) × (data_in fs ≡ data_of w.sent)

finished-Seen :
    (v : BodyWriter) (bytes : Bytes) (rs : List Received) (r : BodyWriter × Poll)
    → contents v ≡ bytes
    → Finished v r
    → Delivers (finished r).0.sent rs
    → Seen (finished r) bytes (collect (stream true) rs)
finished-Seen v bytes rs (u, ready) e (fs, f, s, h) d =
    let (c, x) = frames-complete fs rs f (subst (λ ps. Delivers ps rs) s d) in (c, x ∙ h ∙ e)
finished-Seen v bytes rs (u, failed) e f d = frames-aborted u.sent rs true f d
finished-Seen v bytes rs (u, pending) e f d = frames-aborted u.sent rs true f d

body-Seen :
    (fails : Bool) (a b : Answer) (rs : List Received) (r : BodyWriter × Poll × Bytes)
    → Ran new r
    → Delivers (after_body fails a b r).0.sent rs
    → Seen (after_body fails a b r) r.2 (collect (stream true) rs)
unfolding new
body-Seen false a b rs (w, ready, bytes) (f, e) d =
    finished-Seen w bytes rs (finish w a b) e (finish-Finished w a b f) d
body-Seen true a b rs (w, ready, bytes) (f, e) d = frames-aborted w.sent rs true f d
body-Seen false a b rs (w, failed, bytes) f d = frames-aborted w.sent rs true f d
body-Seen true a b rs (w, failed, bytes) f d = frames-aborted w.sent rs true f d
body-Seen false a b rs (w, pending, bytes) f d = frames-aborted w.sent rs true f d
body-Seen true a b rs (w, pending, bytes) f d = frames-aborted w.sent rs true f d

-- Whatever the channel answers to the writer and however it spreads the parts over the client's polls: if
-- `Writer::write` succeeds, then the client reads exactly the bytes that were written, and a complete body;
-- otherwise it reads the bytes that were sent, and an error.
pub write-collect :
    (polled : Bool) (cs : List Write) (fails : Bool) (a b : Answer) (rs : List Received)
    → Delivers (write streaming polled cs fails a b).0.sent rs
    → Seen (write streaming polled cs fails a b) (run cs new).2 (collect (stream true) rs)
unfolding write new
write-collect false cs fails a b rs d = frames-aborted [] rs true tt d
write-collect true cs fails a b rs d = body-Seen fails a b rs (run cs new) (run-Ran cs new tt) d
