-- ===== src/Body/Written.antt =====
-- What the writer has sent and holds is what was written, in order.
use conjure_rust_runtime.Prelude.{
  ◌≡◌, refl, sym, ap, ◌∙◌, Bool, true, false, List, [], ◌∷◌, ◌++◌, append_assoc, append-nil, length,
  ltb, if◌then◌else◌,
}
use conjure_rust_runtime.Body.{
  Bytes, data_frame, trailers, RequestBodyPart, frame, done, Answer, full, disconnected, refused,
  accepted, Poll, pending, failed, ready, BodyWriter, poll_flush, flush_buf, send_buf, poll_write,
  extend, and_send, write_bytes, finish, write_limit,
}

abbrev pub data_of : List RequestBodyPart → Bytes
data_of [] = []
data_of (frame (data_frame b) ∷ ps) = b ++ data_of ps
data_of (frame trailers ∷ ps) = data_of ps
data_of (done ∷ ps) = data_of ps

abbrev pub AllFrames : List RequestBodyPart → Type 0
AllFrames [] = Unit {0}
AllFrames (frame f ∷ ps) = AllFrames ps
AllFrames (done ∷ ps) = ⊥

pub data-append : (ps qs : List RequestBodyPart) → data_of (ps ++ qs) ≡ data_of ps ++ data_of qs
data-append [] qs = refl
data-append (frame (data_frame b) ∷ ps) qs =
    ap (λ c. b ++ c) (data-append ps qs) ∙ sym (append_assoc b (data_of ps) (data_of qs))
data-append (frame trailers ∷ ps) qs = data-append ps qs
data-append (done ∷ ps) qs = data-append ps qs

frames-append : (ps qs : List RequestBodyPart) → AllFrames ps → AllFrames qs → AllFrames (ps ++ qs)
frames-append [] qs a b = b
frames-append (frame f ∷ ps) qs a b = frames-append ps qs a b
frames-append (done ∷ ps) qs a b = a

-- What has been written: the parts that were sent, and the buffer.
abbrev pub contents : BodyWriter → Bytes
contents w = data_of w.sent ++ w.buf

-- After a call: only frames are sent, and unless the call failed, `bytes` are new.
abbrev pub Adds : BodyWriter → Bytes → BodyWriter × Poll → Type 0
Adds w bytes (v, failed) = AllFrames v.sent
Adds w bytes (v, pending) = AllFrames v.sent × (contents v ≡ contents w)
Adds w bytes (v, ready) = AllFrames v.sent × (contents v ≡ contents w ++ bytes)

sent_frame :
    (ps : List RequestBodyPart) (b : Bytes)
    → data_of (ps ++ frame (data_frame b) ∷ []) ++ [] ≡ data_of ps ++ b
sent_frame ps b =
    append-nil (data_of (ps ++ frame (data_frame b) ∷ []))
    ∙ data-append ps (frame (data_frame b) ∷ [])
    ∙ ap (λ c. data_of ps ++ c) (append-nil b)

-- A flush adds nothing, and leaves an empty buffer.
abbrev pub Flushes : BodyWriter → BodyWriter × Poll → Type 0
Flushes w (v, failed) = AllFrames v.sent
Flushes w (v, pending) = AllFrames v.sent × (contents v ≡ contents w)
Flushes w (v, ready) = AllFrames v.sent × (contents v ≡ contents w) × (v.buf ≡ [])

flush-Flushes : (w : BodyWriter) (a : Answer) → AllFrames w.sent → Flushes w (poll_flush w a)
unfolding poll_flush flush_buf send_buf
flush-Flushes w a f = go w.buf refl
  where
    go : (b : Bytes) → w.buf ≡ b → Flushes w (flush_buf w b a)
    go [] e = (f, refl, e)
    go (b ∷ bs) e = sending a
      where
        sending : (a : Answer) → Flushes w (send_buf w a)
        sending full = (f, refl)
        sending disconnected = f
        sending refused = f
        sending accepted = (
          frames-append w.sent (frame (data_frame w.buf) ∷ []) f tt,
          sent_frame w.sent w.buf,
          refl,
        )

pub data Write : Type 0 where
  writes : Bytes → Answer → Write
  flushes : Answer → Write
  writes_bytes : Bytes → Answer → Answer → Write

unfoldable pub step : BodyWriter → Write → BodyWriter × Poll
step w (writes bytes a) = poll_write w bytes a
step w (flushes a) = poll_flush w a
step w (writes_bytes bytes a b) = write_bytes w bytes a b

abbrev pub bytes_of : Write → Bytes
bytes_of (writes bytes a) = bytes
bytes_of (flushes a) = []
bytes_of (writes_bytes bytes a b) = bytes

extend-Adds :
    (w : BodyWriter) (bytes : Bytes) (r : BodyWriter × Poll)
    → Adds w [] r
    → Adds w bytes (extend bytes r)
extend-Adds w bytes (v, pending) h = h
extend-Adds w bytes (v, failed) h = h
extend-Adds w bytes (v, ready) (f, e) = (
  f,
  sym (append_assoc (data_of v.sent) v.buf bytes)
      ∙ ap (λ c. c ++ bytes) (e ∙ append-nil (contents w)),
)

Flushes-Adds : (w : BodyWriter) (r : BodyWriter × Poll) → Flushes w r → Adds w [] r
Flushes-Adds w (v, failed) h = h
Flushes-Adds w (v, pending) h = h
Flushes-Adds w (v, ready) (f, e, z) = (f, e ∙ sym (append-nil (contents w)))

write-Adds :
    (w : BodyWriter) (bytes : Bytes) (a : Answer)
    → AllFrames w.sent
    → Adds w bytes (poll_write w bytes a)
unfolding poll_write
write-Adds w bytes a f =
    extend-Adds w bytes (if ltb write_limit (length w.buf) then poll_flush w a else (w, ready))
      (go (ltb write_limit (length w.buf)))
  where
    go : (b : Bool) → Adds w [] (if b then poll_flush w a else (w, ready))
    go true = Flushes-Adds w (poll_flush w a) (flush-Flushes w a f)
    go false = (f, sym (append-nil (contents w)))

-- What follows a flush is sent after what the buffer held.
send-Adds :
    (w : BodyWriter) (bytes : Bytes) (b : Answer) (r : BodyWriter × Poll)
    → Flushes w r
    → Adds w bytes (and_send (frame (data_frame bytes)) b r)
send-Adds w bytes b (v, failed) h = h
send-Adds w bytes b (v, pending) h = h
send-Adds w bytes full (v, ready) (f, e, z) = (f, e)
send-Adds w bytes disconnected (v, ready) (f, e, z) = f
send-Adds w bytes refused (v, ready) (f, e, z) = f
send-Adds w bytes accepted (v, ready) (f, e, z) = (
  frames-append v.sent (frame (data_frame bytes) ∷ []) f tt,
  ap (λ c. data_of (v.sent ++ frame (data_frame bytes) ∷ []) ++ c) z
      ∙ sent_frame v.sent bytes
      ∙ ap (λ c. c ++ bytes)
          (sym (append-nil (data_of v.sent)) ∙ ap (λ c. data_of v.sent ++ c) (sym z) ∙ e),
)

pub write_bytes-Adds :
    (w : BodyWriter) (bytes : Bytes) (a b : Answer)
    → AllFrames w.sent
    → Adds w bytes (write_bytes w bytes a b)
unfolding write_bytes
write_bytes-Adds w bytes a b f = send-Adds w bytes b (poll_flush w a) (flush-Flushes w a f)

-- Each call that is ready has added its bytes to the contents; a pending one has added nothing.
pub step-Adds : (w : BodyWriter) (c : Write) → AllFrames w.sent → Adds w (bytes_of c) (step w c)
unfolding step
step-Adds w (writes bytes a) f = write-Adds w bytes a f
step-Adds w (flushes a) f = Flushes-Adds w (poll_flush w a) (flush-Flushes w a f)
step-Adds w (writes_bytes bytes a b) f = write_bytes-Adds w bytes a b f

-- The polls of the code that writes, up to the first error; a pending one is among them as often as it is made.
-- The bytes are those of the calls that were ready.
abbrev pub and_run :
    Bytes → BodyWriter × Poll → BodyWriter × Poll × Bytes → BodyWriter × Poll × Bytes
and_run bytes (v, failed) rest = (v, failed, [])
and_run bytes (v, pending) rest = rest
and_run bytes (v, ready) (u, p, later) = (u, p, bytes ++ later)

unfoldable pub run : List Write → BodyWriter → BodyWriter × Poll × Bytes
run [] w = (w, ready, [])
run (c ∷ cs) w = let r = step w c in and_run (bytes_of c) r (run cs r.0)

abbrev pub Ran : BodyWriter → BodyWriter × Poll × Bytes → Type 0
Ran w (v, ready, bytes) = AllFrames v.sent × (contents v ≡ contents w ++ bytes)
Ran w (v, pending, bytes) = AllFrames v.sent
Ran w (v, failed, bytes) = AllFrames v.sent

Ran-from :
    (w v : BodyWriter) (r : BodyWriter × Poll × Bytes) → contents v ≡ contents w → Ran v r → Ran w r
Ran-from w v (u, ready, bytes) e (f, h) = (f, h ∙ ap (λ c. c ++ bytes) e)
Ran-from w v (u, pending, bytes) e f = f
Ran-from w v (u, failed, bytes) e f = f

Ran-after :
    (w v : BodyWriter) (b : Bytes) (r : BodyWriter × Poll × Bytes)
    → contents v ≡ contents w ++ b
    → Ran v r
    → Ran w (r.0, r.1, b ++ r.2)
Ran-after w v b (u, ready, bytes) e (f, h) =
    (f, h ∙ ap (λ c. c ++ bytes) e ∙ append_assoc (contents w) b bytes)
Ran-after w v b (u, pending, bytes) e f = f
Ran-after w v b (u, failed, bytes) e f = f

-- When the code that writes is through without an error, what was sent and is held are the bytes it wrote.
pub run-Ran : (cs : List Write) (w : BodyWriter) → AllFrames w.sent → Ran w (run cs w)
unfolding run
run-Ran [] w f = (f, sym (append-nil (contents w)))
run-Ran (c ∷ cs) w f = go (step w c) (step-Adds w c f) (λ v g. run-Ran cs v g)
  where
    go :
        (r : BodyWriter × Poll)
        → Adds w (bytes_of c) r
        → ((v : BodyWriter) → AllFrames v.sent → Ran v (run cs v))
        → Ran w (and_run (bytes_of c) r (run cs r.0))
    go (v, failed) h later = h
    go (v, pending) (g, e) later = Ran-from w v (run cs v) e (later v g)
    go (v, ready) (g, e) later = Ran-after w v (bytes_of c) (run cs v) e (later v g)

-- A body that is finished has sent its contents, and the mark of the end after them.
abbrev pub Finished : BodyWriter → BodyWriter × Poll → Type 0
Finished w (v, ready) =
    (fs : List RequestBodyPart) × AllFrames fs
    × (v.sent ≡ fs ++ done ∷ [])
    × (data_of fs ≡ contents w)
Finished w (v, pending) = AllFrames v.sent
Finished w (v, failed) = AllFrames v.sent

send-Finished :
    (w : BodyWriter) (b : Answer) (r : BodyWriter × Poll)
    → Flushes w r
    → Finished w (and_send done b r)
send-Finished w b (v, failed) h = h
send-Finished w b (v, pending) (f, e) = f
send-Finished w full (v, ready) (f, e, z) = f
send-Finished w disconnected (v, ready) (f, e, z) = f
send-Finished w refused (v, ready) (f, e, z) = f
send-Finished w accepted (v, ready) (f, e, z) =
    (v.sent, f, refl, sym (append-nil (data_of v.sent)) ∙ ap (λ c. data_of v.sent ++ c) (sym z) ∙ e)

pub finish-Finished : (w : BodyWriter) (a b : Answer) → AllFrames w.sent → Finished w (finish w a b)
unfolding finish
finish-Finished w a b f = send-Finished w b (poll_flush w a) (flush-Flushes w a f)
