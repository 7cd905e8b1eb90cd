-- ===== src/Body/Blocking.antt =====
-- conjure-runtime/src/blocking/body.rs: a body written by blocking code. It runs on the caller's thread, and a shim
-- passes what it writes to the asynchronous `BodyWriter`.
--
-- The channels are parameters: whether they take a part, since a send blocks until they do or fail. `sent` logs the
-- parts that were taken.
use conjure_rust_runtime.Prelude.{
  ℕ, Bool, true, false, Option, none, some, List, [], ◌∷◌, ◌++◌, length, ltb, if◌then◌else◌,
}
use conjure_rust_runtime.Body.{Bytes, Answer, Poll, pending, failed, ready}
use conjure_rust_runtime.Body
pub mod Relayed
pub mod Shim
pub mod Unsent

-- `E` is `conjure_error::Error`.
pub data BodyPart (E : Type 0) : Type 0 where
  data_part : Bytes → BodyPart E
  error : E → BodyPart E
  done : BodyPart E

pub record BodyWriter (E : Type 0) : Type 0 where
  pub sent : List (BodyPart E)
  pub buf : Bytes

unfoldable pub new : {E : Type 0} → BodyWriter E
new = record { sent = []; buf = [] }

abbrev pub write_limit : ℕ
write_limit = 4906

unfoldable pub send : {E : Type 0} → BodyPart E → BodyWriter E → Bool → BodyWriter E × Bool
send part w true = (record w { sent = w.sent ++ part ∷ [] }, true)
send part w false = (w, false)

unfoldable pub flush_buf : {E : Type 0} → BodyWriter E → Bytes → Bool → BodyWriter E × Bool
flush_buf w [] a = (w, true)
flush_buf w (b ∷ bs) a = send (data_part (b ∷ bs)) (record w { buf = [] }) a

unfoldable pub flush : {E : Type 0} → BodyWriter E → Bool → BodyWriter E × Bool
flush w a = flush_buf w w.buf a

-- The bytes are taken into the buffer first; the test is of their own length.
unfoldable pub write : {E : Type 0} → BodyWriter E → Bytes → Bool → BodyWriter E × Bool
write {E = E} w bytes a =
    let v : BodyWriter E = record w { buf = w.buf ++ bytes } in
    if ltb write_limit (length bytes) then flush v a else (v, true)

abbrev pub and_send : {E : Type 0} → BodyPart E → Bool → BodyWriter E × Bool → BodyWriter E × Bool
and_send part b (w, true) = send part w b
and_send part b (w, false) = (w, false)

unfoldable pub write_bytes : {E : Type 0} → BodyWriter E → Bytes → Bool → Bool → BodyWriter E × Bool
write_bytes w bytes a b = and_send (data_part bytes) b (flush w a)

unfoldable pub finish : {E : Type 0} → BodyWriter E → Bool → Bool → BodyWriter E × Bool
finish w a b = and_send done b (flush w a)

-- The calls of the code that writes, with what the channel answers to each.
pub data Write : Type 0 where
  writes : Bytes → Bool → Write
  flushes : Bool → Write
  writes_bytes : Bytes → Bool → Bool → Write

abbrev pub bytes_of : Write → Bytes
bytes_of (writes bytes a) = bytes
bytes_of (flushes a) = []
bytes_of (writes_bytes bytes a b) = bytes

unfoldable pub step : {E : Type 0} → BodyWriter E → Write → BodyWriter E × Bool
step w (writes bytes a) = write w bytes a
step w (flushes a) = flush w a
step w (writes_bytes bytes a b) = write_bytes w bytes a b

abbrev pub and_run :
    {E : Type 0}
    → Bytes
    → BodyWriter E × Bool
    → BodyWriter E × Bool × Bytes
    → BodyWriter E × Bool × Bytes
and_run bytes (v, false) rest = (v, false, [])
and_run bytes (v, true) (u, p, later) = (u, p, bytes ++ later)

-- They go on up to the first error. The bytes are those of the calls that succeeded.
unfoldable pub run : {E : Type 0} → List Write → BodyWriter E → BodyWriter E × Bool × Bytes
run [] w = (w, true, [])
run (c ∷ cs) w = let r = step w c in and_run (bytes_of c) r (run cs r.0)

-- A `WriteBody`: its calls, and the error it returns: its own, if any, or else one made of a call's.
pub record WriteBody (E : Type 0) : Type 0 where
  pub calls : List Write
  pub own_error : Option E
  pub call_error : E

abbrev pub close :
    {E : Type 0} → WriteBody E → Bool → Bool → BodyWriter E × Bool × Bytes → BodyWriter E × Bool
close body a b (w, false, bytes) = send (error body.call_error) w b
close body a b (w, true, bytes) = elim body.own_error [
  | none ↦ finish w a b
  | some e ↦ send (error e) w b
]

-- `BodyStreamer::stream` for a request to write.
unfoldable pub stream_write : {E : Type 0} → WriteBody E → Bool → Bool → BodyWriter E × Bool
stream_write body a b = close body a b (run body.calls new)

-- The result of `BodyWriterShim::write_body`. `dropped` is no result: the future ends first.
pub data ShimResult (E : Type 0) : Type 0 where
  ok aborted io_error dropped : ShimResult E
  body_error : E → ShimResult E

abbrev pub and_relay :
    {E : Type 0}
    → Body.BodyWriter × Poll
    → Body.BodyWriter × ShimResult E
    → Body.BodyWriter × ShimResult E
and_relay (w, ready) rest = rest
and_relay (w, failed) rest = (w, io_error)
and_relay (w, pending) rest = (w, dropped)

-- Its loop, over the parts it receives, each with what the asynchronous channel answers in `write_bytes`.
unfoldable pub relay :
    {E : Type 0}
    → List (BodyPart E × Answer × Answer)
    → Body.BodyWriter
    → Body.BodyWriter × ShimResult E
relay [] w = (w, aborted)
relay ((data_part bytes, a, b) ∷ ps) w =
    let r = Body.write_bytes w bytes a b in and_relay r (relay ps r.0)
relay ((error e, a, b) ∷ ps) w = (w, body_error e)
relay ((done, a, b) ∷ ps) w = (w, ok)
