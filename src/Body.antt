-- ===== src/Body.antt =====
-- conjure-runtime/src/body.rs, the writer: how a request's body gets from the code that writes it
-- to the HTTP client.
--
-- The channel in between is a parameter: for each poll it answers, and `sent` logs what it took. A
-- future that is pending is polled again from its start, which is what it does by itself, since an empty
-- buffer is flushed at once.
use conjure_rust_runtime.Prelude.{
  ℕ, ◌+◌, Bool, true, false, Option, none, some, List, [], ◌∷◌, ◌++◌, length, ltb, if◌then◌else◌,
}
pub mod Request
pub mod Response
pub mod Written
pub mod Delivered
pub mod Reads
pub mod Buffered
pub mod Blocking
mod Examples

abbrev pub Bytes : Type 0
Bytes = List ℕ

-- A `Frame`: data, or trailers.
pub data Frame : Type 0 where
  data_frame : Bytes → Frame
  trailers : Frame

pub data RequestBodyPart : Type 0 where
  frame : Frame → RequestBodyPart
  done : RequestBodyPart

-- What the channel answers: `poll_ready` is pending or fails, or `start_send` fails, or takes the part.
pub data Answer : Type 0 where
  full disconnected refused accepted : Answer

pub data Poll : Type 0 where
  pending failed ready : Poll

pub record BodyWriter : Type 0 where
  pub sent : List RequestBodyPart
  pub buf : Bytes

unfoldable pub new : BodyWriter
new = record { sent = []; buf = [] }

abbrev pub write_limit : ℕ
write_limit = 4096

-- The part is taken from the buffer before it is sent, so a refused one is lost.
unfoldable pub send_buf : BodyWriter → Answer → BodyWriter × Poll
send_buf w full = (w, pending)
send_buf w disconnected = (w, failed)
send_buf w refused = (record w { buf = [] }, failed)
send_buf w accepted = (record { sent = w.sent ++ frame (data_frame w.buf) ∷ []; buf = [] }, ready)

unfoldable pub flush_buf : BodyWriter → Bytes → Answer → BodyWriter × Poll
flush_buf w [] a = (w, ready)
flush_buf w (b ∷ bs) a = send_buf w a

unfoldable pub poll_flush : BodyWriter → Answer → BodyWriter × Poll
poll_flush w a = flush_buf w w.buf a

abbrev pub extend : Bytes → BodyWriter × Poll → BodyWriter × Poll
extend bytes (w, pending) = (w, pending)
extend bytes (w, failed) = (w, failed)
extend bytes (w, ready) = (record w { buf = w.buf ++ bytes }, ready)

-- `poll_write` takes all the bytes, or none.
unfoldable pub poll_write : BodyWriter → Bytes → Answer → BodyWriter × Poll
poll_write w bytes a =
    extend bytes (if ltb write_limit (length w.buf) then poll_flush w a else (w, ready))

-- `self.project().sender.send(part).await`
abbrev pub send : RequestBodyPart → BodyWriter → Answer → BodyWriter × Poll
send part w full = (w, pending)
send part w disconnected = (w, failed)
send part w refused = (w, failed)
send part w accepted = (record w { sent = w.sent ++ part ∷ [] }, ready)

abbrev pub and_send : RequestBodyPart → Answer → BodyWriter × Poll → BodyWriter × Poll
and_send part b (w, pending) = (w, pending)
and_send part b (w, failed) = (w, failed)
and_send part b (w, ready) = send part w b

-- `a` is the answer to the flush, and `b` that to the part.
unfoldable pub write_bytes : BodyWriter → Bytes → Answer → Answer → BodyWriter × Poll
write_bytes w bytes a b = and_send (frame (data_frame bytes)) b (poll_flush w a)

unfoldable pub finish : BodyWriter → Answer → Answer → BodyWriter × Poll
finish w a b = and_send done b (poll_flush w a)
