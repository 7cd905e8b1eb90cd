-- ===== src/Body/Request.antt =====
-- conjure-runtime/src/service/raw/body.rs: the body as the HTTP client polls it. The other end of the
-- channel is a parameter.
use conjure_rust_runtime.Prelude.{ℕ, Bool, true, false, Option, none, some, List, [], ◌∷◌, length}
use conjure_rust_runtime.Body.{Bytes, Frame, data_frame, trailers, RequestBodyPart, frame, done}
pub mod Writing

-- `AsyncRequestBody`; a streaming body is the code that writes it.
pub data AsyncRequestBody : Type 0 where
  empty_body streaming_body : AsyncRequestBody
  fixed_body : Bytes → AsyncRequestBody

-- `unpolled`: the sender that tells the writer of the first poll is still there.
pub data RawRequestBodyInner : Type 0 where
  empty : RawRequestBodyInner
  single : Frame → RawRequestBodyInner
  stream : (unpolled : Bool) → RawRequestBodyInner

pub data Writer : Type 0 where
  nop streaming : Writer

unfoldable pub new : AsyncRequestBody → RawRequestBodyInner × Writer
new empty_body = (empty, nop)
new (fixed_body b) = (single (data_frame b), nop)
new streaming_body = (stream true, streaming)

-- What `receiver.poll_next` answers.
pub data Received : Type 0 where
  part : RequestBodyPart → Received
  closed waiting : Received

-- `body_error` is `RequestBodyError`.
pub data PollFrame : Type 0 where
  next_frame : Frame → PollFrame
  end_of_stream body_error poll_pending : PollFrame

unfoldable pub receive : Received → RawRequestBodyInner × PollFrame
receive (part (frame f)) = (stream false, next_frame f)
receive (part done) = (empty, end_of_stream)
receive closed = (empty, body_error)
receive waiting = (stream false, poll_pending)

-- The last component says whether the writer is told of the poll.
unfoldable pub poll_frame : RawRequestBodyInner → Received → RawRequestBodyInner × PollFrame × Bool
unfolding receive
poll_frame empty r = (empty, end_of_stream, false)
poll_frame (single f) r = (empty, next_frame f, false)
poll_frame (stream unpolled) r = let (inner, p) = receive r in (inner, p, unpolled)

unfoldable pub is_end_stream : RawRequestBodyInner → Bool
is_end_stream empty = true
is_end_stream (single f) = false
is_end_stream (stream unpolled) = false

abbrev pub frame_length : Frame → ℕ
frame_length (data_frame b) = length b
frame_length trailers = 0

-- `SizeHint`: the exact size, if it is known.
unfoldable pub size_hint : RawRequestBodyInner → Option ℕ
size_hint empty = some 0
size_hint (single f) = some (frame_length f)
size_hint (stream unpolled) = none

-- The client polls for each answer of the channel, and stops at the end or at an error.
pub data Ending : Type 0 where
  complete aborted unfinished : Ending

abbrev pub and_then : PollFrame → List Frame × Ending → List Frame × Ending
and_then (next_frame f) (fs, e) = (f ∷ fs, e)
and_then end_of_stream rest = ([], complete)
and_then body_error rest = ([], aborted)
and_then poll_pending rest = rest

unfoldable pub collect : RawRequestBodyInner → List Received → List Frame × Ending
unfolding poll_frame
collect inner [] = ([], unfinished)
collect inner (r ∷ rs) = let (next, p, told) = poll_frame inner r in and_then p (collect next rs)
