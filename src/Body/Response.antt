-- ===== src/Body/Response.antt =====
-- conjure-runtime/src/body.rs, the response: a stream of frames read as a stream of bytes.
--
-- The inner body is a parameter: the list of what it answers to its next polls, pending after them.
use conjure_rust_runtime.Prelude.{
  ℕ, zero, suc, Bool, true, false, Option, none, some, List, [], ◌∷◌, length, leb, min,
  if◌then◌else◌,
}
use conjure_rust_runtime.Body.{Bytes, Frame, data_frame, trailers}
mod Loops

pub data Inner : Type 0 where
  inner_frame : Frame → Inner
  inner_error inner_end inner_pending : Inner

abbrev pub take : ℕ → Bytes → Bytes
take zero bs = []
take (suc n) [] = []
take (suc n) (b ∷ bs) = b ∷ take n bs

abbrev pub drop : ℕ → Bytes → Bytes
drop zero bs = bs
drop (suc n) [] = []
drop (suc n) (b ∷ bs) = drop n bs

-- The body in its `FuseBody`, and the bytes at hand.
pub record ResponseBody : Type 0 where
  pub done : Bool
  pub inner : List Inner
  pub cur : Bytes

unfoldable pub new : List Inner → ResponseBody
new inner = record { done = false; inner = inner; cur = [] }

-- `Poll<Option<Result<..>>>`
pub data Polled (A : Type 0) : Type 0 where
  item : A → Polled A
  finished failed pending : Polled A

-- `FuseBody::poll_frame`
unfoldable pub fuse_poll : Bool → List Inner → Bool × List Inner × Polled Frame
fuse_poll true is = (true, is, finished)
fuse_poll false [] = (false, [], pending)
fuse_poll false (inner_frame f ∷ is) = (false, is, item f)
fuse_poll false (inner_error ∷ is) = (false, is, failed)
fuse_poll false (inner_end ∷ is) = (true, is, finished)
fuse_poll false (inner_pending ∷ is) = (false, is, pending)

-- The loop of `poll_next`: trailers are skipped.
unfoldable pub next_data : Bool → List Inner → Bool × List Inner × Polled Bytes
next_data true is = (true, is, finished)
next_data false [] = (false, [], pending)
next_data false (inner_frame (data_frame d) ∷ is) = (false, is, item d)
next_data false (inner_frame trailers ∷ is) = next_data false is
next_data false (inner_error ∷ is) = (false, is, failed)
next_data false (inner_end ∷ is) = (true, is, finished)
next_data false (inner_pending ∷ is) = (false, is, pending)

abbrev pub with_body : Bool × List Inner × Polled Bytes → Bytes → ResponseBody × Polled Bytes
with_body (d, is, p) cur = (record { done = d; inner = is; cur = cur }, p)

unfoldable pub next_bytes : ResponseBody → Bytes → ResponseBody × Polled Bytes
next_bytes r [] = with_body (next_data r.done r.inner) []
next_bytes r (b ∷ bs) = (record r { cur = [] }, item (b ∷ bs))

-- `Stream::poll_next`
unfoldable pub poll_next : ResponseBody → ResponseBody × Polled Bytes
poll_next r = next_bytes r r.cur

-- The loop of `poll_fill_buf`, while there is nothing at hand: empty frames are skipped as well.
unfoldable pub fill : Bool → List Inner → Bool × List Inner × Polled Bytes
fill true is = (true, is, item [])
fill false [] = (false, [], pending)
fill false (inner_frame (data_frame []) ∷ is) = fill false is
fill false (inner_frame (data_frame (b ∷ bs)) ∷ is) = (false, is, item (b ∷ bs))
fill false (inner_frame trailers ∷ is) = fill false is
fill false (inner_error ∷ is) = (false, is, failed)
fill false (inner_end ∷ is) = (true, is, item [])
fill false (inner_pending ∷ is) = (false, is, pending)

abbrev pub at_hand : Bool × List Inner × Polled Bytes → ResponseBody × Polled Bytes
at_hand (d, is, item bs) = (record { done = d; inner = is; cur = bs }, item bs)
at_hand (d, is, finished) = (record { done = d; inner = is; cur = [] }, finished)
at_hand (d, is, failed) = (record { done = d; inner = is; cur = [] }, failed)
at_hand (d, is, pending) = (record { done = d; inner = is; cur = [] }, pending)

unfoldable pub fill_from : ResponseBody → Bytes → ResponseBody × Polled Bytes
fill_from r [] = at_hand (fill r.done r.inner)
fill_from r (b ∷ bs) = (r, item (b ∷ bs))

-- `AsyncBufRead::poll_fill_buf`
unfoldable pub poll_fill_buf : ResponseBody → ResponseBody × Polled Bytes
poll_fill_buf r = fill_from r r.cur

-- `Bytes::advance` panics beyond the end.
unfoldable pub consume : ResponseBody → ℕ → Option ResponseBody
consume r amt = if leb amt (length r.cur) then some (record r { cur = drop amt r.cur }) else none

abbrev pub copy : ℕ → ResponseBody → Polled Bytes → Option (ResponseBody × Polled Bytes)
copy room r (item in_buf) = elim (consume r (min (length in_buf) room)) [
  | none ↦ none
  | some r' ↦ some (r', item (take (min (length in_buf) room) in_buf))
]
copy room r finished = some (r, finished)
copy room r failed = some (r, failed)
copy room r pending = some (r, pending)

-- `AsyncRead::poll_read`, into a buffer with `room`.
unfoldable pub poll_read : ResponseBody → ℕ → Option (ResponseBody × Polled Bytes)
unfolding poll_fill_buf fill_from consume
poll_read r room = let (r', p) = poll_fill_buf r in copy room r' p
