-- ===== src/Gzip.antt =====
-- conjure-runtime/src/service/gzip/hyper.rs: compressed responses are decompressed as they are read.
--
-- The decoder of the crate flate2 is a parameter, as is the body: the list of what it answers to its next polls, and
-- its end after them.
use conjure_rust_runtime.Prelude.{
  ℕ, zero, suc, Bool, true, false, Option, none, some, List, [], ◌∷◌, ◌==◌, if◌then◌else◌,
}
use conjure_rust_runtime.Body.{Bytes, Frame, data_frame, trailers}
use conjure_rust_runtime.Body.Response.{Polled, item, finished, failed, pending}
use conjure_rust_runtime.Body.Request.{Ending, complete, aborted, unfinished}
pub mod Decoded
pub mod Finished
pub mod Collected
mod Examples

-- `GzDecoder` around a buffer: `output` is what the buffer holds, and `split` takes it.
pub record Decoder (D : Type 0) : Type 0 where
  pub new : D
  pub write_all : D → Bytes → Option D
  pub flush : D → Option D
  pub try_finish : D → Option D
  pub output : D → Bytes
  pub split : D → D

-- The headers that matter: `gzip` is the number of that value.
abbrev pub gzip : ℕ
gzip = 0

pub record Headers : Type 0 where
  pub content_encoding : Option ℕ
  pub content_length : Option ℕ

-- A chunk comes with what `is_end_stream` says after it.
pub data Inner : Type 0 where
  chunk : Bytes → Bool → Inner
  trailers_frame body_error not_ready : Inner

pub data State (D : Type 0) : Type 0 where
  decompressing : D → State D
  last : Frame → State D
  done : State D

-- The request's `Accept-Encoding`.
unfoldable pub accept_encoding : Option ℕ → Option ℕ
accept_encoding none = some gzip
accept_encoding (some v) = some v

module _ {D : Type 0} (decoder : Decoder D) where
  -- What `call` makes of the response's headers, with the state of the body.
  unfoldable pub respond : Headers → Headers × State D
  respond h = elim h.content_encoding [
    | none ↦ (h, done)
    | some v ↦
        if v == gzip
        then (record { content_encoding = none; content_length = none }, decompressing decoder.new)
        else (h, done)
  ]

  -- The frame with what is left in the buffer, and the state after it; or `otherwise` if nothing is.
  abbrev pub drain : Bytes → State D → Polled Frame → State D × Polled Frame
  drain [] next otherwise = (done, otherwise)
  drain (b ∷ bs) next otherwise = (next, item (data_frame (b ∷ bs)))

  -- `try_finish` and what follows it.
  abbrev pub after_finish : Option D → State D → Polled Frame → State D × Polled Frame
  after_finish none next otherwise = (done, failed)
  after_finish (some e) next otherwise = drain (decoder.output e) next otherwise

  unfoldable pub finish : D → State D → Polled Frame → State D × Polled Frame
  finish d next otherwise = after_finish (decoder.try_finish d) next otherwise

  abbrev pub with_rest : State D × Polled Frame → List Inner → State D × List Inner × Polled Frame
  with_rest (s, p) is = (s, is, p)

  -- After a `flush`: `again` is the next round of the loop, when there is no output.
  abbrev pub emit :
      Bytes
      → D
      → List Inner
      → State D × List Inner × Polled Frame
      → State D × List Inner × Polled Frame
  emit [] d is again = again
  emit (b ∷ bs) d is again = (decompressing d, is, item (data_frame (b ∷ bs)))

  -- `again` is the next round of the loop.
  abbrev pub after_flush :
      Option D
      → List Inner
      → (D → State D × List Inner × Polled Frame)
      → State D × List Inner × Polled Frame
  after_flush none is again = (done, is, failed)
  after_flush (some f) is again =
      emit (decoder.output f) (decoder.split f) is (again (decoder.split f))

  abbrev pub after_write :
      Bool
      → Option D
      → List Inner
      → (D → State D × List Inner × Polled Frame)
      → State D × List Inner × Polled Frame
  after_write e none is again = (done, is, failed)
  after_write true (some w) is again = with_rest (finish w done finished) is
  after_write false (some w) is again = after_flush (decoder.flush w) is again

  -- The loop of `poll_frame` while it decompresses.
  unfoldable pub decompress : D → List Inner → State D × List Inner × Polled Frame
  decompress d [] = with_rest (finish d done finished) []
  decompress d (chunk b e ∷ is) = after_write e (decoder.write_all d b) is (λ f. decompress f is)
  decompress d (trailers_frame ∷ is) = with_rest (finish d (last trailers) (item trailers)) is
  decompress d (body_error ∷ is) = (done, is, failed)
  decompress d (not_ready ∷ is) = (decompressing d, is, pending)

  -- The poll of the inner body, when it is not decompressed any more.
  abbrev pub pass : List Inner → State D × List Inner × Polled Frame
  pass [] = (done, [], finished)
  pass (chunk b e ∷ is) = (done, is, item (data_frame b))
  pass (trailers_frame ∷ is) = (done, is, item trailers)
  pass (body_error ∷ is) = (done, is, failed)
  pass (not_ready ∷ is) = (done, is, pending)

  unfoldable pub poll_frame : State D → List Inner → State D × List Inner × Polled Frame
  poll_frame (decompressing d) is = decompress d is
  poll_frame (last f) is = (done, is, item f)
  poll_frame done is = pass is

  abbrev pub and_collect : Polled Frame → List Frame × Ending → List Frame × Ending
  and_collect (item f) (fs, e) = (f ∷ fs, e)
  and_collect finished rest = ([], complete)
  and_collect failed rest = ([], aborted)
  and_collect pending rest = rest

  -- A reader polls up to the end or an error, so many times at most.
  unfoldable pub collect : ℕ → State D → List Inner → List Frame × Ending
  collect zero s is = ([], unfinished)
  collect (suc n) s is = let (t, js, p) = poll_frame s is in and_collect p (collect n t js)
