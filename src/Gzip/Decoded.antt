-- ===== src/Gzip/Decoded.antt =====
-- What a reader of a compressed response should get.
use conjure_rust_runtime.Prelude.{
  ◌≡◌, Bool, true, false, Option, none, some, List, [], ◌∷◌, ◌++◌, ◌⊎◌,
}
use conjure_rust_runtime.Body.{Bytes, Frame, data_frame, trailers}
use conjure_rust_runtime.Body.Request.{Ending, complete, aborted, unfinished}
use conjure_rust_runtime.Body.Delivered.{data_in}
use conjure_rust_runtime.Gzip.{Decoder, Inner, chunk, trailers_frame, body_error, not_ready}

-- What is relied on of flate2. `decoded` is the meaning of compressed bytes, and `Fed d i o` says that the decoder has
-- been given the bytes `i`, and that `o` has been taken out of its buffer.
pub record Laws {D : Type 0} (decoder : Decoder D) : Type 1 where
  pub decoded : Bytes → Option Bytes
  pub Fed : D → Bytes → Bytes → Type 0
  pub new_lem : Fed decoder.new [] []
  pub write_all_lem :
      (d e : D) (i o b : Bytes) → Fed d i o → decoder.write_all d b ≡ some e → Fed e (i ++ b) o
  pub flush_lem : (d e : D) (i o : Bytes) → Fed d i o → decoder.flush d ≡ some e → Fed e i o
  pub split_lem :
      (d : D) (i o : Bytes) → Fed d i o → Fed (decoder.split d) i (o ++ decoder.output d)
  pub try_finish_lem :
      (d e : D) (i o : Bytes)
      → Fed d i o
      → decoder.try_finish d ≡ some e
      → decoded i ≡ some (o ++ decoder.output e)

abbrev pub payload : List Inner → Bytes
payload [] = []
payload (chunk b e ∷ is) = b ++ payload is
payload (trailers_frame ∷ is) = payload is
payload (body_error ∷ is) = payload is
payload (not_ready ∷ is) = payload is

abbrev pub ends_with_trailers : List Inner → Bool
ends_with_trailers [] = false
ends_with_trailers (chunk b e ∷ is) = ends_with_trailers is
ends_with_trailers (trailers_frame ∷ is) = true
ends_with_trailers (body_error ∷ is) = ends_with_trailers is
ends_with_trailers (not_ready ∷ is) = ends_with_trailers is

abbrev pub last_is_trailers : List Frame → Bool
last_is_trailers [] = false
last_is_trailers (trailers ∷ []) = true
last_is_trailers (trailers ∷ f ∷ fs) = last_is_trailers (f ∷ fs)
last_is_trailers (data_frame b ∷ fs) = last_is_trailers fs

-- Nothing comes after the trailers, nor after a chunk for which `is_end_stream` was true.
abbrev pub Ordered : List Inner → Type 0
Ordered [] = Unit
Ordered (chunk b true ∷ is) = is ≡ []
Ordered (chunk b false ∷ is) = Ordered is
Ordered (trailers_frame ∷ is) = is ≡ []
Ordered (body_error ∷ is) = Ordered is
Ordered (not_ready ∷ is) = Ordered is

-- The body fails.
abbrev pub Fails : List Inner → Type 0
Fails [] = ⊥
Fails (chunk b e ∷ is) = Fails is
Fails (trailers_frame ∷ is) = Fails is
Fails (body_error ∷ is) = Unit
Fails (not_ready ∷ is) = Fails is

module _ {D : Type 0} (decoder : Decoder D) (laws : Laws decoder) where
  -- The decoder refuses what it is given of the bytes `whole`: a next part, or to give its output, or the end of them
  -- after all of them.
  pub data Refuses (whole : Bytes) : Type 0 where
    bad_part :
        (d : D) (i o b rest : Bytes)
        → laws.Fed d i o
        → i ++ (b ++ rest) ≡ whole
        → decoder.write_all d b ≡ none
        → Refuses whole
    bad_output :
        (d : D) (i o rest : Bytes)
        → laws.Fed d i o
        → i ++ rest ≡ whole
        → decoder.flush d ≡ none
        → Refuses whole
    bad_end : (d : D) (o : Bytes) → laws.Fed d whole o → decoder.try_finish d ≡ none → Refuses whole

  -- Of a decoder that has been given `i`, and whose output so far is `o`: the frames up to the end are the rest of
  -- what the input means, and the trailers, and the body does not fail; there is an error only if the body fails or the
  -- decoder refuses the body's bytes.
  abbrev pub Reads : Bytes → Bytes → List Inner → List Frame × Ending → Type 0
  Reads i o is (fs, complete) =
      (laws.decoded (i ++ payload is) ≡ some (o ++ data_in fs))
      × (last_is_trailers fs ≡ ends_with_trailers is)
      × (¬ Fails is)
  Reads i o is (fs, aborted) = Fails is ⊎ Refuses (i ++ payload is)
  Reads i o is (fs, unfinished) = ⊥
