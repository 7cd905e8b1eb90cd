-- ===== src/Gzip/Collected.antt =====
-- A reader of a compressed response gets what it means.
use conjure_rust_runtime.Prelude.{
  ℕ, zero, suc, ◌+◌, ◌<◌, ◌≡◌, refl, sym, ap, subst, ◌∙◌, Bool, true, false, Option, none, some,
  List, [], ◌∷◌, ◌++◌, append_assoc, append-nil, length, inl, inr, arith,
}
use conjure_rust_runtime.Body.{Bytes, Frame, data_frame}
use conjure_rust_runtime.Body.Response.{item, finished}
use conjure_rust_runtime.Body.Request.{Ending, complete, aborted, unfinished}
use conjure_rust_runtime.Body.Delivered.{data_in}
use conjure_rust_runtime.Gzip.{
  Decoder, Inner, chunk, trailers_frame, body_error, not_ready, decompressing, done, finish,
  after_flush, after_write, with_rest, emit, decompress, poll_frame, and_collect, collect,
}
use conjure_rust_runtime.Gzip.Decoded.{Laws, payload, Ordered, Reads, Refuses, bad_part, bad_output}
use conjure_rust_runtime.Gzip.Finished.{not_below_zero, then_collect, finish-Reads, trailers-Reads}

module _ {D : Type 0} (decoder : Decoder D) (laws : Laws decoder) where
  -- The chunk has been given to the decoder.
  chunk-Reads :
      (i o b : Bytes) (e : Bool) (is : List Inner) (r : List Frame × Ending)
      → Reads decoder laws (i ++ b) o is r
      → Reads decoder laws i o (chunk b e ∷ is) r
  chunk-Reads i o b e is (fs, complete) (h, t, f) =
      (ap laws.decoded (sym (append_assoc i b (payload is))) ∙ h, t, f)
  chunk-Reads i o b e is (fs, aborted) (inl f) = inl f
  chunk-Reads i o b e is (fs, aborted) (inr r) =
      inr (subst (Refuses decoder laws) (append_assoc i b (payload is)) r)
  chunk-Reads i o b e is (fs, unfinished) h = h

  -- The output has been taken.
  output-Reads :
      (i o c : Bytes) (is : List Inner) (r : List Frame × Ending)
      → Reads decoder laws i (o ++ c) is r
      → Reads decoder laws i o is (and_collect decoder (item (data_frame c)) r)
  output-Reads i o c is (fs, complete) (h, t, f) =
      (h ∙ ap some (append_assoc o c (data_in fs)), t, f)
  output-Reads i o c is (fs, aborted) h = h
  output-Reads i o c is (fs, unfinished) h = h

  abbrev Later : List Inner → Type 0
  Later is =
      (n : ℕ) (d : D) (i o : Bytes)
      → length is < n
      → laws.Fed d i o
      → Reads decoder laws i o is (then_collect decoder laws n (decompress decoder d is))

  emit-Reads :
      (n : ℕ) (d : D) (i o c : Bytes) (is : List Inner)
      → suc (length is) < n
      → laws.Fed d i (o ++ c)
      → Later is
      → Reads decoder laws i o is
          (then_collect decoder laws n (emit decoder c d is (decompress decoder d is)))
  unfolding collect poll_frame
  emit-Reads n d i o [] is lt fed later =
      later n d i o (omega (arith, lt)) (subst (laws.Fed d i) (append-nil o) fed)
  emit-Reads zero d i o (c ∷ cs) is lt fed later = elim (not_below_zero (suc (length is)) lt) [ ]
  emit-Reads (suc n) d i o (c ∷ cs) is lt fed later =
      output-Reads i o (c ∷ cs) is (then_collect decoder laws n (decompress decoder d is))
        (later n d i (o ++ c ∷ cs) (omega (arith, lt)) fed)

  written-Reads :
      (n : ℕ) (w : D) (i o : Bytes) (is : List Inner)
      → suc (length is) < n
      → laws.Fed w i o
      → Later is
      → Reads decoder laws i o is (
          then_collect decoder laws n
            (after_flush decoder (decoder.flush w) is (λ f. decompress decoder f is)))
  written-Reads n w i o is lt fed later = go (decoder.flush w) refl
    where
      go :
          (r : Option D)
          → decoder.flush w ≡ r
          → Reads decoder laws i o is (
              then_collect decoder laws n (after_flush decoder r is (λ f. decompress decoder f is)))
      go none e = inr (bad_output w i o (payload is) fed refl e)
      go (some f) e =
          emit-Reads n (decoder.split f) i o (decoder.output f) is lt
            (laws.split_lem f i o (laws.flush_lem w f i o fed e)) later

  decompress-Reads : (is : List Inner) → Ordered is → Later is
  unfolding decompress collect poll_frame
  decompress-Reads [] ord n d i o lt fed = finish-Reads decoder laws n d i o lt fed
  decompress-Reads (chunk b true ∷ []) ord n d i o lt fed = go (decoder.write_all d b) refl
    where
      go :
          (r : Option D)
          → decoder.write_all d b ≡ r
          → Reads decoder laws i o (chunk b true ∷ []) (
              then_collect decoder laws n
                (after_write decoder true r [] (λ f. decompress decoder f [])))
      go none e = inr (bad_part d i o b [] fed refl e)
      go (some w) e =
          chunk-Reads i o b true []
            (then_collect decoder laws n (with_rest decoder (finish decoder w done finished) []))
            (finish-Reads decoder laws n w (i ++ b) o (omega (arith, lt))
              (laws.write_all_lem d w i o b fed e))
  decompress-Reads (chunk b true ∷ j ∷ js) ord n d i o lt fed = cc
  decompress-Reads (chunk b false ∷ is) ord n d i o lt fed =
      go (decoder.write_all d b) refl (decompress-Reads is ord)
    where
      go :
          (r : Option D)
          → decoder.write_all d b ≡ r
          → Later is
          → Reads decoder laws i o (chunk b false ∷ is) (
              then_collect decoder laws n
                (after_write decoder false r is (λ f. decompress decoder f is)))
      go none e later = inr (bad_part d i o b (payload is) fed refl e)
      go (some w) e later =
          chunk-Reads i o b false is
            (then_collect decoder laws n
              (after_flush decoder (decoder.flush w) is (λ f. decompress decoder f is)))
            (written-Reads n w (i ++ b) o is lt (laws.write_all_lem d w i o b fed e) later)
  decompress-Reads (trailers_frame ∷ []) ord n d i o lt fed =
      trailers-Reads decoder laws n d i o lt fed
  decompress-Reads (trailers_frame ∷ j ∷ js) ord n d i o lt fed = cc
  decompress-Reads (body_error ∷ is) ord n d i o lt fed = inl tt
  decompress-Reads (not_ready ∷ is) ord zero d i o lt fed =
      elim (not_below_zero (suc (length is)) lt) [ ]
  decompress-Reads (not_ready ∷ is) ord (suc n) d i o lt fed =
      decompress-Reads is ord n d i o (omega (arith, lt)) fed

  -- A reader that polls once more than the body has answers, and once more for the trailers, gets what the compressed
  -- bytes mean, and the trailers if there are any, and the body has not failed; or else an error, but only if the body fails
  -- or the decoder refuses its bytes: a part that comes next, or to give output after a part, or the end after all.
  pub collect-Reads :
      (is : List Inner)
      → Ordered is
      → Reads decoder laws [] [] is (collect decoder (length is + 2) (decompressing decoder.new) is)
  unfolding collect poll_frame
  collect-Reads is ord =
      subst (λ n. Reads decoder laws [] [] is (collect decoder n (decompressing decoder.new) is))
        (enough (length is))
        (decompress-Reads is ord (suc (length is)) decoder.new [] [] (omega arith) laws.new_lem)
    where
      enough : (k : ℕ) → suc (suc k) ≡ k + 2
      enough k = omega arith
