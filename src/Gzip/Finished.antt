-- ===== src/Gzip/Finished.antt =====
-- The end of a compressed response.
use conjure_rust_runtime.Prelude.{
  ℕ, zero, suc, ◌<◌, ◌≡◌, refl, sym, ap, subst, ◌∙◌, Option, none, some, List, [], ◌∷◌, ◌++◌,
  append-nil, inr, arith,
}
use conjure_rust_runtime.Body.{Bytes, Frame, data_frame, trailers}
use conjure_rust_runtime.Body.Response.{Polled, item, finished}
use conjure_rust_runtime.Body.Request.{Ending, complete}
use conjure_rust_runtime.Gzip.{
  Decoder, Inner, trailers_frame, State, last, done, drain, after_finish, finish, with_rest,
  poll_frame, and_collect, collect,
}
use conjure_rust_runtime.Gzip.Decoded.{Laws, Reads, bad_end}

pub not_below_zero : (k : ℕ) → k < 0 → ⊥
not_below_zero k lt = omega (arith, lt)

module _ {D : Type 0} (decoder : Decoder D) (laws : Laws decoder) where
  -- The rest of a poll's result, for a reader that has so many polls left.
  abbrev pub then_collect : ℕ → State D × List Inner × Polled Frame → List Frame × Ending
  then_collect n (t, js, p) = and_collect decoder p (collect decoder n t js)

  end_collect : (n : ℕ) → 0 < n → collect decoder n done [] ≡ ([], complete)
  unfolding collect poll_frame
  end_collect zero lt = elim (not_below_zero 0 lt) [ ]
  end_collect (suc n) lt = refl

  empty-append :
      (i o b : Bytes) → laws.decoded i ≡ some (o ++ b) → laws.decoded (i ++ []) ≡ some (o ++ b)
  empty-append i o b h = ap laws.decoded (append-nil i) ∙ h

  -- At the end, without trailers.
  pub finish-Reads :
      (n : ℕ) (d : D) (i o : Bytes)
      → 0 < n
      → laws.Fed d i o
      → Reads decoder laws i o []
          (then_collect n (with_rest decoder (finish decoder d done finished) []))
  unfolding finish
  finish-Reads n d i o lt fed = go (decoder.try_finish d) refl
    where
      drained :
          (b : Bytes)
          → laws.decoded i ≡ some (o ++ b)
          → Reads decoder laws i o []
              (then_collect n (with_rest decoder (drain decoder b done finished) []))
      drained [] h = (empty-append i o [] h, refl, λ f. f)
      drained (b ∷ bs) h =
          subst
            (λ r. Reads decoder laws i o [] (and_collect decoder (item (data_frame (b ∷ bs))) r))
            (sym (end_collect n lt))
            (
              empty-append i o (b ∷ bs ++ [])
                  (h ∙ ap (λ c. some (o ++ c)) (sym (append-nil (b ∷ bs)))),
              refl,
              λ f. f,
            )

      go :
          (r : Option D)
          → decoder.try_finish d ≡ r
          → Reads decoder laws i o []
              (then_collect n (with_rest decoder (after_finish decoder r done finished) []))
      go none e = inr (bad_end d o (subst (λ j. laws.Fed d j o) (sym (append-nil i)) fed) e)
      go (some f) e = drained (decoder.output f) (laws.try_finish_lem d f i o fed e)

  -- At the end, with trailers.
  pub trailers-Reads :
      (n : ℕ) (d : D) (i o : Bytes)
      → 1 < n
      → laws.Fed d i o
      → Reads decoder laws i o
          (trailers_frame ∷ [])
          (then_collect n (with_rest decoder (finish decoder d (last trailers) (item trailers)) []))
  unfolding finish collect poll_frame
  trailers-Reads zero d i o lt fed = elim (not_below_zero 1 lt) [ ]
  trailers-Reads (suc n) d i o lt fed = go (decoder.try_finish d) refl
    where
      drained :
          (b : Bytes)
          → laws.decoded i ≡ some (o ++ b)
          → Reads decoder laws i o (trailers_frame ∷ []) (
              then_collect
                (suc n)
                (with_rest decoder (drain decoder b (last trailers) (item trailers)) []))
      drained [] h = (empty-append i o [] h, refl, λ f. f)
      drained (b ∷ bs) h =
          subst
            (λ r. Reads decoder laws i o (trailers_frame ∷ []) (
              and_collect decoder (item (data_frame (b ∷ bs)))
                (and_collect decoder (item trailers) r)))
            (sym (end_collect n (omega (arith, lt))))
            (
              empty-append i o (b ∷ bs ++ [])
                  (h ∙ ap (λ c. some (o ++ c)) (sym (append-nil (b ∷ bs)))),
              refl,
              λ f. f,
            )

      go :
          (r : Option D)
          → decoder.try_finish d ≡ r
          → Reads decoder laws i o (trailers_frame ∷ []) (
              then_collect
                (suc n)
                (with_rest decoder (after_finish decoder r (last trailers) (item trailers)) []))
      go none e = inr (bad_end d o (subst (λ j. laws.Fed d j o) (sym (append-nil i)) fed) e)
      go (some f) e = drained (decoder.output f) (laws.try_finish_lem d f i o fed e)
