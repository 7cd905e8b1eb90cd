-- ===== src/Body/Blocking/Unsent.antt =====
-- What the blocking writer keeps in its buffer.
use conjure_rust_runtime.Prelude.{
  ◌≤◌, ◌≡◌, refl, sym, ap, ◌∙◌, Bool, true, List, [], ◌∷◌, ◌++◌, map, append_assoc, append-nil,
  length, ge→ltb,
}
use conjure_rust_runtime.Body.{Bytes}
use conjure_rust_runtime.Body.Blocking.{
  BodyWriter, write_limit, write, Write, writes, step, and_run, run,
}

abbrev pub concat : List (Bytes × Bool) → Bytes
concat [] = []
concat ((b, a) ∷ bs) = b ++ concat bs

abbrev pub write_each : Bytes × Bool → Write
write_each (b, a) = writes b a

-- Each of the writes is of at most the limit.
abbrev pub Small : List (Bytes × Bool) → Type 0
Small [] = Unit {0}
Small ((b, a) ∷ bs) = (length b ≤ write_limit) × Small bs

module _ {E : Type 0} where
  small_write :
      (w : BodyWriter E) (b : Bytes) (a : Bool)
      → length b ≤ write_limit
      → write w b a ≡ (record w { buf = w.buf ++ b }, true)
  unfolding write
  small_write w b a le = rw (ge→ltb write_limit (length b) le) refl

  -- However many writes of at most 4,906 bytes each there are, none of their bytes is sent: all of them are still
  -- held in the buffer after the last.
  pub run-unsent :
      (bs : List (Bytes × Bool)) (w : BodyWriter E)
      → Small bs
      → run (map write_each bs) w ≡ (record w { buf = w.buf ++ concat bs }, true, concat bs)
  unfolding run step
  run-unsent [] w s = λ i. (record w { buf = sym (append-nil w.buf) i }, true, [])
  run-unsent ((b, a) ∷ bs) w (le, s) =
      ap (λ r. and_run b r (run (map write_each bs) r.0)) (small_write w b a le)
      ∙ ap (and_run b (record w { buf = w.buf ++ b }, true))
          (run-unsent bs (record w { buf = w.buf ++ b }) s)
      ∙ λ i. (record w { buf = append_assoc w.buf b (concat bs) i }, true, b ++ concat bs)
