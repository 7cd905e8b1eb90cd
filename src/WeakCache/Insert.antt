-- ===== src/WeakCache/Insert.antt =====
-- What is evicted when the cache is over its capacity.
use conjure_rust_runtime.Prelude.{
  ℕ, zero, suc, ◌≤◌, ◌<◌, ◌≡◌, refl, sym, ap, subst, Bool-cases, some, List, [], ◌∷◌, ◌++◌, length,
  ltb, ltb→lt, ltb→ge, arith, ◌⊎◌, inl, inr,
}
use conjure_rust_runtime.WeakCache.{LinkedHashMap, CachedValue, shrink}
use conjure_rust_runtime.WeakCache.Entries.{Laws, find, tail, Distinct, find-tail}

abbrev pub Entry : Type 0
Entry = ℕ × CachedValue

-- `ys` are the newest of `xs` within the capacity, and all of them if the capacity allows.
pub record Newest (capacity : ℕ) (xs ys : List Entry) : Type 0 where
  pub evicted : List Entry
  pub split : xs ≡ evicted ++ ys
  pub within : length ys ≤ capacity
  pub needed : (evicted ≡ []) ⊎ (length ys ≡ capacity)

module _ {M : Type 0} (map : LinkedHashMap M CachedValue) (laws : Laws map) where
  tail_length : (xs : List Entry) → length xs ≤ suc (length (tail xs))
  tail_length [] = omega arith
  tail_length (x ∷ xs) = omega arith

  all_Newest : (capacity : ℕ) (xs : List Entry) → length xs ≤ capacity → Newest capacity xs xs
  all_Newest capacity xs h = record { evicted = []; split = refl; within = h; needed = inl refl }

  tail_Newest :
      (capacity : ℕ) (xs ys : List Entry)
      → capacity < length xs
      → Newest capacity (tail xs) ys
      → Newest capacity xs ys
  tail_Newest capacity [] ys h n = absurd (omega arith)
  tail_Newest capacity (x ∷ xs) ys h n = record {
    evicted = x ∷ n.evicted;
    split = ap (◌∷◌ x) n.split;
    within = n.within;
    needed = inr (elim n.needed [
      | inl e ↦ omega (arith, ap length n.split, ap (λ es. length (es ++ ys)) e, n.within)
      | inr e ↦ e
    ]);
  }

  -- The loop ends with fuel for every entry, and leaves the newest entries.
  pub shrink-Newest :
      (capacity fuel : ℕ) (m : M)
      → length (laws.entries m) ≤ fuel
      → Newest capacity (laws.entries m) (laws.entries (shrink map capacity fuel m))
  unfolding shrink
  shrink-Newest capacity zero m h = all_Newest capacity (laws.entries m) (omega arith)
  shrink-Newest capacity (suc fuel) m h = elim (Bool-cases (ltb capacity (map.len m))) [
    | inr e ↦ rw e (
        all_Newest capacity (laws.entries m)
          (omega (arith, laws.len_lem m, ltb→ge capacity (map.len m) e)))
    | inl e ↦ rw e (
        tail_Newest capacity (laws.entries m) _
          (omega (arith, laws.len_lem m, ltb→lt capacity (map.len m) e))
          (subst
            (λ xs. Newest capacity xs (laws.entries (shrink map capacity fuel (map.pop_front m))))
            (laws.entries-pop_front m)
            (shrink-Newest capacity fuel (map.pop_front m) (
              subst (λ xs. length xs ≤ fuel) (sym (laws.entries-pop_front m))
                (shorter (laws.entries m) h
                  (omega (arith, laws.len_lem m, ltb→lt capacity (map.len m) e)))))))
  ]
    where
      shorter : (xs : List Entry) → length xs ≤ suc fuel → 0 < length xs → length (tail xs) ≤ fuel
      shorter [] h k = absurd (omega arith)
      shorter (x ∷ xs) h k = omega arith

-- What is left of distinct entries is distinct, and was there before.
pub suffix-Distinct : (xs ys : List Entry) → Distinct (xs ++ ys) → Distinct ys
suffix-Distinct [] ys d = d
suffix-Distinct (x ∷ xs) ys d = suffix-Distinct xs ys d.1

pub find-suffix :
    (k : ℕ) (c : CachedValue) (xs ys : List Entry)
    → Distinct (xs ++ ys)
    → find k ys ≡ some c
    → find k (xs ++ ys) ≡ some c
find-suffix k c [] ys d h = h
find-suffix k c (x ∷ xs) ys d h = find-tail k c (x ∷ xs ++ ys) d (find-suffix k c xs ys d.1 h)
