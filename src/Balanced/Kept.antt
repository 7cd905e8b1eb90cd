-- ===== src/Balanced/Kept.antt =====
-- Which nodes a request tries.
use conjure_rust_runtime.Prelude.{
  ℕ, All, All-imp, ◌*◌, ◌-◌, ◌^◌, min, ◌≤◌, ◌<◌, ◌≡◌, refl, subst, ap, Bool, true, false,
  Bool-cases, inl, inr, List, [], ◌∷◌, ◌++◌, map, ltb, ltb→lt, ltb→ge, lt→ltb, if◌then◌else◌, arith,
}
use conjure_rust_runtime.Balanced.{
  Snapshot, give_up_after, keep, Float, TrackedNode, snapshots, snapshot_of, node_of, candidates,
  score, usize_max,
}
use conjure_rust_runtime.Balanced.Sorted.{AtLeast, Sorted, sort-Sorted, All-sort}

module _ {A : Type 0} where
  abbrev pub Above : ℕ → Snapshot A → Type 0
  Above t s = t < s.score.score

  -- Below the threshold `t` the nodes `kept` are tried, and the others are not. Each is within the threshold that those
  -- before it set, and a node with more than five requests in flight sets it to twice its own score.
  pub data Tried : ℕ → List (Snapshot A) → List (Snapshot A) → Type 0 where
    done : {t : ℕ} {rest : List (Snapshot A)} → All (Above t) rest → Tried t [] rest
    busy :
        {t : ℕ} {s : Snapshot A} {kept rest : List (Snapshot A)}
        → s.score.score ≤ t
        → 5 < s.score.in_flight
        → Tried (min (2 * s.score.score) (2 ^ 64 - 1)) kept rest
        → Tried t (s ∷ kept) rest
    calm :
        {t : ℕ} {s : Snapshot A} {kept rest : List (Snapshot A)}
        → s.score.score ≤ t
        → s.score.in_flight ≤ 5
        → Tried t kept rest
        → Tried t (s ∷ kept) rest

  keep-none : (t : ℕ) (ss : List (Snapshot A)) → All (Above t) ss → keep t ss ≡ []
  unfolding keep
  keep-none t [] h = refl
  keep-none t (s ∷ ss) (p, h) = rw (lt→ltb t s.score.score p) (keep-none t ss h)

  -- What is kept is a first part of the sorted nodes.
  abbrev pub Splits : ℕ → List (Snapshot A) → List (Snapshot A) → Type 0
  Splits t ss kept = (rest : List (Snapshot A)) × (kept ++ rest ≡ ss) × Tried t kept rest

  kept-Tried :
      (t : ℕ) (s : Snapshot A) (kept rest : List (Snapshot A))
      → s.score.score ≤ t
      → Tried (give_up_after t s) kept rest
      → Tried t (s ∷ kept) rest
  kept-Tried t s kept rest low later = elim (Bool-cases (ltb 5 s.score.in_flight)) [
    | inl e ↦
        busy low (ltb→lt 5 s.score.in_flight e)
          (subst (λ u. Tried u kept rest) (twice s.score.score) (rw e at later))
    | inr e ↦ calm low (ltb→ge 5 s.score.in_flight e) (rw e at later)
  ]
    where
      twice : (n : ℕ) → min (n * 2) usize_max ≡ min (2 * n) (2 ^ 64 - 1)
      twice n = omega arith

  keep-Splits : (t : ℕ) (ss : List (Snapshot A)) → Sorted ss → Splits t ss (keep t ss)
  unfolding keep
  keep-Splits t [] h = ([], refl, done tt)
  keep-Splits t (s ∷ ss) (a, h) =
      go (ltb t s.score.score) refl (keep-Splits (give_up_after t s) ss h)
    where
      go :
          (b : Bool)
          → ltb t s.score.score ≡ b
          → Splits (give_up_after t s) ss (keep (give_up_after t s) ss)
          → Splits t (s ∷ ss) (
              let rest = keep (if b then t else give_up_after t s) ss in
              if b then rest else s ∷ rest)
      go true e later =
          let lt : t < s.score.score = ltb→lt t s.score.score e in
          let above : All (Above t) ss =
            All-imp (AtLeast s.score.score) (Above t) (λ u g. omega (arith, lt, g)) ss a in
          rw (keep-none t ss above, Splits) (s ∷ ss, refl, done (lt, above))
      go false e (rest, p, r) =
          (rest, ap (λ c. s ∷ c) p, kept-Tried t s _ rest (ltb→ge t s.score.score e) r)

-- The nodes that a request tries are a first part of the nodes in the order of their scores: each is within the
-- threshold that those before it set, and the others are all above the last one. The threshold is twice the score, as
-- far as a `usize` goes, of the last node with more than five requests in flight; without one it is the largest
-- `usize`. At least one node is tried.
pub candidates-Splits :
    {F : Type 0} (float : Float F) (n : TrackedNode F) (ns : List (TrackedNode F))
    → (first : Snapshot (TrackedNode F)) × (kept : List (Snapshot (TrackedNode F))) × (candidates
          float
          (n ∷ ns)
        ≡ map (node_of float) (first ∷ kept))
      × Splits usize_max (snapshots float (n ∷ ns)) (first ∷ kept)
unfolding candidates snapshots score
candidates-Splits {F = F} float n ns = go (keep usize_max (snapshots float (n ∷ ns))) (
    keep-Splits usize_max (snapshots float (n ∷ ns))
      (sort-Sorted (map (snapshot_of float) (n ∷ ns))))
  where
    go :
        (kept : List (Snapshot (TrackedNode F)))
        → Splits usize_max (snapshots float (n ∷ ns)) kept
        → (first : Snapshot (TrackedNode F)) × (later : List (Snapshot (TrackedNode F))) × (map
              (node_of float)
              kept
            ≡ map (node_of float) (first ∷ later))
          × Splits usize_max (snapshots float (n ∷ ns)) (first ∷ later)
    go (first ∷ later) h = (first, later, refl, h)
    go [] (rest, e, done above) =
        let (lt, more) =
          All-sort (Above usize_max) (map (snapshot_of float) (n ∷ ns))
            (subst (All (Above usize_max)) e above) in
        let absurd : ⊥ = omega (arith, lt) in elim absurd [ ]
