-- ===== src/Balanced/Sorted.antt =====
-- Snapshots in the order of their scores.
use conjure_rust_runtime.Prelude.{
  All, All-imp, ℕ, ◌≤◌, ◌≡◌, refl, Bool, true, false, List, [], ◌∷◌, leb, leb→le, if◌then◌else◌,
  arith,
}
use conjure_rust_runtime.Balanced.{Snapshot, insert, sort_by_score}

module _ {A : Type 0} where
  abbrev pub AtLeast : ℕ → Snapshot A → Type 0
  AtLeast n s = n ≤ s.score.score

  abbrev pub Sorted : List (Snapshot A) → Type 0
  Sorted [] = Unit {0}
  Sorted (s ∷ ss) = All (AtLeast s.score.score) ss × Sorted ss

  insert-All :
      (P : Snapshot A → Type 0) (s : Snapshot A) (ss : List (Snapshot A))
      → P s
      → All P ss
      → All P (insert s ss)
  insert-All P s [] p h = (p, tt)
  insert-All P s (t ∷ ts) p (q, h) = go (leb s.score.score t.score.score) (insert-All P s ts p h)
    where
      go : (b : Bool) → All P (insert s ts) → All P (if b then s ∷ t ∷ ts else t ∷ insert s ts)
      go true later = (p, (q, h))
      go false later = (q, later)

  pub sort-All :
      (P : Snapshot A → Type 0) (ss : List (Snapshot A)) → All P ss → All P (sort_by_score ss)
  sort-All P [] h = tt
  sort-All P (s ∷ ss) (p, h) = insert-All P s (sort_by_score ss) p (sort-All P ss h)

  insert-Sorted : (s : Snapshot A) (ss : List (Snapshot A)) → Sorted ss → Sorted (insert s ss)
  insert-Sorted s [] h = (tt, tt)
  insert-Sorted s (t ∷ ts) (a, h) = go (leb s.score.score t.score.score) refl (insert-Sorted s ts h)
    where
      go :
          (b : Bool)
          → leb s.score.score t.score.score ≡ b
          → Sorted (insert s ts)
          → Sorted (if b then s ∷ t ∷ ts else t ∷ insert s ts)
      go true e later =
          let le = leb→le s.score.score t.score.score e in
          (
            (
              le,
              All-imp (AtLeast t.score.score) (AtLeast s.score.score) (λ u g. omega (arith, le, g))
                  ts a,
            ),
            (a, h),
          )
      go false e later = (insert-All (AtLeast t.score.score) s ts (ground arith) a, later)

  pub sort-Sorted : (ss : List (Snapshot A)) → Sorted (sort_by_score ss)
  sort-Sorted [] = tt
  sort-Sorted (s ∷ ss) = insert-Sorted s (sort_by_score ss) (sort-Sorted ss)

  All-insert :
      (P : Snapshot A → Type 0) (s : Snapshot A) (ss : List (Snapshot A))
      → All P (insert s ss)
      → P s × All P ss
  All-insert P s [] (p, h) = (p, tt)
  All-insert P s (t ∷ ts) h = go (leb s.score.score t.score.score) (All-insert P s ts) h
    where
      go :
          (b : Bool)
          → (All P (insert s ts) → P s × All P ts)
          → All P (if b then s ∷ t ∷ ts else t ∷ insert s ts)
          → P s × All P (t ∷ ts)
      go true later (p, k) = (p, k)
      go false later (q, k) = let (p, r) = later k in (p, (q, r))

  -- What holds of all sorted snapshots holds of all.
  pub All-sort :
      (P : Snapshot A → Type 0) (ss : List (Snapshot A)) → All P (sort_by_score ss) → All P ss
  All-sort P [] h = tt
  All-sort P (s ∷ ss) h = let (p, k) = All-insert P s (sort_by_score ss) h in (p, All-sort P ss k)
