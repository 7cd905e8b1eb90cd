-- ===== src/Balanced/Polled.antt =====
-- Which of the nodes that are tried serves the request.
use conjure_rust_runtime.Prelude.{
  ℕ, All, ◌≤◌, ◌≡◌, refl, subst, Bool, true, false, Option, none, some, List, [], ◌∷◌, map,
  if◌then◌else◌, arith,
}
use conjure_rust_runtime.Balanced.{
  Snapshot, sort_by_score, poll_each, Float, TrackedNode, snapshots, snapshot_of, score, poll,
}
use conjure_rust_runtime.Balanced.Sorted.{AtLeast, Sorted, sort-Sorted, All-sort, sort-All}

-- The node is ready and none that is ready has a lower score; or no node is ready.
abbrev pub Best : {A : Type 0} → (A → Bool) → (A → ℕ) → Option A → List A → Type 0
Best ready score_of none nodes = All (λ n. ready n ≡ false) nodes
Best ready score_of (some best) nodes =
    (ready best ≡ true) × All (λ n. ready n ≡ true → score_of best ≤ score_of n) nodes

module _ {A : Type 0} (ready : A → Bool) (score_of : A → ℕ) where
  -- The score of a snapshot is that of its node.
  abbrev Current : Snapshot A → Type 0
  Current s = s.score.score ≡ score_of s.node

  -- The same of the nodes in snapshots.
  abbrev pub NotBefore : A → Snapshot A → Type 0
  NotBefore best s = ready s.node ≡ true → score_of best ≤ score_of s.node

  abbrev pub Unready : Snapshot A → Type 0
  Unready s = ready s.node ≡ false

  abbrev pub First : Option A → List (Snapshot A) → Type 0
  First none ss = All Unready ss
  First (some best) ss = (ready best ≡ true) × All (NotBefore best) ss

  First-after :
      (s : Snapshot A) (o : Option A) (ss : List (Snapshot A))
      → ready s.node ≡ false
      → First o ss
      → First o (s ∷ ss)
  First-after s none ss e h = (e, h)
  First-after s (some best) ss e (r, h) = (r, ((λ f. cc), h))

  no_earlier :
      (s : Snapshot A) (ss : List (Snapshot A))
      → Current s
      → All Current ss
      → All (AtLeast s.score.score) ss
      → All (NotBefore s.node) ss
  no_earlier s [] c cs a = tt
  no_earlier s (t ∷ ts) c (d, cs) (le, a) = (
    (λ f. subst (λ n. score_of s.node ≤ n) d (subst (λ n. n ≤ t.score.score) c le)),
    no_earlier s ts c cs a,
  )

  poll_each-First :
      (ss : List (Snapshot A)) → All Current ss → Sorted ss → First (poll_each ready ss) ss
  unfolding poll_each
  poll_each-First [] cs h = tt
  poll_each-First (s ∷ ss) (c, cs) (a, h) = go (ready s.node) refl (poll_each-First ss cs h)
    where
      go :
          (b : Bool)
          → ready s.node ≡ b
          → First (poll_each ready ss) ss
          → First (if b then some s.node else poll_each ready ss) (s ∷ ss)
      go true e later = (e, ((λ f. omega arith), no_earlier s ss c cs a))
      go false e later = First-after s (poll_each ready ss) ss e later

module _ {F : Type 0} (float : Float F) where
  abbrev pub score_of : TrackedNode F → ℕ
  score_of n = (score float n).score

  snapshots_current :
      (nodes : List (TrackedNode F))
      → (P : Snapshot (TrackedNode F) → Type 0) → ((n : TrackedNode F) → P (snapshot_of float n))
      → All P (map (snapshot_of float) nodes)
  snapshots_current [] P f = tt
  snapshots_current (n ∷ ns) P f = (f n, snapshots_current ns P f)

  of_nodes :
      (P : Snapshot (TrackedNode F) → Type 0) (nodes : List (TrackedNode F))
      → All P (map (snapshot_of float) nodes)
      → All (λ n. P (snapshot_of float n)) nodes
  of_nodes P [] h = tt
  of_nodes P (n ∷ ns) (p, h) = (p, of_nodes P ns h)

  -- A poll gives a node that is ready, and no node that is ready has a better score; if it is pending, then no node
  -- is ready.
  pub poll-Best :
      (ready : TrackedNode F → Bool) (nodes : List (TrackedNode F))
      → Best ready score_of (poll float ready nodes) nodes
  unfolding poll snapshots
  poll-Best ready nodes = go (poll_each ready (sort_by_score (map (snapshot_of float) nodes))) (
      poll_each-First ready score_of (sort_by_score (map (snapshot_of float) nodes))
        (sort-All (Current ready score_of) (map (snapshot_of float) nodes)
          (snapshots_current nodes (Current ready score_of) (λ n. refl)))
        (sort-Sorted (map (snapshot_of float) nodes)))
    where
      go :
          (o : Option (TrackedNode F))
          → First ready score_of o (sort_by_score (map (snapshot_of float) nodes))
          → Best ready score_of o nodes
      go none h =
          of_nodes (Unready ready score_of) nodes
            (All-sort (Unready ready score_of) (map (snapshot_of float) nodes) h)
      go (some best) (r, h) = (
        r,
        of_nodes (NotBefore ready score_of best) nodes
            (All-sort (NotBefore ready score_of best) (map (snapshot_of float) nodes) h),
      )
