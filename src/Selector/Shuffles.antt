-- ===== src/Selector/Shuffles.antt =====
-- The order of the nodes stays a permutation, so that `get` never runs out of range.
use conjure_rust_runtime.Prelude.{
  ℕ, zero, suc, ◌+◌, ◌≤◌, ◌<◌, ◌≡◌, refl, sym, ap, ◌∙◌, Bool-cases, some, some-injective, ◌>>=◌,
  List, [], ◌∷◌, length, get_elem?, ltb, ◌==◌, ==_iff, ==_refl, if◌then◌else◌, arith, inl, inr,
}
use conjure_rust_runtime.Selector.{
  ReshufflingNodes, Shuffle, range, with_entropy, reshuffle_if_necessary, get,
}

abbrev pub count : ℕ → List ℕ → ℕ
count j [] = 0
count j (x ∷ xs) = (if j == x then 1 else 0) + count j xs

-- What is relied on of the random order.
abbrev pub Permutes : Shuffle → Type 0
Permutes entropy =
    (xs : List ℕ)
    → (length (entropy xs) ≡ length xs) × ((j : ℕ) → count j (entropy xs) ≡ count j xs)

-- Each of the numbers below `n`, once.
pub record IsShuffle (n : ℕ) (xs : List ℕ) : Type 0 where
  pub size : length xs ≡ n
  pub once : (j : ℕ) → count j xs ≡ (if ltb j n then 1 else 0)

length-range : (i n : ℕ) → length (range i n) ≡ n
length-range i zero = refl
length-range i (suc n) = ap suc (length-range (suc i) n)

count-range :
    (j i n : ℕ) → count j (range i n) ≡ (if ltb j i then 0 else if ltb j (i + n) then 1 else 0)
count-range j i zero = ground arith
count-range j i (suc n) = ground (arith, count-range j (suc i) n)

range-IsShuffle : (n : ℕ) → IsShuffle n (range 0 n)
range-IsShuffle n = record {
  size = length-range 0 n;
  once = λ j. ground (arith, count-range j 0 n);
}

permuted-IsShuffle :
    (entropy : Shuffle) (n : ℕ) (xs : List ℕ)
    → Permutes entropy
    → IsShuffle n xs
    → IsShuffle n (entropy xs)
permuted-IsShuffle entropy n xs p s = record {
  size = (p xs).0 ∙ s.size;
  once = λ j. (p xs).1 j ∙ s.once j;
}

count-found : (j i : ℕ) (xs : List ℕ) → get_elem? xs i ≡ some j → 1 ≤ count j xs
count-found j i [] h = cc
count-found j zero (x ∷ xs) h = rw (some-injective h, ==_refl j) (omega arith)
count-found j (suc i) (x ∷ xs) h = omega (arith, count-found j i xs h)

found_below :
    {A : Type 0} (i : ℕ) (xs : List A) → i < length xs → (x : A) × (get_elem? xs i ≡ some x)
found_below i [] h = absurd (omega arith)
found_below zero (x ∷ xs) h = (x, refl)
found_below (suc i) (x ∷ xs) h = found_below i xs (omega arith)

found_of_count :
    (j : ℕ) (xs : List ℕ) → 1 ≤ count j xs → (i : ℕ) × (i < length xs) × (get_elem? xs i ≡ some j)
found_of_count j [] h = absurd (omega arith)
found_of_count j (x ∷ xs) h = elim (Bool-cases (j == x)) [
  | inl e ↦ (0, omega arith, ap some (sym ((==_iff j x).0 e)))
  | inr e ↦
      let (i, below, found) = found_of_count j xs (omega (arith, (rw e at h))) in
      (suc i, omega arith, found)
]

module _ {T : Type 0} where
  -- The order is one of all nodes.
  abbrev pub IsValid : ReshufflingNodes T → Type 0
  IsValid s = IsShuffle (length s.nodes) s.shuffle

  pub with_entropy-IsValid :
      (nodes : List T) (entropy : Shuffle) (jitter now : ℕ)
      → Permutes entropy
      → IsValid (with_entropy nodes entropy jitter now)
  unfolding with_entropy
  with_entropy-IsValid nodes entropy jitter now p =
      permuted-IsShuffle entropy (length nodes) (range 0 (length nodes)) p
        (range-IsShuffle (length nodes))

  reshuffle-IsValid :
      (s : ReshufflingNodes T) (entropy : Shuffle) (now loaded : ℕ)
      → Permutes entropy
      → IsValid s
      → IsValid (reshuffle_if_necessary s entropy now loaded)
        × ((reshuffle_if_necessary s entropy now loaded).nodes ≡ s.nodes)
  unfolding reshuffle_if_necessary
  reshuffle-IsValid s entropy now loaded p v = elim (Bool-cases (ltb now (s.start + loaded))) [
    | inl e ↦ rw e (v, refl)
    | inr e ↦ elim (Bool-cases (loaded == s.next_reshuffle_nanos)) [
      | inl f ↦ rw (e, f) (permuted-IsShuffle entropy (length s.nodes) s.shuffle p v, refl)
      | inr f ↦ rw (e, f) (v, refl)
    ]
  ]

  -- A valid order leads from every position to a node, and to every node from some position.
  pub record Reaches (s : ReshufflingNodes T) : Type 0 where
    pub in_range :
        (i : ℕ)
        → i < length s.nodes
        → (x : T) × ((get_elem? s.shuffle i >>= λ j. get_elem? s.nodes j) ≡ some x)
    pub complete :
        (j : ℕ)
        → j < length s.nodes
        → (i : ℕ) × (i < length s.nodes) × (get_elem? s.shuffle i ≡ some j)

  valid-Reaches : (s : ReshufflingNodes T) → IsValid s → Reaches s
  valid-Reaches s v = record {
    in_range = λ i h.
        let (j, e) = found_below i s.shuffle (omega (arith, v.size)) in
        let (x, f) = found_below j s.nodes (below j (v.once j) (count-found j i s.shuffle e)) in
        (x, rw e f);
    complete = λ j h.
        let (i, small, e) = found_of_count j s.shuffle (occurs j h (v.once j)) in
        (i, omega (arith, v.size), e);
  }
    where
      below :
          (j : ℕ)
          → count j s.shuffle ≡ (if ltb j (length s.nodes) then 1 else 0)
          → 1 ≤ count j s.shuffle
          → j < length s.nodes
      below j e h = ground arith

      occurs :
          (j : ℕ)
          → j < length s.nodes
          → count j s.shuffle ≡ (if ltb j (length s.nodes) then 1 else 0)
          → 1 ≤ count j s.shuffle
      occurs j h e = ground arith

  -- `get` keeps the nodes and the order valid, and finds a node for every index in range: it does not
  -- panic, whenever the nodes were last reshuffled and whatever the thread read.
  pub get-IsValid :
      (s : ReshufflingNodes T) (entropy : Shuffle) (now loaded idx : ℕ)
      → Permutes entropy
      → IsValid s
      → idx < length s.nodes
      → let r = get s entropy now loaded idx in
        IsValid r.0 × (r.0.nodes ≡ s.nodes) × Reaches r.0 × ((x : T) × (r.1 ≡ some x))
  unfolding get
  get-IsValid s entropy now loaded idx p v h =
      let (w, same) = reshuffle-IsValid s entropy now loaded p v in
      let reaches = valid-Reaches (reshuffle_if_necessary s entropy now loaded) w in
      (w, same, reaches, reaches.in_range idx (omega (arith, ap length same)))
