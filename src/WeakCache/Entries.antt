-- ===== src/WeakCache/Entries.antt =====
-- The entries of a linked hash map, from the front to the back.
use conjure_rust_runtime.Prelude.{
  ℕ, ◌≡◌, refl, ap, ◌∙◌, true, false, Bool-cases, Option, none, some, List, [], ◌∷◌, ◌++◌, length,
  ◌==◌, ==_iff, if◌then◌else◌, arith, inl, inr,
}
use conjure_rust_runtime.WeakCache.{LinkedHashMap}

module _ {A : Type 0} where
  abbrev pub find : ℕ → List (ℕ × A) → Option A
  find k [] = none
  find k ((j, a) ∷ xs) = if k == j then some a else find k xs

  abbrev pub delete : ℕ → List (ℕ × A) → List (ℕ × A)
  delete k [] = []
  delete k ((j, a) ∷ xs) = if k == j then delete k xs else (j, a) ∷ delete k xs

  abbrev pub tail : List (ℕ × A) → List (ℕ × A)
  tail [] = []
  tail (x ∷ xs) = xs

  abbrev pub put_back : ℕ → A → List (ℕ × A) → List (ℕ × A)
  put_back k a xs = delete k xs ++ (k, a) ∷ []

  abbrev pub refresh : ℕ → List (ℕ × A) → Option A → List (ℕ × A)
  refresh k xs none = xs
  refresh k xs (some a) = put_back k a xs

  abbrev pub Distinct : List (ℕ × A) → Type 0
  Distinct [] = Unit {0}
  Distinct ((k, a) ∷ xs) = (find k xs ≡ none) × Distinct xs

  pub find-delete : (k : ℕ) (xs : List (ℕ × A)) → find k (delete k xs) ≡ none
  find-delete k [] = refl
  find-delete k ((j, a) ∷ xs) = ground (arith, find-delete k xs)

  pub find-delete_other :
      (k l : ℕ) (xs : List (ℕ × A)) → (k == l) ≡ false → find k (delete l xs) ≡ find k xs
  find-delete_other k l [] h = refl
  find-delete_other k l ((j, a) ∷ xs) h = ground (arith, find-delete_other k l xs h)

  pub find-append :
      (k : ℕ) (xs ys : List (ℕ × A)) → find k xs ≡ none → find k (xs ++ ys) ≡ find k ys
  find-append k [] ys h = refl
  find-append k ((j, a) ∷ xs) ys h = ground (arith, find-append k xs ys)

  pub find-append_other :
      (k j : ℕ) (a : A) (xs : List (ℕ × A))
      → (k == j) ≡ false
      → find k (xs ++ (j, a) ∷ []) ≡ find k xs
  find-append_other k j a [] h = rw h refl
  find-append_other k j a ((i, b) ∷ xs) h = ground (arith, find-append_other k j a xs h)

  -- What is found after an entry was put to the back.
  pub find-put_back :
      (k j : ℕ) (a : A) (xs : List (ℕ × A))
      → find k (put_back j a xs) ≡ (if k == j then some a else find k xs)
  find-put_back k j a xs = elim (Bool-cases (k == j)) [
    | inl e ↦ go (((==_iff k j).0 e)) e
    | inr e ↦ rw e (find-append_other k j a (delete j xs) e ∙ find-delete_other k j xs e)
  ]
    where
      go :
          k ≡ j
          → (k == j) ≡ true
          → find k (put_back j a xs) ≡ (if k == j then some a else find k xs)
      go e h =
          rw h (find-append k (delete j xs) ((j, a) ∷ []) (rw e (find-delete j xs)) ∙ rw h refl)

  delete-Distinct : (k : ℕ) (xs : List (ℕ × A)) → Distinct xs → Distinct (delete k xs)
  delete-Distinct k [] d = tt
  delete-Distinct k ((j, a) ∷ xs) (n, d) = elim (Bool-cases (k == j)) [
    | inl e ↦ rw e (delete-Distinct k xs d)
    | inr e ↦ rw e (find-delete_other j k xs (ground arith) ∙ n, delete-Distinct k xs d)
  ]

  snoc-Distinct :
      (k : ℕ) (a : A) (xs : List (ℕ × A))
      → find k xs ≡ none
      → Distinct xs
      → Distinct (xs ++ (k, a) ∷ [])
  snoc-Distinct k a [] n d = (refl, tt)
  snoc-Distinct k a ((j, b) ∷ xs) n (m, d) = elim (Bool-cases (k == j)) [
    | inl e ↦ absurd (ground (arith, e, n))
    | inr e ↦ (
      find-append_other j k a xs (ground arith) ∙ m,
      snoc-Distinct k a xs (ground (arith, e, n)) d,
    )
  ]

  pub delete_all-Distinct : (k : ℕ) (xs : List (ℕ × A)) → Distinct xs → Distinct (delete k xs)
  delete_all-Distinct = delete-Distinct

  pub put_back-Distinct :
      (k : ℕ) (a : A) (xs : List (ℕ × A)) → Distinct xs → Distinct (put_back k a xs)
  put_back-Distinct k a xs d =
      snoc-Distinct k a (delete k xs) (find-delete k xs) (delete-Distinct k xs d)

  -- What is found behind the front was found before.
  pub find-tail :
      (k : ℕ) (a : A) (xs : List (ℕ × A))
      → Distinct xs
      → find k (tail xs) ≡ some a
      → find k xs ≡ some a
  find-tail k a [] d h = h
  find-tail k a ((j, b) ∷ xs) (n, d) h = elim (Bool-cases (k == j)) [
    | inl e ↦ absurd (differ (ap (λ i. find i xs) ((==_iff k j).0 e) ∙ n) h)
    | inr e ↦ rw e h
  ]
    where
      differ : {o : Option A} → o ≡ none → o ≡ some a → ⊥
      differ e f = cc

  pub tail-Distinct : (xs : List (ℕ × A)) → Distinct xs → Distinct (tail xs)
  tail-Distinct [] d = tt
  tail-Distinct (x ∷ xs) d = d.1

-- What is relied on of `LinkedHashMap`: an entry is inserted at the back, and `get_refresh` moves it
-- there.
pub record Laws {M A : Type 0} (map : LinkedHashMap M A) : Type 0 where
  pub entries : M → List (ℕ × A)
  pub entries-new : entries map.new ≡ []
  pub len_lem : (m : M) → map.len m ≡ length (entries m)
  pub get_lem : (k : ℕ) (m : M) → map.get k m ≡ find k (entries m)
  pub get_refresh_lem : (k : ℕ) (m : M) → (map.get_refresh k m).1 ≡ find k (entries m)
  pub entries-get_refresh :
      (k : ℕ) (m : M) → entries (map.get_refresh k m).0 ≡ refresh k (entries m) (find k (entries m))
  pub entries-insert :
      (k : ℕ) (a : A) (m : M) → entries (map.insert k a m) ≡ put_back k a (entries m)
  pub entries-remove : (k : ℕ) (m : M) → entries (map.remove k m) ≡ delete k (entries m)
  pub entries-pop_front : (m : M) → entries (map.pop_front m) ≡ tail (entries m)
