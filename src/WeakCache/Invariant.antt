-- ===== src/WeakCache/Invariant.antt =====
-- What holds of the cache between any two calls.
use conjure_rust_runtime.Prelude.{
  ℕ, zero, suc, ◌≤◌, ◌<◌, ◌≡◌, refl, sym, ap, ◌∙◌, subst, Bool-cases, Option, none, some,
  some-injective, List, [], ◌∷◌, length, get_elem?, ◌==◌, ==_iff, ◌⊎◌, inl, inr,
}
use conjure_rust_runtime.WeakCache.{LinkedHashMap, Cached, CachedValue, Inner, put, remove_at}
use conjure_rust_runtime.WeakCache.Entries.{Laws, find, Distinct}

pub data Has {A : Type 0} (a : A) : List A → Type 0 where
  here : {xs : List A} → Has a (a ∷ xs)
  there : {x : A} {xs : List A} → Has a xs → Has a (x ∷ xs)

pub Has-remove_at :
    {A : Type 0} (a : A) (n : ℕ) (xs : List A)
    → Has a xs
    → (get_elem? xs n ≡ some a) ⊎ Has a (remove_at n xs)
Has-remove_at a n [] h = elim h [ ]
Has-remove_at a zero (_ ∷ xs) here = inl refl
Has-remove_at a (suc n) (_ ∷ xs) here = inr here
Has-remove_at a zero (x ∷ xs) (there h) = inr h
Has-remove_at a (suc n) (x ∷ xs) (there h) = elim (Has-remove_at a n xs h) [
  | inl e ↦ inl e
  | inr k ↦ inr (there k)
]

-- The entry of `key` leads to a value of that key, which is in use, or whose evictor is due.
pub record Rooted {V : Type 0} (objects : ℕ → Option (Cached V)) (dying : List (ℕ × ℕ)) (key : ℕ)
    (c : CachedValue) : Type 0 where
  pub object : Cached V
  pub points : c.value ≡ c.id
  pub found : objects c.value ≡ some object
  pub same_key : object.key ≡ key
  pub kept : (0 < object.strong) ⊎ Has (key, c.id) dying

module _ {M V : Type 0} {map : LinkedHashMap M CachedValue} (laws : Laws map) where
  -- `n` bounds the number of values that were made.
  pub record Inv (n : ℕ) (w : Inner M V) : Type 0 where
    pub distinct : Distinct (laws.entries w.cache)
    pub bounded : length (laws.entries w.cache) ≤ w.capacity
    pub rooted :
        (k : ℕ) (c : CachedValue)
        → find k (laws.entries w.cache) ≡ some c
        → Rooted w.objects w.dying k c
    pub fresh : (i : ℕ) → w.next_id ≤ i → w.objects i ≡ none
    pub own_id : (i : ℕ) (o : Cached V) → w.objects i ≡ some o → o.id ≡ i
    pub counted : w.next_id ≤ n

-- An object that is written over one with its ID and its key, with handles.
pub Rooted-put :
    {V : Type 0} {objects : ℕ → Option (Cached V)} {dying : List (ℕ × ℕ)} {key : ℕ}
    {c : CachedValue} (o p : Cached V)
    → Rooted objects dying key c
    → ((i : ℕ) (o : Cached V) → objects i ≡ some o → o.id ≡ i)
    → objects p.id ≡ some o
    → o.key ≡ p.key
    → (0 < p.strong) ⊎ Has (p.key, p.id) dying
    → Rooted (put objects p) dying key c
Rooted-put {objects} {dying} {key} {c} o p r own e same k = elim (Bool-cases (c.value == p.id)) [
  | inr f ↦ record {
    object = r.object;
    points = r.points;
    found = rw f r.found;
    same_key = r.same_key;
    kept = r.kept;
  }
  | inl f ↦ record {
    object = p;
    points = r.points;
    found = rw f refl;
    same_key =
        sym same
        ∙ ap (λ (o : Cached _). o.key)
            (some-injective (sym e ∙ ap objects (sym ((==_iff c.value p.id).0 f)) ∙ r.found))
        ∙ r.same_key;
    kept = elim k [
      | inl s ↦ inl s
      | inr d ↦ inr (
          subst (λ (x : ℕ × ℕ). Has x dying)
            (λ i. (
              (sym same
                    ∙ ap (λ (o : Cached _). o.key)
                        (some-injective
                          (sym e ∙ ap objects (sym ((==_iff c.value p.id).0 f)) ∙ r.found))
                    ∙ r.same_key)
                  i,
              (sym ((==_iff c.value p.id).0 f) ∙ r.points) i,
            ))
            d)
    ];
  }
]

pub Rooted-dying :
    {V : Type 0} {objects : ℕ → Option (Cached V)} {dying : List (ℕ × ℕ)} {key : ℕ}
    {c : CachedValue} (x : ℕ × ℕ)
    → Rooted objects dying key c
    → Rooted objects (x ∷ dying) key c
Rooted-dying x r = record {
  object = r.object;
  points = r.points;
  found = r.found;
  same_key = r.same_key;
  kept = elim r.kept [ inl s ↦ inl s | inr d ↦ inr (there d) ];
}
