-- ===== src/WeakCache/Made.antt =====
-- To look a value up, and to make one, keeps the invariant.
use conjure_rust_runtime.Prelude.{
  ℕ, zero, suc, ◌<◌, ◌≡◌, refl, sym, ap, ◌∙◌, subst, Bool-cases, Option, none, some, some-injective,
  bind-some, ◌>>=◌, List, ◌++◌, ◌==◌, ==_iff, ==_refl, if◌then◌else◌, arith, inl, inr,
}
use conjure_rust_runtime.Errors.{Result, ok, err}
use conjure_rust_runtime.WeakCache.{
  LinkedHashMap, Cached, CachedValue, Inner, put, usize_mod, if_alive, upgrade, shrink, insert_new,
  answer,
}
use conjure_rust_runtime.WeakCache.Entries.{
  Laws, find, put_back, Distinct, find-put_back, put_back-Distinct,
}
use conjure_rust_runtime.WeakCache.Insert.{Newest, shrink-Newest, suffix-Distinct, find-suffix}
use conjure_rust_runtime.WeakCache.Invariant.{Rooted, Inv}
use conjure_rust_runtime.WeakCache.Handles.{put-Inv, own}

pub none-some : {A : Type 0} {x : A} → none ≡ some x → ⊥
none-some h = cc

-- A value that is put at a fresh address leaves the others where they are.
Rooted-fresh :
    {V : Type 0} {objects : ℕ → Option (Cached V)} {dying : List (ℕ × ℕ)} {key : ℕ}
    {c : CachedValue} (p : Cached V)
    → objects p.id ≡ none
    → Rooted objects dying key c
    → Rooted (put objects p) dying key c
Rooted-fresh {objects} {c} p h r = record {
  object = r.object;
  points = r.points;
  found = elim (Bool-cases (c.value == p.id)) [
    | inl f ↦ absurd (none-some (sym h ∙ ap objects (sym ((==_iff c.value p.id).0 f)) ∙ r.found))
    | inr f ↦ rw f r.found
  ];
  same_key = r.same_key;
  kept = r.kept;
}

module _ {M V : Type 0} {map : LinkedHashMap M CachedValue} (laws : Laws map) where
  -- The entries after an insertion.
  pub inserted_Newest :
      (w : Inner M V) (key : ℕ) (c : CachedValue)
      → Newest w.capacity (put_back key c (laws.entries w.cache)) (
          laws.entries
            (shrink map w.capacity (map.len (map.insert key c w.cache)) (map.insert key c w.cache)))
  inserted_Newest w key c =
      subst
        (λ xs. Newest w.capacity xs (
          laws.entries (
            shrink map w.capacity (map.len (map.insert key c w.cache)) (map.insert key c w.cache))))
        (laws.entries-insert key c w.cache)
        (shrink-Newest map laws w.capacity (map.len (map.insert key c w.cache))
          (map.insert key c w.cache) (omega (arith, laws.len_lem (map.insert key c w.cache))))

  insert-Inv :
      (n : ℕ) (w : Inner M V) (key : ℕ) (v : V)
      → Inv laws n w
      → suc n < usize_mod
      → Inv laws (suc n) (insert_new map w key (ok v)).0
  unfolding insert_new
  insert-Inv n w key v i small = record {
    distinct = suffix-Distinct newest.evicted _ whole;
    bounded = newest.within;
    rooted = λ k c h. rooted k c (
        sym (find-put_back k key fresh_value (laws.entries w.cache))
        ∙ ap (find k) newest.split
        ∙ find-suffix k c newest.evicted _ whole h);
    fresh = λ j h. elim (Bool-cases (j == w.next_id)) [
      | inl f ↦ absurd (ground (arith, i.counted, (==_iff j w.next_id).0 f))
      | inr f ↦ rw f (i.fresh j (omega (arith, i.counted)))
    ];
    own_id = λ j x h. elim (Bool-cases (j == w.next_id)) [
      | inl f ↦
          ap (λ (x : Cached V). x.id) (some-injective (sym (rw f at h)))
          ∙ sym ((==_iff j w.next_id).0 f)
      | inr f ↦ i.own_id j x (rw f at h)
    ];
    counted = omega (arith, i.counted);
  }
    where
      fresh_value : CachedValue
      fresh_value = record { value = w.next_id; id = w.next_id }

      fresh_object : Cached V
      fresh_object = record { value = v; key = key; id = w.next_id; strong = 1 }

      newest : Newest w.capacity (put_back key fresh_value (laws.entries w.cache)) (
          laws.entries (
            shrink map w.capacity
              (map.len (map.insert key fresh_value w.cache))
              (map.insert key fresh_value w.cache)))
      newest = inserted_Newest w key fresh_value

      whole : Distinct (
          newest.evicted
          ++ laws.entries (
              shrink map w.capacity
                (map.len (map.insert key fresh_value w.cache))
                (map.insert key fresh_value w.cache)))
      whole =
          subst Distinct newest.split
            (put_back-Distinct key fresh_value (laws.entries w.cache) i.distinct)

      rooted :
          (k : ℕ) (c : CachedValue)
          → (if k == key then some fresh_value else find k (laws.entries w.cache)) ≡ some c
          → Rooted (put w.objects fresh_object) w.dying k c
      rooted k c h = elim (Bool-cases (k == key)) [
        | inl f ↦
            subst (λ c. Rooted (put w.objects fresh_object) w.dying k c)
              (some-injective (rw f at h))
              (record {
                object = fresh_object;
                points = refl;
                found = rw (==_refl w.next_id) refl;
                same_key = sym ((==_iff k key).0 f);
                kept = inl (omega arith);
              })
        | inr f ↦
            Rooted-fresh fresh_object (i.fresh w.next_id (omega arith)) (i.rooted k c (rw f at h))
      ]

  pub more-Inv : (n : ℕ) (w : Inner M V) → Inv laws n w → Inv laws (suc n) w
  more-Inv n w i = record {
    distinct = i.distinct;
    bounded = i.bounded;
    rooted = i.rooted;
    fresh = i.fresh;
    own_id = i.own_id;
    counted = omega (arith, i.counted);
  }

  upgraded :
      (w : Inner M V) (found : Option CachedValue) (o : Cached V)
      → (found >>= upgrade w.objects) ≡ some o
      → (c : CachedValue) × (w.objects c.value ≡ some o)
  unfolding upgrade
  upgraded w found o h =
      let (c, e, f) = bind-some found (upgrade w.objects) h in
      let (p, g, a) = bind-some (w.objects c.value) (λ o. if_alive o o.strong) f in
      (c, g ∙ alive p p.strong a)
    where
      alive : (p : Cached V) (s : ℕ) → if_alive p s ≡ some o → some p ≡ some o
      alive p zero a = absurd (none-some a)
      alive p (suc s) a = a

  pub answer-Inv :
      (n : ℕ) (w : Inner M V) (key : ℕ) (made : Result V) (found : Option CachedValue)
      (o : Option (Cached V))
      → (found >>= upgrade w.objects) ≡ o
      → Inv laws n w
      → suc n < usize_mod
      → Inv laws (suc n) (answer map w key made o).0
  unfolding answer insert_new
  answer-Inv n w key made found (some o) h i small =
      let (c, e) = upgraded w found o h in
      more-Inv n _ (
        put-Inv laws n w o (record o { strong = suc o.strong }) w.dying i
          (own laws n w i c.value o e) refl (inl (omega arith)) (λ k c r. r))
  answer-Inv n w key (err e) found none h i small = more-Inv n w i
  answer-Inv n w key (ok v) found none h i small = insert-Inv n w key v i small
