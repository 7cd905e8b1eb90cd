-- ===== src/WeakCache/Steps.antt =====
-- Every step of the cache keeps its invariant.
use conjure_rust_runtime.Prelude.{
  ℕ, suc, ◌+◌, ◌<◌, ◌≡◌, refl, sym, ap, ◌∙◌, subst, false, false≢true, Bool-cases, some,
  Option-cases, some-injective, List, [], ◌∷◌, length, get_elem?, ◌==◌, ==_iff, arith, ◌⊎◌, inl,
  inr,
}
use conjure_rust_runtime.WeakCache.{
  LinkedHashMap, CachedValue, Inner, Event, gets, clones, drops, evicts, remove_at, usize_mod, new,
  get, drop_evictor, step, run,
}
use conjure_rust_runtime.WeakCache.Entries.{
  Laws, find, delete, Distinct, find-delete, find-delete_other, delete_all-Distinct,
}
use conjure_rust_runtime.WeakCache.Invariant.{Has, Has-remove_at, Rooted, Inv}
use conjure_rust_runtime.WeakCache.Handles.{
  delete-shorter, refreshed-Inv, clone-Inv, drop_handle-Inv,
}
use conjure_rust_runtime.WeakCache.Made.{none-some, answer-Inv, more-Inv}

module _ {M : Type 0} {map : LinkedHashMap M CachedValue} (laws : Laws map) where
  drop_evictor-entries :
      (m : M) (key id : ℕ)
      → ((c : CachedValue) × (find key (laws.entries m) ≡ some c)
          × (c.id ≡ id)
          × (laws.entries (drop_evictor map m key id) ≡ delete key (laws.entries m)))
        ⊎ (((c : CachedValue) → find key (laws.entries m) ≡ some c → (c.id == id) ≡ false)
            × (drop_evictor map m key id ≡ m))
  unfolding drop_evictor
  drop_evictor-entries m key id = elim (Option-cases (find key (laws.entries m))) [
    | inl e ↦
        inr
          ((λ c h. absurd (none-some (sym e ∙ h))), rw (laws.get_lem key m ∙ e, drop_evictor) refl)
    | inr (c, e) ↦ elim (Bool-cases (c.id == id)) [
      | inl f ↦ inl (
        c,
        e,
        (==_iff c.id id).0 f,
        rw (laws.get_lem key m ∙ e, drop_evictor, f) (laws.entries-remove key m),
      )
      | inr f ↦ inr (
        (λ d h. ap (λ (x : CachedValue). x.id == id) (some-injective (sym h ∙ e)) ∙ f),
        rw (laws.get_lem key m ∙ e, drop_evictor, f) refl,
      )
    ]
  ]

module _ {M V : Type 0} {map : LinkedHashMap M CachedValue} (laws : Laws map) where
  -- The entry of the evictor that ran is gone, and those of the others are as before.
  evict-Inv :
      (n : ℕ) (w : Inner M V) (i key id : ℕ)
      → get_elem? w.dying i ≡ some (key, id)
      → Inv laws n w
      → Inv laws n
          (record w { cache = drop_evictor map w.cache key id; dying = remove_at i w.dying })
  evict-Inv n w i key id due v = elim (drop_evictor-entries laws w.cache key id) [
    | inl (c, e, same, f) ↦ record {
      distinct = subst Distinct (sym f) (delete_all-Distinct key (laws.entries w.cache) v.distinct);
      bounded = omega (arith, ap length f, delete-shorter key (laws.entries w.cache), v.bounded);
      rooted = λ k d h. elim (Bool-cases (k == key)) [
        | inl g ↦ absurd (
            none-some (
              sym (find-delete key (laws.entries w.cache))
              ∙ sym (ap (find key) f)
              ∙ ap (λ j. find j (laws.entries (drop_evictor map w.cache key id)))
                  (sym ((==_iff k key).0 g))
              ∙ h))
        | inr g ↦ others k d (inl g) (
            v.rooted k d
              (sym (find-delete_other k key (laws.entries w.cache) g) ∙ sym (ap (find k) f) ∙ h))
      ];
      fresh = v.fresh;
      own_id = v.own_id;
      counted = v.counted;
    }
    | inr (differs, f) ↦ record {
      distinct = subst (λ m. Distinct (laws.entries m)) (sym f) v.distinct;
      bounded = omega (arith, ap (λ m. length (laws.entries m)) f, v.bounded);
      rooted = λ k d h.
          let found = sym (ap (λ m. find k (laws.entries m)) f) ∙ h in
          others k d
            (elim (Bool-cases (k == key)) [
              | inl g ↦ inr (
                  differs d
                    (ap (λ j. find j (laws.entries w.cache)) (sym ((==_iff k key).0 g)) ∙ found))
              | inr g ↦ inl g
            ])
            (v.rooted k d found);
      fresh = v.fresh;
      own_id = v.own_id;
      counted = v.counted;
    }
  ]
    where
      still :
          (k d : ℕ)
          → ((k == key) ≡ false) ⊎ ((d == id) ≡ false)
          → Has (k, d) w.dying
          → Has (k, d) (remove_at i w.dying)
      still k d other h = elim (Has-remove_at (k, d) i w.dying h) [
        | inl e ↦
            let same = some-injective (sym e ∙ due) in
            absurd (elim other [
              | inl g ↦ false≢true (sym g ∙ (==_iff k key).1 (ap (λ (x : ℕ × ℕ). x.0) same))
              | inr g ↦ false≢true (sym g ∙ (==_iff d id).1 (ap (λ (x : ℕ × ℕ). x.1) same))
            ])
        | inr r ↦ r
      ]

      others :
          (k : ℕ) (d : CachedValue)
          → ((k == key) ≡ false) ⊎ ((d.id == id) ≡ false)
          → Rooted w.objects w.dying k d
          → Rooted w.objects (remove_at i w.dying) k d
      others k d other r = record {
        object = r.object;
        points = r.points;
        found = r.found;
        same_key = r.same_key;
        kept = elim r.kept [ inl s ↦ inl s | inr h ↦ inr (still k d.id other h) ];
      }

  step-Inv :
      (n : ℕ) (w : Inner M V) (e : Event V)
      → Inv laws n w
      → suc n < usize_mod
      → Inv laws (suc n) (step map w e)
  unfolding step get
  step-Inv n w (gets key made) i small =
      answer-Inv laws n (record w { cache = (map.get_refresh key w.cache).0 }) key made
        (map.get_refresh key w.cache).1 _ refl (refreshed-Inv laws n w key i) small
  step-Inv n w (clones j) i small = more-Inv laws n _ (clone-Inv laws n w j i)
  step-Inv n w (drops j) i small = more-Inv laws n _ (drop_handle-Inv laws n w j i)
  step-Inv n w (evicts j) i small = elim (Option-cases (get_elem? w.dying j)) [
    | inl e ↦ rw (e, step) (more-Inv laws n w i)
    | inr ((key, id), e) ↦ rw (e, step) (more-Inv laws n _ (evict-Inv n w j key id e i))
  ]

  run_from :
      (es : List (Event V)) (n : ℕ) (w : Inner M V)
      → Inv laws n w
      → n + length es < usize_mod
      → Inv laws (n + length es) (run map w es)
  unfolding run
  run_from [] n w i small = subst (λ k. Inv laws k w) (omega arith) i
  run_from (e ∷ es) n w i small =
      subst (λ k. Inv laws k (run map (step map w e) es)) (omega arith)
        (run_from es (suc n) (step map w e) (step-Inv n w e i (omega arith)) (omega arith))

  -- After any calls on a new cache, fewer than 2^64: no key has two entries, there are not more entries
  -- than the capacity, and every entry leads to a value of its key that is in use or whose evictor
  -- is due; so once the evictors have run, the cache holds no entry for a value that is gone.
  pub run-Inv :
      (capacity : ℕ) (es : List (Event V))
      → length es < usize_mod
      → Inv laws (length es) (run map (new map capacity) es)
  unfolding new
  run-Inv capacity es small =
      subst (λ n. Inv laws n (run map (new map capacity) es)) (omega arith)
        (run_from es 0 (new map capacity)
          (record {
            distinct = subst Distinct (sym laws.entries-new) tt;
            bounded = omega (arith, ap length laws.entries-new);
            rooted = λ k c h. absurd (none-some (sym (ap (find k) laws.entries-new) ∙ h));
            fresh = λ i h. refl;
            own_id = λ i o h. cc;
            counted = omega arith;
          })
          (omega arith))
