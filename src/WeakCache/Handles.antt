-- ===== src/WeakCache/Handles.antt =====
-- To refresh an entry, and to count handles, keeps the invariant.
use conjure_rust_runtime.Prelude.{
  ℕ, zero, suc, ◌≤◌, ◌<◌, ◌≡◌, refl, sym, ap, ◌∙◌, subst, Bool-cases, Option, none, some,
  Option-cases, some-injective, List, [], ◌∷◌, length, length-append, ◌==◌, ==_iff, if◌then◌else◌,
  arith, ◌⊎◌, inl, inr,
}
use conjure_rust_runtime.WeakCache.{
  LinkedHashMap, Cached, CachedValue, Inner, put, retain, clone, release, drop_handle,
}
use conjure_rust_runtime.WeakCache.Entries.{
  Laws, find, delete, refresh, Distinct, find-put_back, put_back-Distinct,
}
use conjure_rust_runtime.WeakCache.Insert.{Entry}
use conjure_rust_runtime.WeakCache.Invariant.{Has, Rooted, Rooted-put, Rooted-dying, Inv}

pub delete-shorter : (k : ℕ) (xs : List Entry) → length (delete k xs) ≤ length xs
delete-shorter k [] = omega arith
delete-shorter k ((j, a) ∷ xs) = ground (arith, delete-shorter k xs)

delete-shortens :
    (k : ℕ) (c : CachedValue) (xs : List Entry)
    → find k xs ≡ some c
    → suc (length (delete k xs)) ≤ length xs
delete-shortens k c [] h = cc
delete-shortens k c ((j, a) ∷ xs) h = elim (Bool-cases (k == j)) [
  | inl e ↦ rw e (omega (arith, delete-shorter k xs))
  | inr e ↦ rw e (omega (arith, delete-shortens k c xs (rw e at h)))
]

pub refresh-same : (k j : ℕ) (xs : List Entry) → find j (refresh k xs (find k xs)) ≡ find j xs
refresh-same k j xs = elim (Option-cases (find k xs)) [
  | inl e ↦ rw e refl
  | inr (c, e) ↦ rw e (find-put_back j k c xs ∙ same c e)
]
  where
    same :
        (c : CachedValue) → find k xs ≡ some c → (if j == k then some c else find j xs) ≡ find j xs
    same c e = elim (Bool-cases (j == k)) [
      | inl f ↦ rw f (sym e ∙ ap (λ i. find i xs) (sym ((==_iff j k).0 f)))
      | inr f ↦ rw f refl
    ]

refresh-Distinct :
    (k : ℕ) (xs : List Entry) (o : Option CachedValue) → Distinct xs → Distinct (refresh k xs o)
refresh-Distinct k xs none d = d
refresh-Distinct k xs (some c) d = put_back-Distinct k c xs d

refresh-length : (k : ℕ) (xs : List Entry) → length (refresh k xs (find k xs)) ≤ length xs
refresh-length k xs = elim (Option-cases (find k xs)) [
  | inl e ↦ rw e (omega arith)
  | inr (c, e) ↦
      rw e (omega (arith, length-append (delete k xs) ((k, c) ∷ []), delete-shortens k c xs e))
]

module _ {M V : Type 0} {map : LinkedHashMap M CachedValue} (laws : Laws map) (n : ℕ) where
  pub refreshed-Inv :
      (w : Inner M V) (k : ℕ)
      → Inv laws n w
      → Inv laws n (record w { cache = (map.get_refresh k w.cache).0 })
  refreshed-Inv w k i = record {
    distinct =
        subst Distinct (sym (laws.entries-get_refresh k w.cache))
          (refresh-Distinct k (laws.entries w.cache) _ i.distinct);
    bounded = omega (
      arith,
      ap length (laws.entries-get_refresh k w.cache),
      refresh-length k (laws.entries w.cache),
      i.bounded,
    );
    rooted = λ j c h. i.rooted j c (
        sym (refresh-same k j (laws.entries w.cache))
        ∙ sym (ap (find j) (laws.entries-get_refresh k w.cache))
        ∙ h);
    fresh = i.fresh;
    own_id = i.own_id;
    counted = i.counted;
  }

  pub put-Inv :
      (w : Inner M V) (o p : Cached V) (dying : List (ℕ × ℕ))
      → Inv laws n w
      → w.objects p.id ≡ some o
      → o.key ≡ p.key
      → (0 < p.strong) ⊎ Has (p.key, p.id) dying
      → ((k : ℕ) (c : CachedValue) → Rooted w.objects w.dying k c → Rooted w.objects dying k c)
      → Inv laws n (record w { objects = put w.objects p; dying = dying })
  put-Inv w o p dying i e same kept more = record {
    distinct = i.distinct;
    bounded = i.bounded;
    rooted = λ k c h. Rooted-put o p (more k c (i.rooted k c h)) i.own_id e same kept;
    fresh = λ j h. elim (Bool-cases (j == p.id)) [
      | inl f ↦ absurd (some_none (sym (i.fresh j h) ∙ ap w.objects ((==_iff j p.id).0 f) ∙ e))
      | inr f ↦ rw f (i.fresh j h)
    ];
    own_id = λ j x h. elim (Bool-cases (j == p.id)) [
      | inl f ↦
          ap (λ (x : Cached V). x.id) (some-injective (sym (rw f at h))) ∙ sym ((==_iff j p.id).0 f)
      | inr f ↦ i.own_id j x (rw f at h)
    ];
    counted = i.counted;
  }
    where
      some_none : {x : Cached V} → none ≡ some x → ⊥
      some_none h = cc

  retain-Inv :
      (w : Inner M V) (o : Cached V) (s : ℕ)
      → Inv laws n w
      → w.objects o.id ≡ some o
      → Inv laws n (retain w o s)
  unfolding retain
  retain-Inv w o zero i e = i
  retain-Inv w o (suc s) i e =
      put-Inv w o (record o { strong = suc (suc s) }) w.dying i e refl (inl (omega arith))
        (λ k c r. r)

  release-Inv :
      (w : Inner M V) (o : Cached V) (s : ℕ)
      → Inv laws n w
      → w.objects o.id ≡ some o
      → Inv laws n (release w o s)
  unfolding release
  release-Inv w o zero i e = i
  release-Inv w o (suc zero) i e =
      put-Inv w o (record o { strong = 0 }) ((o.key, o.id) ∷ w.dying) i e refl (inr Has.here)
        (λ k c r. Rooted-dying (o.key, o.id) r)
  release-Inv w o (suc (suc s)) i e =
      put-Inv w o (record o { strong = suc s }) w.dying i e refl (inl (omega arith)) (λ k c r. r)

  pub own :
      (w : Inner M V)
      → Inv laws n w
      → (i : ℕ) (o : Cached V) → w.objects i ≡ some o
      → w.objects o.id ≡ some o
  own w v i o e = ap w.objects (v.own_id i o e) ∙ e

  pub clone-Inv : (w : Inner M V) (i : ℕ) → Inv laws n w → Inv laws n (clone w i)
  unfolding clone
  clone-Inv w i v = elim (Option-cases (w.objects i)) [
    | inl e ↦ rw (e, clone) v
    | inr (o, e) ↦ rw (e, clone) (retain-Inv w o o.strong v (own w v i o e))
  ]

  pub drop_handle-Inv : (w : Inner M V) (i : ℕ) → Inv laws n w → Inv laws n (drop_handle w i)
  unfolding drop_handle
  drop_handle-Inv w i v = elim (Option-cases (w.objects i)) [
    | inl e ↦ rw (e, drop_handle) v
    | inr (o, e) ↦ rw (e, drop_handle) (release-Inv w o o.strong v (own w v i o e))
  ]
