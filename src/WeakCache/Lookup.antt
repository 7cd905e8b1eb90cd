-- ===== src/WeakCache/Lookup.antt =====
-- What `get` returns, and what it does to the order of the entries.
use conjure_rust_runtime.Prelude.{
  ℕ, zero, suc, ◌<◌, ◌≡◌, refl, sym, ap, ◌∙◌, subst, Option, none, some, bind-some, ◌>>=◌, List, [],
  ◌∷◌, ◌++◌, ==_refl, arith,
}
use conjure_rust_runtime.Errors.{Error, Result, ok, err}
use conjure_rust_runtime.WeakCache.{
  LinkedHashMap, Cached, CachedValue, Inner, put, if_alive, upgrade, insert_new, answer, get,
}
use conjure_rust_runtime.WeakCache.Entries.{Laws, find, delete, put_back, refresh}
use conjure_rust_runtime.WeakCache.Insert.{Entry, Newest}
use conjure_rust_runtime.WeakCache.Made.{inserted_Newest}

delete-delete : (k : ℕ) (xs : List Entry) → delete k (delete k xs) ≡ delete k xs
delete-delete k [] = refl
delete-delete k ((j, a) ∷ xs) = ground (arith, delete-delete k xs)

delete-snoc :
    (k : ℕ) (c : CachedValue) (xs : List Entry) → delete k (xs ++ (k, c) ∷ []) ≡ delete k xs
delete-snoc k c [] = rw (==_refl k) refl
delete-snoc k c ((j, a) ∷ xs) = ground (arith, delete-snoc k c xs)

put_back-refresh :
    (k : ℕ) (c : CachedValue) (xs : List Entry) (o : Option CachedValue)
    → put_back k c (refresh k xs o) ≡ put_back k c xs
put_back-refresh k c xs none = refl
put_back-refresh k c xs (some d) =
    ap (λ ys. ys ++ (k, c) ∷ []) (delete-snoc k d (delete k xs) ∙ delete-delete k xs)

module _ {M V : Type 0} {map : LinkedHashMap M CachedValue} (laws : Laws map) where
  -- The value of the key that the cache still holds.
  abbrev pub held : Inner M V → ℕ → Option (Cached V)
  held w key = find key (laws.entries w.cache) >>= upgrade w.objects

  pub data Got (w : Inner M V) (key : ℕ) (made : Result V) (r : Inner M V × Result ℕ) : Type 0 where
    again :
        (c : CachedValue) (o : Cached V)
        → find key (laws.entries w.cache) ≡ some c
        → w.objects c.value ≡ some o
        → 0 < o.strong
        → r.1 ≡ ok o.id
        → r.0.objects ≡ put w.objects (record o { strong = suc o.strong })
        → laws.entries r.0.cache ≡ put_back key c (laws.entries w.cache)
        → Got w key made r
    fresh :
        (v : V)
        → held w key ≡ none
        → made ≡ ok v
        → r.1 ≡ ok w.next_id
        → r.0.objects ≡ put w.objects (record { value = v; key = key; id = w.next_id; strong = 1 })
        → Newest w.capacity
            (put_back key (record { value = w.next_id; id = w.next_id }) (laws.entries w.cache))
            (laws.entries r.0.cache)
        → Got w key made r
    refused :
        (e : Error)
        → held w key ≡ none
        → made ≡ err e
        → r.1 ≡ err e
        → r.0.objects ≡ w.objects
        → Got w key made r

  alive :
      (p o : Cached V) (s : ℕ)
      → p.strong ≡ s
      → if_alive p s ≡ some o
      → (0 < p.strong) × (some p ≡ some o)
  alive p o zero e a = cc
  alive p o (suc s) e a = (omega (arith, e), a)

  answer-Got :
      (w : Inner M V) (key : ℕ) (made : Result V) (o : Option (Cached V))
      → held w key ≡ o
      → Got w key made
          (answer map (record w { cache = (map.get_refresh key w.cache).0 }) key made o)
  unfolding answer insert_new upgrade
  answer-Got w key made (some o) h =
      let (c, e, f) = bind-some (find key (laws.entries w.cache)) (upgrade w.objects) h in
      let (p, g, a) = bind-some (w.objects c.value) (λ o. if_alive o o.strong) f in
      let (positive, same) = alive p o p.strong refl a in
      again c o e (g ∙ same)
        (subst (λ (x : Option (Cached V)). elim x [ none ↦ ⊥ | some x ↦ 0 < x.strong ]) same
          positive)
        refl refl (laws.entries-get_refresh key w.cache ∙ ap (refresh key (laws.entries w.cache)) e)
  answer-Got w key (err x) none h = refused x h refl refl refl
  answer-Got w key (ok v) none h = fresh v h refl refl refl (
      subst
        (λ xs. Newest w.capacity xs (
          laws.entries
            (answer map (record w { cache = (map.get_refresh key w.cache).0 }) key (ok v)
              none).0.cache))
        (ap (put_back key _) (laws.entries-get_refresh key w.cache)
          ∙ put_back-refresh key _ (laws.entries w.cache) _)
        (inserted_Newest laws (record w { cache = (map.get_refresh key w.cache).0 }) key _))

  -- While the cache holds a value for the key that is in use, `get` returns another handle of it, and
  -- does not make one. Otherwise it makes one, which becomes the newest entry, and evicts the
  -- least recently used entries, as many as are over the capacity; or it fails as `make_value` did.
  pub get-Got : (w : Inner M V) (key : ℕ) (made : Result V) → Got w key made (get map w key made)
  unfolding get
  get-Got w key made =
      subst
        (λ o. Got w key made (
          answer map (record w { cache = (map.get_refresh key w.cache).0 }) key made
            (o >>= upgrade w.objects)))
        (sym (laws.get_refresh_lem key w.cache)) (answer-Got w key made (held w key) refl)
