-- ===== src/Factory/Followed.antt =====
-- The clients of the hosts follow the configuration.
use conjure_rust_runtime.Prelude.{
  ℕ, ◌+◌, ◌≡◌, refl, sym, ap, subst, ◌∙◌, Bool, true, false, Option, none, some, some-injective,
  List, [], ◌∷◌, ◌++◌, length, get_elem?, All, ◌==◌, ==_iff, and_true, is_some, if◌then◌else◌, ◌⊎◌,
  inl, inr,
}
use conjure_rust_runtime.Config.{ServiceConfig}
use conjure_rust_runtime.Factory.Hosts.{
  Map, lookup, remove, insert, Client, PerHost, Loop, all_in, host_config, raw_client, refresh,
  keep, store, refresh_at, make, visit_with, visit, visit_all,
}

pub lookup-remove : (h u : ℕ) (m : Map) → (h == u) ≡ false → lookup h (remove u m) ≡ lookup h m
lookup-remove h u [] e = refl
lookup-remove h u ((k, v) ∷ m) e = go (u == k) refl (lookup-remove h u m e)
  where
    go :
        (b : Bool)
        → (u == k) ≡ b
        → lookup h (remove u m) ≡ lookup h m
        → lookup h (if b then remove u m else (k, v) ∷ remove u m)
          ≡ (if h == k then some v else lookup h m)
    go true z later = rw (subst (λ j. (h == j) ≡ false) ((==_iff u k).0 z) e) later
    go false z later = ap (λ o. if h == k then some v else o) later

pub all_in-lookup :
    (h id : ℕ) (m n : Map)
    → all_in m n ≡ true
    → lookup h m ≡ some id
    → (other : ℕ) × (lookup h n ≡ some other)
all_in-lookup h id [] n a e = cc
all_in-lookup h id ((k, v) ∷ m) n a e =
    let (here, later) = and_true (is_some (lookup k n)) (all_in m n) a in
    go (h == k) refl (lookup k n) refl here e (all_in-lookup h id m n later)
  where
    go :
        (b : Bool)
        → (h == k) ≡ b
        → (o : Option ℕ) → lookup k n ≡ o
        → is_some o ≡ true
        → (if b then some v else lookup h m) ≡ some id
        → (lookup h m ≡ some id → (other : ℕ) × (lookup h n ≡ some other))
        → (other : ℕ) × (lookup h n ≡ some other)
    go true z none f here e later = cc
    go true z (some x) f here e later =
        (x, subst (λ j. lookup j n ≡ some x) (sym ((==_iff h k).0 z)) f)
    go false z o f here e later = later e

abbrev pub NotIn : ℕ → List ℕ → Type 0
NotIn u us = All (λ v. (v == u) ≡ false) us

abbrev pub Distinct : List ℕ → Type 0
Distinct [] = Unit
Distinct (u ∷ us) = NotIn u us × Distinct us

-- Each client of the collection can still be reached by a reload.
abbrev pub Live : {S : Type 0} → PerHost S → Type 0
Live w = (h id : ℕ) → lookup h w.current ≡ some id → lookup h w.client_handles ≡ some id

-- A host that was in the collection and is in the new one has the same client.
abbrev pub Keeps : {S : Type 0} → PerHost S → PerHost S → Type 0
Keeps w v =
    (h id other : ℕ) → lookup h w.current ≡ some id → lookup h v.current ≡ some other → id ≡ other

abbrev pub Held : Map → ℕ → ℕ → Type 0
Held old h id = (lookup h old ≡ some id) ⊎ (lookup h old ≡ none)

-- In the loop, before the hosts `us`.
abbrev pub LoopInv : {S : Type 0} → Map → List ℕ → Loop S → Type 0
LoopInv old us l =
    (l.clients ≡ l.new_client_handles)
    × ((h id : ℕ) → lookup h l.new_client_handles ≡ some id → Held old h id)
    × All (λ h. lookup h l.client_handles ≡ lookup h old) us

insert-Held :
    (old m : Map) (u id : ℕ)
    → Held old u id
    → ((h id : ℕ) → lookup h m ≡ some id → Held old h id)
    → (h other : ℕ) → lookup h (insert u id m) ≡ some other
    → Held old h other
insert-Held old m u id held all h other e = go (h == u) refl e
  where
    go :
        (b : Bool)
        → (h == u) ≡ b
        → (if b then some id else lookup h (remove u m)) ≡ some other
        → Held old h other
    go true z e =
        subst (λ x. Held old h x) (some-injective e)
          (subst (λ j. Held old j id) (sym ((==_iff h u).0 z)) held)
    go false z e = all h other (sym (lookup-remove h u m z) ∙ e)

module _ {S : Type 0} where
  keep-LoopInv :
      (old : Map) (us : List ℕ) (u id : ℕ) (l : Loop S)
      → Held old u id
      → LoopInv old us l
      → LoopInv old us (keep u id l)
  keep-LoopInv old us u id l held (same, all, rest) =
      (ap (insert u id) same, insert-Held old l.new_client_handles u id held all, rest)

  remove-LoopInv :
      (old : Map) (us : List ℕ) (u : ℕ) (l : Loop S)
      → NotIn u us
      → LoopInv old us l
      → LoopInv old us (record l { client_handles = remove u l.client_handles })
  remove-LoopInv old us u l new (same, all, rest) = (same, all, go us new rest)
    where
      go :
          (us : List ℕ)
          → NotIn u us
          → All (λ h. lookup h l.client_handles ≡ lookup h old) us
          → All (λ h. lookup h (remove u l.client_handles) ≡ lookup h old) us
      go [] new rest = tt
      go (v ∷ vs) (n, new) (e, rest) = (lookup-remove v u l.client_handles n ∙ e, go vs new rest)

module _ {S : Type 0} (build : ServiceConfig ℕ → Option ℕ → Option S)
    (notifies : ServiceConfig ℕ → ServiceConfig ℕ → Bool) (takes : Bool) where
  refresh-LoopInv :
      (old : Map) (us : List ℕ) (id : ℕ) (c : ServiceConfig ℕ) (o : Option (Client S)) (l : Loop S)
      → LoopInv old us l
      → LoopInv old us (refresh_at build notifies takes id c o l)
  refresh-LoopInv old us id c none l h = h
  refresh-LoopInv old us id c (some client) l h = go (refresh build notifies takes client c)
    where
      go : (r : Client S × Bool) → LoopInv old us (store id r l)
      go (client, true) = h
      go (client, false) = h

  visit-LoopInv :
      (old : Map) (us : List ℕ) (u i : ℕ) (c : ServiceConfig ℕ) (l : Loop S)
      → NotIn u us
      → LoopInv old (u ∷ us) l
      → LoopInv old us (visit build notifies takes c i u l)
  unfolding visit raw_client
  visit-LoopInv old us u i c l new (same, all, (first, rest)) = go (lookup u l.client_handles) refl
    where
      inv : LoopInv old us l
      inv = (same, all, rest)

      made : (o : Option (Client S)) → lookup u old ≡ none → LoopInv old us (make u o l)
      made none e = inv
      made (some client) e =
          keep-LoopInv old us u (length l.states) (record l { states = l.states ++ client ∷ [] })
            (inr e) inv

      go :
          (o : Option ℕ)
          → lookup u l.client_handles ≡ o
          → LoopInv old us (visit_with build notifies takes c i u o l)
      go none e = made (raw_client build notifies takes (host_config c u) (some i)) (sym first ∙ e)
      go (some id) e =
          keep-LoopInv old us u id
            (refresh_at build notifies takes id (host_config c u) (get_elem? l.states id)
              (record l { client_handles = remove u l.client_handles }))
            (inl (sym first ∙ e))
            (refresh-LoopInv old us id (host_config c u) (get_elem? l.states id)
              (record l { client_handles = remove u l.client_handles })
              (remove-LoopInv old us u l new inv))

  pub visit_all-LoopInv :
      (old : Map) (us : List ℕ) (i : ℕ) (c : ServiceConfig ℕ) (l : Loop S)
      → Distinct us
      → LoopInv old us l
      → LoopInv old [] (visit_all build notifies takes c i us l)
  unfolding visit_all
  visit_all-LoopInv old [] i c l d h = h
  visit_all-LoopInv old (u ∷ us) i c l (new, d) h =
      visit_all-LoopInv old us (i + 1) c (visit build notifies takes c i u l) d
        (visit-LoopInv old us u i c l new h)
