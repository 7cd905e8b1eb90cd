-- ===== src/Factory/Sound.antt =====
-- In the loop of a reload: the clients made or refreshed so far have the configuration of their hosts.
use mathlib.Core.List.{Memᴰ}
use conjure_rust_runtime.Prelude.{
  ℕ, zero, suc, ◌≡◌, ◌≢◌, refl, sym, ap, subst, ◌∙◌, false, Bool-cases, Option, none, some,
  some-injective, List, [], ◌∷◌, ◌++◌, length, get_elem?, replace_at, ◌==◌, ==_iff, ==_refl, ◌⊎◌,
  inl, inr,
}
use conjure_rust_runtime.Config.{ServiceConfig}
use conjure_rust_runtime.Factory.Hosts.{Map, lookup, remove, insert, Client, host_config}
use conjure_rust_runtime.Factory.Followed.{lookup-remove}

pub lookup-remove_same : (u : ℕ) (m : Map) → lookup u (remove u m) ≡ none
lookup-remove_same u [] = refl
lookup-remove_same u ((k, v) ∷ m) = elim (Bool-cases (u == k)) [
  | inl e ↦ rw e (lookup-remove_same u m)
  | inr e ↦ rw (e, e) (lookup-remove_same u m)
]

-- What is left without the host `u`.
pub remove-cases :
    (h u j : ℕ) (m : Map)
    → lookup h (remove u m) ≡ some j
    → ((h == u) ≡ false) × (lookup h m ≡ some j)
remove-cases h u j m e = elim (Bool-cases (h == u)) [
  | inl z ↦ absurd (
      clash (
        sym (lookup-remove_same u m)
        ∙ ap (λ k. lookup k (remove u m)) (sym ((==_iff h u).0 z))
        ∙ e))
  | inr z ↦ (z, sym (lookup-remove h u m z) ∙ e)
]
  where
    clash : none ≡ some j → ⊥
    clash e = cc

pub insert-cases :
    (h u id j : ℕ) (m : Map)
    → lookup h (insert u id m) ≡ some j
    → ((h ≡ u) × (j ≡ id)) ⊎ (((h == u) ≡ false) × (lookup h m ≡ some j))
insert-cases h u id j m e = elim (Bool-cases (h == u)) [
  | inl z ↦ inl ((==_iff h u).0 z, sym (some-injective (rw z at e)))
  | inr z ↦ inr (z, sym (lookup-remove h u m z) ∙ (rw z at e))
]

abbrev pub Has : Map → ℕ → Type 0
Has m h = (id : ℕ) × (lookup h m ≡ some id)

pub insert-Has : (h u id : ℕ) (m : Map) → Has m h → Has (insert u id m) h
insert-Has h u id m (j, e) = elim (Bool-cases (h == u)) [
  | inl z ↦ (id, rw z refl)
  | inr z ↦ (j, rw z (lookup-remove h u m z ∙ e))
]

pub insert-Has_same : (u id : ℕ) (m : Map) → Has (insert u id m) u
insert-Has_same u id m = (id, rw (==_refl u) refl)

module _ {A : Type 0} where
  pub get_elem?-length : (xs : List A) (y : A) → get_elem? xs (length xs) ≡ some y → ⊥
  get_elem?-length [] y e = cc
  get_elem?-length (x ∷ xs) y e = get_elem?-length xs y e

  pub get_elem?-end : (xs : List A) (y : A) → get_elem? (xs ++ y ∷ []) (length xs) ≡ some y
  get_elem?-end [] y = refl
  get_elem?-end (x ∷ xs) y = get_elem?-end xs y

  pub get_elem?-append :
      (xs ys : List A) (i : ℕ) (x : A) → get_elem? xs i ≡ some x → get_elem? (xs ++ ys) i ≡ some x
  get_elem?-append [] ys i x e = cc
  get_elem?-append (y ∷ xs) ys zero x e = e
  get_elem?-append (y ∷ xs) ys (suc i) x e = get_elem?-append xs ys i x e

  pub get_elem?-replace_at :
      (xs : List A) (i : ℕ) (x y : A)
      → get_elem? xs i ≡ some x
      → get_elem? (replace_at i y xs) i ≡ some y
  get_elem?-replace_at [] i x y e = cc
  get_elem?-replace_at (z ∷ xs) zero x y e = refl
  get_elem?-replace_at (z ∷ xs) (suc i) x y e = get_elem?-replace_at xs i x y e

  pub get_elem?-replace_other :
      (xs : List A) (i j : ℕ) (x y : A)
      → j ≢ i
      → get_elem? xs j ≡ some x
      → get_elem? (replace_at i y xs) j ≡ some x
  get_elem?-replace_other [] i j x y n e = cc
  get_elem?-replace_other (z ∷ xs) zero zero x y n e = absurd (n refl)
  get_elem?-replace_other (z ∷ xs) zero (suc j) x y n e = e
  get_elem?-replace_other (z ∷ xs) (suc i) zero x y n e = e
  get_elem?-replace_other (z ∷ xs) (suc i) (suc j) x y n e =
      get_elem?-replace_other xs i j x y (λ f. n (ap suc f)) e

module _ {S : Type 0} (build : ServiceConfig ℕ → Option ℕ → Option S) where
  -- The state of the client is built of its configuration.
  abbrev pub Built : Client S → Type 0
  Built client = build client.config client.override_host_index ≡ some client.state

  abbrev pub BuiltAt : List (Client S) → ℕ → Type 0
  BuiltAt states id = (client : Client S) × (get_elem? states id ≡ some client) × Built client

  -- The client at `id` is for the host `h` of the configuration, and is built of what that says.
  abbrev pub Serves : ServiceConfig ℕ → List (Client S) → ℕ → ℕ → Type 0
  Serves c states h id =
      (client : Client S) × Memᴰ h c.uris
      × (get_elem? states id ≡ some client)
      × (client.config ≡ host_config c h)
      × Built client

  abbrev pub Apart : Map → Type 0
  Apart m = (h k id : ℕ) → lookup h m ≡ some id → lookup k m ≡ some id → h ≡ k

  -- The handles not used yet, and the new ones.
  pub record Sound (c : ServiceConfig ℕ) (handles new : Map) (states : List (Client S))
      : Type 0 where
    pub built : (h id : ℕ) → lookup h handles ≡ some id → BuiltAt states id
    pub serves : (h id : ℕ) → lookup h new ≡ some id → Serves c states h id
    pub apart : Apart handles
    pub apart_new : Apart new
    pub disjoint : (h k id : ℕ) → lookup h handles ≡ some id → lookup k new ≡ some id → ⊥

  module _ (c : ServiceConfig ℕ) where
    -- A host gets the client at `id`, which no other host has.
    pub put-Sound :
        (handles handles' new : Map) (states states' : List (Client S)) (u id : ℕ)
        → Sound c handles new states
        → ((h j : ℕ) → lookup h handles' ≡ some j → (lookup h handles ≡ some j) × (j ≢ id))
        → ((h j : ℕ) → lookup h new ≡ some j → j ≢ id)
        → ((j : ℕ) (x : Client S)
            → j ≢ id
            → get_elem? states j ≡ some x
            → get_elem? states' j ≡ some x)
        → Serves c states' u id
        → Sound c handles' (insert u id new) states'
    put-Sound handles handles' new states states' u id s other other_new keeps here = record {
      built = λ h j e.
          let (f, n) = other h j e in let (x, g, b) = s.built h j f in (x, keeps j x n g, b);
      serves = λ h j e. elim (insert-cases h u id j new e) [
        | inl (p, q) ↦
            subst (λ k. Serves c states' k j) (sym p)
              (subst (λ i. Serves c states' u i) (sym q) here)
        | inr (z, f) ↦
            let (x, m, g, d, b) = s.serves h j f in (x, m, keeps j x (other_new h j f) g, d, b)
      ];
      apart = λ h k j e f. s.apart h k j (other h j e).0 (other k j f).0;
      apart_new =
          λ h k j e f. both h k j (insert-cases h u id j new e) (insert-cases k u id j new f);
      disjoint = λ h k j e f. elim (insert-cases k u id j new f) [
        | inl (p, q) ↦ (other h j e).1 q
        | inr (z, g) ↦ s.disjoint h k j (other h j e).0 g
      ];
    }
      where
        both :
            (h k j : ℕ)
            → ((h ≡ u) × (j ≡ id)) ⊎ (((h == u) ≡ false) × (lookup h new ≡ some j))
            → ((k ≡ u) × (j ≡ id)) ⊎ (((k == u) ≡ false) × (lookup k new ≡ some j))
            → h ≡ k
        both h k j (inl (p, q)) (inl (r, t)) = p ∙ sym r
        both h k j (inl (p, q)) (inr (z, f)) = absurd (other_new k j f q)
        both h k j (inr (z, f)) (inl (p, q)) = absurd (other_new h j f q)
        both h k j (inr (z, f)) (inr (y, g)) = s.apart_new h k j f g
