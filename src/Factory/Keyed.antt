-- ===== src/Factory/Keyed.antt =====
-- Maps with each key once: two of the same length have the same hosts if one has all the hosts of the other.
use conjure_rust_runtime.Prelude.{
  ℕ, suc, ◌≡◌, refl, sym, ap, ◌∙◌, Bool, true, false, Bool-cases, none, some, Option, [], ◌∷◌,
  length, ◌==◌, ==_iff, and_true, is_some, if◌then◌else◌, inl, inr, arith,
}
use conjure_rust_runtime.Config.{ServiceConfig}
use conjure_rust_runtime.Factory.Hosts.{Map, lookup, remove, insert, all_in, same_hosts, publish}
use conjure_rust_runtime.Factory.Followed.{lookup-remove}
use conjure_rust_runtime.Factory.Sound.{Has, lookup-remove_same}

abbrev pub Keyed : Map → Type 0
Keyed [] = Unit
Keyed ((k, v) ∷ m) = (lookup k m ≡ none) × Keyed m

remove-Keyed : (u : ℕ) (m : Map) → Keyed m → Keyed (remove u m)
remove-Keyed u [] h = tt
remove-Keyed u ((k, v) ∷ m) (n, h) = go (u == k) refl (remove-Keyed u m h)
  where
    apart : (u == k) ≡ false → (k == u) ≡ false
    apart e = ground arith

    go :
        (b : Bool)
        → (u == k) ≡ b
        → Keyed (remove u m)
        → Keyed (if b then remove u m else (k, v) ∷ remove u m)
    go true e later = later
    go false e later = (lookup-remove k u m (apart e) ∙ n, later)

pub insert-Keyed : (u id : ℕ) (m : Map) → Keyed m → Keyed (insert u id m)
insert-Keyed u id m h = (lookup-remove_same u m, remove-Keyed u m h)

-- The head of a map has another key than `u`.
not_head :
    (u k v : ℕ) (m : Map) → lookup u ((k, v) ∷ m) ≡ none → ((u == k) ≡ false) × (lookup u m ≡ none)
not_head u k v m e = elim (Bool-cases (u == k)) [
  | inl z ↦ absurd (clash (rw z at e))
  | inr z ↦ (z, rw z at e)
]
  where
    clash : some v ≡ none → ⊥
    clash e = cc

length-remove_absent : (u : ℕ) (m : Map) → lookup u m ≡ none → length (remove u m) ≡ length m
length-remove_absent u [] e = refl
length-remove_absent u ((k, v) ∷ m) e =
    let (z, f) = not_head u k v m e in rw z (ap suc (length-remove_absent u m f))

length-remove : (u : ℕ) (m : Map) → Keyed m → Has m u → length m ≡ suc (length (remove u m))
length-remove u [] h (j, e) = cc
length-remove u ((k, v) ∷ m) (n, h) (j, e) = elim (Bool-cases (u == k)) [
  | inl z ↦
      let f : lookup u m ≡ none = ap (λ i. lookup i m) ((==_iff u k).0 z) ∙ n in
      rw z (ap suc (sym (length-remove_absent u m f)))
  | inr z ↦ rw z (ap suc (length-remove u m h (j, rw z at e)))
]

all_in-remove :
    (u : ℕ) (m n : Map) → lookup u m ≡ none → all_in m n ≡ true → all_in m (remove u n) ≡ true
all_in-remove u [] n e h = refl
all_in-remove u ((k, v) ∷ m) n e h =
    let (z, f) = not_head u k v m e in
    let (here, later) = and_true (is_some (lookup k n)) (all_in m n) h in
    rw (lookup-remove k u n (flip z), here) (all_in-remove u m n f later)
  where
    flip : (u == k) ≡ false → (k == u) ≡ false
    flip z = ground arith

some_Has : (k : ℕ) (n : Map) → is_some (lookup k n) ≡ true → Has n k
some_Has k n = go (lookup k n)
  where
    go : (o : Option ℕ) → is_some o ≡ true → (id : ℕ) × (o ≡ some id)
    go none e = cc
    go (some id) e = (id, refl)

all_in-Has :
    (m n : Map) (h : ℕ)
    → Keyed m
    → Keyed n
    → length m ≡ length n
    → all_in m n ≡ true
    → Has n h
    → Has m h
all_in-Has [] [] h km kn len e x = x
all_in-Has [] (p ∷ n) h km kn len e x = absurd (omega (arith, len))
all_in-Has ((k, v) ∷ m) n h (absent, km) kn len e (j, f) = elim (Bool-cases (h == k)) [
  | inl z ↦ (v, rw z refl)
  | inr z ↦
      let (here, later) = and_true (is_some (lookup k n)) (all_in m n) e in
      let (i, g) =
        all_in-Has m (remove k n) h km (remove-Keyed k n kn)
          (omega (arith, len, length-remove k n kn (some_Has k n here)))
          (all_in-remove k m n absent later) (j, lookup-remove h k n z ∙ f) in
      (i, rw z g)
]

module _ {S : Type 0} (build : ServiceConfig ℕ → Option ℕ → Option S)
    (notifies : ServiceConfig ℕ → ServiceConfig ℕ → Bool) (takes : Bool) where
  pub publish-Keyed :
      (current clients : Map)
      → Keyed current
      → Keyed clients
      → Keyed (publish build notifies takes current clients)
  publish-Keyed current clients kc kn = go (same_hosts current clients) takes
    where
      go : (b t : Bool) → Keyed (if b then if t then clients else current else clients)
      go false t = kn
      go true true = kn
      go true false = kc

  -- The hosts of the new clients are in the collection, whether it takes an equal value or not.
  pub publish-Has :
      (current clients : Map) (h : ℕ)
      → Keyed current
      → Keyed clients
      → Has clients h
      → Has (publish build notifies takes current clients) h
  unfolding same_hosts
  publish-Has current clients h kc kn x = go (same_hosts current clients) refl takes
    where
      len : same_hosts current clients ≡ true → length current ≡ length clients
      len z = ground arith

      go :
          (b : Bool)
          → same_hosts current clients ≡ b
          → (t : Bool) → Has (if b then if t then clients else current else clients) h
      go false z t = x
      go true z true = x
      go true z false =
          all_in-Has current clients h kc kn (len z)
            (and_true (length current == length clients) (all_in current clients) z).1 x
