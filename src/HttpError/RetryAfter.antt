-- ===== src/HttpError/RetryAfter.antt =====
-- What a `Retry-After` header asks for.
use conjure_rust_runtime.Prelude.{
  ℕ, ◌+◌, ◌*◌, ◌-◌, ◌^◌, ◌≤◌, ◌<◌, ◌≡◌, refl, subst, Bool, true, false, Option, none, some, List,
  [], ◌∷◌, All, ltb, ◌==◌, ==_iff, ◌&&◌, ◌⊎◌, inl, inr, if◌then◌else◌, arith,
}
use conjure_rust_runtime.Errors.{Duration}
use conjure_rust_runtime.HttpError.{
  Runtime, u64_mod, is_digit, parse_digits, parse_u64, requested, parsed, seconds,
}

abbrev pub IsDigit : ℕ → Type 0
IsDigit c = (48 ≤ c) × (c ≤ 57)

-- The number that the digits `cs` stand for after digits that stand for `n`.
abbrev pub value : ℕ → List ℕ → ℕ
value n [] = n
value n (c ∷ cs) = value (10 * n + (c - 48)) cs

-- The text is a number in decimal, after a `+` or not.
pub data Numeral : List ℕ → ℕ → Type 0 where
  plain : (c : ℕ) (cs : List ℕ) → All IsDigit (c ∷ cs) → Numeral (c ∷ cs) (value 0 (c ∷ cs))
  signed :
      (s c : ℕ) (cs : List ℕ)
      → s ≡ 43
      → All IsDigit (c ∷ cs)
      → Numeral (s ∷ c ∷ cs) (value 0 (c ∷ cs))

value-grows : (n : ℕ) (cs : List ℕ) → n ≤ value n cs
value-grows n [] = omega arith
value-grows n (c ∷ cs) = omega (arith, value-grows (10 * n + (c - 48)) cs)

-- A text is read as the number that it is, or it is none below 2^64.
abbrev Digits : ℕ → List ℕ → Option ℕ → Type 0
Digits n cs o =
    (All IsDigit cs × (value n cs < u64_mod) × (o ≡ some (value n cs)))
    ⊎ ((All IsDigit cs → ¬ (value n cs < u64_mod)) × (o ≡ none))

parse_digits-Digits : (n : ℕ) (cs : List ℕ) → n < u64_mod → Digits n cs (parse_digits n cs)
unfolding parse_digits
parse_digits-Digits n [] h = inl (tt, h, refl)
parse_digits-Digits n (c ∷ cs) h =
    go (is_digit c && ltb (n * 10 + (c - 48)) u64_mod) refl
      (parse_digits-Digits (10 * n + (c - 48)) cs)
  where
    flip : n * 10 + (c - 48) ≡ 10 * n + (c - 48)
    flip = omega arith

    digit : (is_digit c && ltb (n * 10 + (c - 48)) u64_mod) ≡ true → IsDigit c
    digit e = ground arith

    small : (is_digit c && ltb (n * 10 + (c - 48)) u64_mod) ≡ true → 10 * n + (c - 48) < u64_mod
    small e = ground arith

    wrong :
        (is_digit c && ltb (n * 10 + (c - 48)) u64_mod) ≡ false
        → IsDigit c
        → u64_mod ≤ 10 * n + (c - 48)
    wrong e d = ground arith

    later : (o : Option ℕ) → IsDigit c → Digits (10 * n + (c - 48)) cs o → Digits n (c ∷ cs) o
    later o d (inl (all, lt, e)) = inl ((d, all), lt, e)
    later o d (inr (bad, e)) = inr ((λ a. bad a.1), e)

    go :
        (b : Bool)
        → (is_digit c && ltb (n * 10 + (c - 48)) u64_mod) ≡ b
        → (10 * n + (c - 48) < u64_mod
            → Digits (10 * n + (c - 48)) cs (parse_digits (10 * n + (c - 48)) cs))
        → Digits n (c ∷ cs) (if b then parse_digits (n * 10 + (c - 48)) cs else none)
    go true e rest =
        rw flip (later (parse_digits (10 * n + (c - 48)) cs) (digit e) (rest (small e)))
    go false e rest =
        inr ((λ a lt. omega (arith, wrong e a.0, lt, value-grows (10 * n + (c - 48)) cs)), refl)

-- What a text is read as.
abbrev Parsed : List ℕ → Option ℕ → Type 0
Parsed text o =
    ((n : ℕ) × Numeral text n × (n < u64_mod) × (o ≡ some n))
    ⊎ (((n : ℕ) → Numeral text n → ¬ (n < u64_mod)) × (o ≡ none))

parse_u64-Parsed : (text : List ℕ) → Parsed text (parse_u64 text)
unfolding parse_u64
parse_u64-Parsed [] = inr ((λ n x lt. elim x [ ]), refl)
parse_u64-Parsed (c ∷ []) = elim (parse_digits-Digits 0 (c ∷ []) (omega arith)) [
  | inl (all, lt, e) ↦ inl (value 0 (c ∷ []), plain c [] all, lt, e)
  | inr (bad, e) ↦ inr (none_left bad, e)
]
  where
    none_left :
        (All IsDigit (c ∷ []) → ¬ (value 0 (c ∷ []) < u64_mod))
        → (n : ℕ) → Numeral (c ∷ []) n
        → ¬ (n < u64_mod)
    none_left bad _ (plain c' cs all) = bad all
parse_u64-Parsed (c ∷ d ∷ cs) = go (c == 43) refl
  where
    no_sign :
        (c == 43) ≡ true
        → (All IsDigit (d ∷ cs) → ¬ (value 0 (d ∷ cs) < u64_mod))
        → (n : ℕ) → Numeral (c ∷ d ∷ cs) n
        → ¬ (n < u64_mod)
    no_sign e bad _ (plain c' ds all) = absurd (not_digit all.0)
      where
        not_digit : IsDigit c → ⊥
        not_digit x = ground arith
    no_sign e bad _ (signed s c' ds f all) = bad all

    no_plain :
        (c == 43) ≡ false
        → (All IsDigit (c ∷ d ∷ cs) → ¬ (value 0 (c ∷ d ∷ cs) < u64_mod))
        → (n : ℕ) → Numeral (c ∷ d ∷ cs) n
        → ¬ (n < u64_mod)
    no_plain e bad _ (plain c' ds all) = bad all
    no_plain e bad _ (signed s c' ds f all) = absurd (apart f)
      where
        apart : c ≡ 43 → ⊥
        apart f = ground arith

    go :
        (b : Bool)
        → (c == 43) ≡ b
        → Parsed (c ∷ d ∷ cs) (if b then parse_digits 0 (d ∷ cs) else parse_digits 0 (c ∷ d ∷ cs))
    go true e = elim (parse_digits-Digits 0 (d ∷ cs) (omega arith)) [
      | inl (all, lt, f) ↦ inl (value 0 (d ∷ cs), signed c d cs ((==_iff c 43).0 e) all, lt, f)
      | inr (bad, f) ↦ inr (no_sign e bad, f)
    ]
    go false e = elim (parse_digits-Digits 0 (c ∷ d ∷ cs) (omega arith)) [
      | inl (all, lt, f) ↦ inl (value 0 (c ∷ d ∷ cs), plain c (d ∷ cs) all, lt, f)
      | inr (bad, f) ↦ inr (no_plain e bad, f)
    ]

module _ {Encoding : Type 0} (runtime : Runtime Encoding) where
  -- What a header asks for: so many seconds, if it is the numeral of a `u64`, and nothing if not.
  pub data Asks (header : Option (List ℕ)) : Option Duration → Type 0 where
    seconds_of :
        (raw text : List ℕ) (n : ℕ)
        → header ≡ some raw
        → runtime.to_str raw ≡ some text
        → Numeral text n
        → n < 2 ^ 64
        → Asks header (some (n * 1_000_000_000))
    nothing :
        ((raw text : List ℕ) (n : ℕ)
          → header ≡ some raw
          → runtime.to_str raw ≡ some text
          → Numeral text n
          → ¬ (n < 2 ^ 64))
        → Asks header none

  text-Asks :
      (raw : List ℕ) (o : Option (List ℕ))
      → runtime.to_str raw ≡ o
      → Asks (some raw) (seconds (parsed o))
  text-Asks raw none e = nothing (λ raw' text n f g x. absurd (apart raw' text f g))
    where
      apart : (raw' text : List ℕ) → some raw ≡ some raw' → runtime.to_str raw' ≡ some text → ⊥
      apart raw' text f g = cc
  text-Asks raw (some text) e = elim (parse_u64-Parsed text) [
    | inl (n, x, lt, f) ↦ rw f (seconds_of raw text n refl e x lt)
    | inr (bad, f) ↦ rw f (nothing (λ raw' text' n g h x. bad n (same raw' text' g h n x)))
  ]
    where
      same :
          (raw' text' : List ℕ)
          → some raw ≡ some raw'
          → runtime.to_str raw' ≡ some text'
          → (n : ℕ) → Numeral text' n
          → Numeral text n
      same raw' text' g h n x = subst (λ t. Numeral t n) (equal raw' text' g h) x
        where
          equal :
              (raw' text' : List ℕ)
              → some raw ≡ some raw'
              → runtime.to_str raw' ≡ some text'
              → text' ≡ text
          equal raw' text' g h = cc

  pub requested-Asks : (header : Option (List ℕ)) → Asks header (requested runtime header)
  unfolding requested
  requested-Asks none = nothing (λ raw text n f g x. cc)
  requested-Asks (some raw) = text-Asks raw (runtime.to_str raw) refl
