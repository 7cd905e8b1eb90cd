-- ===== src/Config/HostPort/Digits.antt =====
-- Printed numbers are read back.
use conjure_rust_runtime.Prelude.{
  ℕ, zero, suc, ◌+◌, ◌*◌, ◌/◌, ◌%◌, ◌^◌, ◌≤◌, ◌<◌, ◌≡◌, refl, ap, ◌∙◌, Bool, true, false, Option,
  none, some, [], ◌∷◌, ◌++◌, ltb, ltb→lt, ◌==◌, ◌>>=◌, if◌then◌else◌, arith,
}
use conjure_rust_runtime.Config.{Text}
use conjure_rust_runtime.Config.HostPort.{
  plus, u16_max, digits, show_u16, push_digit, read_digits, parse_u16,
}

push_digit_lem :
    (acc d : ℕ) → d < 10 → acc * 10 + d ≤ u16_max → push_digit acc (48 + d) ≡ some (acc * 10 + d)
push_digit_lem acc d lt le = ground arith

read_digits-append :
    (acc : ℕ) (cs : Text) (c : ℕ)
    → read_digits acc (cs ++ c ∷ []) ≡ (read_digits acc cs >>= λ n. push_digit n c)
unfolding read_digits
read_digits-append acc [] c = go (push_digit acc c)
  where
    go : (o : Option ℕ) → (o >>= λ n. some n) ≡ o
    go none = refl
    go (some n) = refl
read_digits-append acc (b ∷ cs) c = go (push_digit acc b) (λ n. read_digits-append n cs c)
  where
    go :
        (o : Option ℕ)
        → ((n : ℕ) → read_digits n (cs ++ c ∷ []) ≡ (read_digits n cs >>= λ m. push_digit m c))
        → (o >>= λ n. read_digits n (cs ++ c ∷ []))
          ≡ ((o >>= λ n. read_digits n cs) >>= λ m. push_digit m c)
    go none later = refl
    go (some n) later = later n

pub read_digits-digits :
    (fuel n : ℕ) → n < 10 ^ fuel → n ≤ u16_max → read_digits 0 (digits fuel n) ≡ some n
unfolding digits read_digits
read_digits-digits zero n lt le = one n lt
  where
    one : (n : ℕ) → n < 1 → read_digits 0 [] ≡ some n
    one zero lt = refl
    one (suc n) lt = elim (no lt) [ ]
      where
        no : suc n < 1 → ⊥
        no lt = omega (arith, lt)
read_digits-digits (suc fuel) n lt le =
    go (ltb n 10) refl (read_digits-digits fuel (n / 10) (omega (arith, lt)) (omega (arith, le)))
  where
    go :
        (b : Bool)
        → ltb n 10 ≡ b
        → read_digits 0 (digits fuel (n / 10)) ≡ some (n / 10)
        → read_digits 0 (if b then (48 + n) ∷ [] else digits fuel (n / 10) ++ (48 + n % 10) ∷ [])
          ≡ some n
    go true e later =
        ap (λ o. o >>= λ k. some k)
          (push_digit_lem 0 n (ltb→lt n 10 e) (omega (arith, le)) ∙ ap some (omega arith))
    go false e later =
        read_digits-append 0 (digits fuel (n / 10)) (48 + n % 10)
        ∙ ap (λ o. o >>= λ k. push_digit k (48 + n % 10)) later
        ∙ push_digit_lem (n / 10) (n % 10) (omega arith) (omega (arith, le))
        ∙ ap some (omega arith)

-- The first character is a digit.
abbrev First : Text → Type 0
First [] = ⊥
First (c ∷ cs) = 48 ≤ c

digits-First : (fuel n : ℕ) → First (digits (suc fuel) n)
unfolding digits
digits-First zero n = go (ltb n 10)
  where
    go : (b : Bool) → First (if b then (48 + n) ∷ [] else (48 + n % 10) ∷ [])
    go true = omega arith
    go false = omega arith
digits-First (suc fuel) n = go (ltb n 10) (digits (suc fuel) (n / 10)) (digits-First fuel (n / 10))
  where
    go :
        (b : Bool) (cs : Text)
        → First cs
        → First (if b then (48 + n) ∷ [] else cs ++ (48 + n % 10) ∷ [])
    go true cs f = omega arith
    go false [] f = elim f [ ]
    go false (c ∷ cs) f = f

parse-First : (cs : Text) → First cs → parse_u16 cs ≡ read_digits 0 cs
unfolding parse_u16
parse-First [] f = elim f [ ]
parse-First (c ∷ cs) f = rw (not_plus c f) refl
  where
    not_plus : (c : ℕ) → 48 ≤ c → (c == plus) ≡ false
    not_plus c f = ground arith

-- A `u16` that is printed is read back.
pub parse_u16-show_u16 : (n : ℕ) → n ≤ u16_max → parse_u16 (show_u16 n) ≡ some n
parse_u16-show_u16 n le =
    parse-First (show_u16 n) (digits-First 4 n) ∙ read_digits-digits 5 n (omega (arith, le)) le
