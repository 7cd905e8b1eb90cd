-- ===== src/Selector/Pins.antt =====
-- The pin stays in range, and rotates by one node for each failed node.
use native.Mathlib.Nat.{mod-lt, mod-add-mod, mod-eq_of_lt, mod_self}
use conjure_rust_runtime.Prelude.{
  ℕ, zero, suc, ◌+◌, ◌%◌, ◌≤◌, ◌<◌, ◌≡◌, refl, sym, ap, ltb, ltb→lt, ltb→ge, ◌∙◌, subst, Bool, true,
  false, Bool-cases, some, Option-cases, List, [], ◌∷◌, length, get_elem?, ◌==◌, ==_iff, ==_refl,
  ◌||◌, if◌then◌else◌, arith, inl, inr,
}
use conjure_rust_runtime.Errors.{Result, ok}
use conjure_rust_runtime.Selector.{
  Shuffle, PinUntilError, with_entropy, begin_call, end_call, without, pin_first, increment_host,
  rotate, rotate_all,
}
use conjure_rust_runtime.Selector.Shuffles.{Permutes, IsValid, get-IsValid, with_entropy-IsValid}

abbrev pub AllBelow : ℕ → List ℕ → Type 0
AllBelow n [] = Unit {0}
AllBelow n (p ∷ ps) = (p < n) × AllBelow n ps

below_at : (n i p : ℕ) (ps : List ℕ) → AllBelow n ps → get_elem? ps i ≡ some p → p < n
below_at n i p [] a h = cc
below_at n zero p (q ∷ ps) (a, b) h = ground (arith, a)
below_at n (suc i) p (q ∷ ps) (a, b) h = below_at n i p ps b h

without-AllBelow : (n i : ℕ) (ps : List ℕ) → AllBelow n ps → AllBelow n (without i ps)
without-AllBelow n i [] a = tt
without-AllBelow n zero (q ∷ ps) (a, b) = b
without-AllBelow n (suc i) (q ∷ ps) (a, b) = (a, without-AllBelow n i ps b)

module _ (is_server_error : ℕ → Bool) where
  rotate-below :
      (len pin : ℕ) (result : Result ℕ) (current : ℕ)
      → current < len
      → rotate is_server_error len pin result current < len
  unfolding rotate
  rotate-below len pin result current h =
      elim (Bool-cases (increment_host is_server_error result)) [
        | inr e ↦ rw e h
        | inl e ↦ elim (Bool-cases (pin == current)) [
          | inr f ↦ rw (e, f) h
          | inl f ↦ rw (e, f) (mod-lt (pin + 1) (omega arith))
        ]
      ]

  stays :
      (len pin : ℕ) (rs : List (Result ℕ)) (current : ℕ)
      → (pin == current) ≡ false
      → rotate_all is_server_error len pin rs current ≡ current
  unfolding rotate
  stays len pin [] current h = refl
  stays len pin (r ∷ rs) current h = elim (Bool-cases (increment_host is_server_error r)) [
    | inl e ↦ rw (e, h) (stays len pin rs current h)
    | inr e ↦ rw e (stays len pin rs current h)
  ]

  moved : (len pin : ℕ) → 2 ≤ len → pin < len → (pin == (pin + 1) % len) ≡ false
  moved len pin h k = elim (Bool-cases (pin == (pin + 1) % len)) [
    | inr e ↦ e
    | inl e ↦
        let same = (==_iff pin ((pin + 1) % len)).0 e in
        absurd (elim (Bool-cases (ltb (pin + 1) len)) [
          | inl s ↦ omega (arith, same ∙ mod-eq_of_lt (ltb→lt (pin + 1) len s))
          | inr s ↦
              let end = the_end (ltb→ge (pin + 1) len s) in
              omega (arith, end, same ∙ ap (λ n. n % len) end ∙ mod_self len)
        ])
  ]
    where
      the_end : len ≤ pin + 1 → pin + 1 ≡ len
      the_end s = omega arith

  -- Did one of the requests fail?
  abbrev pub any_failed : List (Result ℕ) → Bool
  any_failed [] = false
  any_failed (r ∷ rs) = increment_host is_server_error r || any_failed rs

  -- However many requests to the pinned node fail at a time, the pin moves on by one node, and it stays
  -- if none fails.
  pub rotate_all_lem :
      (len pin : ℕ) (rs : List (Result ℕ))
      → 2 ≤ len
      → pin < len
      → rotate_all is_server_error len pin rs pin ≡ (if any_failed rs then (pin + 1) % len else pin)
  unfolding rotate
  rotate_all_lem len pin [] h k = refl
  rotate_all_lem len pin (r ∷ rs) h k = elim (Bool-cases (increment_host is_server_error r)) [
    | inl e ↦ rw (e, ==_refl pin) (stays len pin rs ((pin + 1) % len) (moved len pin h k))
    | inr e ↦ rw e (rotate_all_lem len pin rs h k)
  ]

  -- The pin after `n` calls, one after the other, to failing nodes.
  abbrev pub failing_calls : ℕ → ℕ → ℕ → ℕ
  failing_calls len pin zero = pin
  failing_calls len pin (suc n) =
      let p = failing_calls len pin n in rotate is_server_error len p (ok 500) p

  -- While every node fails, calls one after the other try the nodes in turn.
  failing_calls_lem :
      (len pin n : ℕ)
      → is_server_error 500 ≡ true
      → pin < len
      → failing_calls len pin n ≡ (pin + n) % len
  unfolding rotate increment_host
  failing_calls_lem len pin zero e h =
      sym (mod-eq_of_lt (omega arith)) ∙ ap (λ k. k % len) (omega arith)
  failing_calls_lem len pin (suc n) e h =
      rw (e, ==_refl (failing_calls len pin n))
        (ap (λ k. (k + 1) % len) (failing_calls_lem len pin n e h)
          ∙ mod-add-mod (pin + n) len 1
          ∙ ap (λ k. k % len) (omega arith))

  module _ {T : Type 0} where
    -- The pin and the pins that requests have read are in range.
    pub record IsPinned (s : PinUntilError T) : Type 0 where
      pub order : IsValid s.nodes
      pub current : s.current_pin < length s.nodes.nodes
      pub requests : AllBelow (length s.nodes.nodes) s.in_flight

    -- A request gets a node.
    pub begin_call-IsPinned :
        (s : PinUntilError T) (entropy : Shuffle) (now loaded : ℕ)
        → Permutes entropy
        → IsPinned s
        → IsPinned (begin_call s entropy now loaded).0
          × ((x : T) × ((begin_call s entropy now loaded).1 ≡ some x))
    unfolding begin_call
    begin_call-IsPinned s entropy now loaded p v =
        let (w, same, reaches, found) =
          get-IsValid s.nodes entropy now loaded s.current_pin p v.order v.current in
        (
          record {
            order = w;
            current = subst (λ ns. s.current_pin < length ns) (sym same) v.current;
            requests =
                subst (λ ns. AllBelow (length ns) (s.current_pin ∷ s.in_flight)) (sym same)
                  (v.current, v.requests);
          },
          found,
        )

    pub end_call-IsPinned :
        (s : PinUntilError T) (i : ℕ) (result : Result ℕ)
        → IsPinned s
        → IsPinned (end_call is_server_error s i result)
    unfolding end_call
    end_call-IsPinned s i result v = elim (Option-cases (get_elem? s.in_flight i)) [
      | inl e ↦ rw (e, end_call) v
      | inr (pin, e) ↦
          rw (e, end_call)
            (record {
              order = v.order;
              current = rotate-below (length s.nodes.nodes) pin result s.current_pin v.current;
              requests = without-AllBelow (length s.nodes.nodes) i s.in_flight v.requests;
            })
    ]

  pub data Call : Type 0 where
    begins : Shuffle → ℕ → ℕ → Call
    ends : ℕ → Result ℕ → Call

  abbrev pub AllPermute : List Call → Type 0
  AllPermute [] = Unit {0}
  AllPermute (begins entropy now loaded ∷ cs) = Permutes entropy × AllPermute cs
  AllPermute (ends i result ∷ cs) = AllPermute cs

  module _ {T : Type 0} where
    abbrev pub calls : PinUntilError T → List Call → PinUntilError T
    calls s [] = s
    calls s (begins entropy now loaded ∷ cs) = calls (begin_call s entropy now loaded).0 cs
    calls s (ends i result ∷ cs) = calls (end_call is_server_error s i result) cs

    calls_from :
        (s : PinUntilError T) (cs : List Call) → AllPermute cs → IsPinned s → IsPinned (calls s cs)
    calls_from s [] a v = v
    calls_from s (begins entropy now loaded ∷ cs) (p, a) v =
        calls_from (begin_call s entropy now loaded).0 cs a
          (begin_call-IsPinned s entropy now loaded p v).0
    calls_from s (ends i result ∷ cs) a v =
        calls_from (end_call is_server_error s i result) cs a (end_call-IsPinned s i result v)

    -- With nodes to choose from, and whatever requests begin and end in whatever order: the next request
    -- gets a node, and the selector does not panic.
    pub calls-begin_call :
        (nodes : List T) (entropy : Shuffle) (jitter start : ℕ) (cs : List Call) (again : Shuffle)
        (now loaded : ℕ)
        → 1 ≤ length nodes
        → Permutes entropy
        → AllPermute cs
        → Permutes again
        → (x : T) × ((begin_call
              (calls (pin_first (with_entropy nodes entropy jitter start)) cs)
              again
              now
              loaded).1
            ≡ some x)
    unfolding with_entropy pin_first
    calls-begin_call nodes entropy jitter start cs again now loaded h p a q =
        (begin_call-IsPinned _ again now loaded q (
          calls_from (pin_first (with_entropy nodes entropy jitter start)) cs a (record {
            order = with_entropy-IsValid nodes entropy jitter start p;
            current = h;
            requests = tt;
          }))).1
