-- ===== src/Limiter/Counts.antt =====
-- What the threads have still to do to the semaphore, and the bounds of the limit.
use conjure_rust_runtime.Prelude.{
  ℕ, ◌+◌, ◌≤◌, ◌≡◌, subst, Bool-cases, some, List, [], ◌∷◌, ◌++◌, leb, arith, inl, inr,
  some-injective,
}
use conjure_rust_runtime.Limiter.{
  Float, Mode, ignore, success, dropped, Change, add_permits, remove_permits, keep, Update, reading,
  adjusting, adjust, new_limit, change, min_limit, max_limit,
}
use conjure_rust_runtime.Limiter.Rules.{Rules}

abbrev pub raise : Change → ℕ
raise (add_permits n) = n
raise (remove_permits n) = 0
raise keep = 0

abbrev pub lower : Change → ℕ
lower (add_permits n) = 0
lower (remove_permits n) = n
lower keep = 0

-- The permits that the threads have still to add, and to remove.
module _ {F : Type 0} where
  abbrev pub raised : List (Update F) → ℕ
  raised [] = 0
  raised (reading m s l ∷ us) = raised us
  raised (adjusting c ∷ us) = raise c + raised us

  abbrev pub lowered : List (Update F) → ℕ
  lowered [] = 0
  lowered (reading m s l ∷ us) = lowered us
  lowered (adjusting c ∷ us) = lower c + lowered us

  pub raised-append : (us vs : List (Update F)) → raised (us ++ vs) ≡ raised us + raised vs
  raised-append [] vs = omega arith
  raised-append (reading m s l ∷ us) vs = raised-append us vs
  raised-append (adjusting c ∷ us) vs = omega (arith, raised-append us vs)

  pub lowered-append : (us vs : List (Update F)) → lowered (us ++ vs) ≡ lowered us + lowered vs
  lowered-append [] vs = omega arith
  lowered-append (reading m s l ∷ us) vs = lowered-append us vs
  lowered-append (adjusting c ∷ us) vs = omega (arith, lowered-append us vs)

pub adjust_lem :
    (total : ℕ) (c : Change) (t : ℕ) → adjust total c ≡ some t → t + lower c ≡ total + raise c
unfolding adjust
adjust_lem total (add_permits n) t h = ground arith
adjust_lem total (remove_permits n) t h = ground arith
adjust_lem total keep t h = omega (arith, some-injective h)

module _ {F : Type 0} (float : Float F) (rules : Rules float) where
  pub change_lem :
      (old next : ℕ) → old + raise (change float old next) ≡ next + lower (change float old next)
  unfolding change
  change_lem old next = ground arith

  -- A limit within its bounds.
  abbrev pub Bounded : F → Type 0
  Bounded l = (min_limit ≤ float.to_usize l) × (float.to_usize l ≤ max_limit)

  -- A new limit is within the bounds, if the old one was.
  pub new_limit-Bounded :
      (mode : Mode) (snapshot : ℕ) (old next : F)
      → Bounded old
      → new_limit float mode snapshot old ≡ some next
      → Bounded next
  unfolding new_limit
  new_limit-Bounded ignore snapshot old next b h = cc
  new_limit-Bounded success snapshot old next (low, high) h =
      elim (Bool-cases (leb (float.to_usize (float.mul old float.backoff_ratio)) snapshot)) [
        | inl e ↦ subst Bounded (some-injective (rw e at h)) (
          omega (
            arith,
            rules.fmin-above max_limit (float.add old (float.div (float.of_nat 1) old))
                (omega arith),
            rules.add-div old low,
          ),
          rules.fmin-below max_limit _ (omega arith),
        )
        | inr e ↦ cc (rw e at h)
      ]
  new_limit-Bounded dropped snapshot old next (low, high) h = subst Bounded (some-injective h) (
    rules.fmax-above min_limit _ (omega arith),
    omega (
      arith,
      rules.fmax-below min_limit (float.floor (float.mul old float.backoff_ratio)) (omega arith),
      rules.floor-mul old,
    ),
  )
