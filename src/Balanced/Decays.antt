-- ===== src/Balanced/Decays.antt =====
-- When the failures of a node are forgotten.
use conjure_rust_runtime.Prelude.{
  ℕ, ◌+◌, ◌-◌, ◌*◌, ◌/◌, ◌%◌, ◌^◌, ◌≤◌, ◌<◌, ◌≡◌, refl, true, false, if◌then◌else◌, ◌==◌, ==_iff,
  ==_refl, subst, Bool-cases, inl, inr, arith,
}
use conjure_rust_runtime.Balanced.{
  Float, Reservoir, decays_since, exchange, decay_if_necessary, settle,
}

-- The interval for a memory of 30 seconds.
abbrev pub interval : ℕ
interval = 3_000_000_000

-- The last decay is at a multiple of the interval.
abbrev pub OnGrid : {F : Type 0} → Reservoir F → Type 0
OnGrid r = (r.decay_interval_nanos ≡ interval) × (r.last_decay_nanos % interval ≡ 0)

-- The multiples of the interval between two times.
abbrev pub multiples : ℕ → ℕ → ℕ
multiples last now = now / interval - last / interval

decays-multiples :
    (last now : ℕ)
    → last % interval ≡ 0
    → last ≤ now
    → now < 2 ^ 64
    → ((now + 2 ^ 64 - last) % 2 ^ 64) / interval ≡ multiples last now
decays-multiples last now g le lt = omega arith

multiples-last :
    (last now : ℕ)
    → last % interval ≡ 0
    → last ≤ now
    → now < 2 ^ 64
    → (last + multiples last now * interval) % 2 ^ 64 ≡ now / interval * interval
multiples-last last now g le lt = omega arith

module _ {F : Type 0} (float : Float F) where
  -- A use at a time not before the last decay puts the last decay at the last multiple of the interval before that
  -- time, and multiplies the value by the factor once for each multiple in between.
  abbrev pub Settled : ℕ → Reservoir F → Reservoir F → Type 0
  Settled now r s =
      OnGrid s
      × (s.last_decay_nanos ≡ now / interval * interval)
      × (s.value ≡ (
          if multiples r.last_decay_nanos now == 0
          then r.value
          else float.mul r.value
              (float.powi float.decay_factor (multiples r.last_decay_nanos now % 2 ^ 32))))

  exchange-Settled :
      (now d : ℕ) (r : Reservoir F)
      → OnGrid r
      → r.last_decay_nanos ≤ now
      → now < 2 ^ 64
      → d ≡ multiples r.last_decay_nanos now
      → Settled now r (if d == 0 then r else exchange float r.last_decay_nanos d r)
  exchange-Settled now d r (i, g) le lt e = elim (Bool-cases (d == 0)) [
    | inl z ↦
        rw (z, Settled)
          (
            (i, g),
            omega (arith, subst (λ k. k ≡ 0) e ((==_iff d 0).0 z), g, le),
            rw (subst (λ k. (k == 0) ≡ true) e z) refl,
          )
    | inr z ↦
        rw (z, exchange, ==_refl r.last_decay_nanos, i, e)
          (
            (refl, rw (multiples-last r.last_decay_nanos now g le lt) (omega arith)),
            multiples-last r.last_decay_nanos now g le lt,
            rw (subst (λ k. (k == 0) ≡ false) e z) refl,
          )
  ]

  settle-Settled :
      (now : ℕ) (r : Reservoir F)
      → OnGrid r
      → r.last_decay_nanos ≤ now
      → now < 2 ^ 64
      → Settled now r (settle float now r)
  unfolding settle decay_if_necessary
  settle-Settled now r (i, g) le lt =
      exchange-Settled now (decays_since float r now r.last_decay_nanos) r (i, g) le lt
        (rw (i) (decays-multiples r.last_decay_nanos now g le lt))
