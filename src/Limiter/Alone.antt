-- ===== src/Limiter/Alone.antt =====
-- A permit that is dropped while no other thread updates the limit.
use conjure_rust_runtime.Prelude.{
  ℕ, ◌-◌, ◌≤◌, ◌≡◌, refl, sym, subst, some, Option-cases, List, [], ◌∷◌, arith, inl, inr,
}
use conjure_rust_runtime.Limiter.{
  Float, CiadConcurrencyLimiter, Mode, ignore, success, dropped, Update, reading, World, Event,
  drops, moves, adjust, new_limit, change, exchange, advance, move, begin_drop, step, run,
  max_limit,
}
use conjure_rust_runtime.Limiter.Rules.{Rules}
use conjure_rust_runtime.Limiter.Counts.{Bounded, new_limit-Bounded}

module _ {F : Type 0} (float : Float F) (rules : Rules float) where
  -- The total is the limit, rounded down, and no thread has anything left to do.
  abbrev pub Settled : World F → Type 0
  Settled w =
      (w.updates ≡ [])
      × (w.total ≡ float.to_usize w.limiter.limit)
      × Bounded float rules w.limiter.limit

  adjust-change :
      (old next : ℕ)
      → old ≤ max_limit
      → next ≤ max_limit
      → adjust old (change float old next) ≡ some next
  unfolding adjust change
  adjust-change old next h k = ground arith

  abbrev world : CiadConcurrencyLimiter F → List (Update F) → World F
  world l us = record { limiter = l; total = float.to_usize l.limit; updates = us }

  -- The world when the drop is done, and the way there.
  abbrev Done : World F → List Event → Type 0
  Done w es = (v : World F) × (run float w es ≡ some v) × Settled v

  -- A thread that has just read the limit.
  read-Done :
      (l : CiadConcurrencyLimiter F) (mode : Mode) (snapshot : ℕ)
      → Bounded float rules l.limit
      → Done (world l (reading mode snapshot l.limit ∷ [])) (moves 0 ∷ moves 0 ∷ [])
  unfolding run step move advance exchange
  read-Done l mode snapshot b = elim (Option-cases (new_limit float mode snapshot l.limit)) [
    | inl e ↦ (world l [], rw (e, exchange) refl, (refl, refl, b))
    | inr (next, e) ↦
        let c = new_limit-Bounded float rules mode snapshot l.limit next b e in
        (
          world (record l { limit = next }) [],
          rw
              (
                e,
                exchange,
                rules.same_bits-refl l.limit,
                adjust-change (float.to_usize l.limit) (float.to_usize next) b.1 c.1,
              )
              refl,
          (refl, refl, c),
        )
  ]

  drop-Done :
      (l : CiadConcurrencyLimiter F) (mode : Mode) (snapshot : ℕ)
      → Bounded float rules l.limit
      → Done (world l []) (drops mode snapshot ∷ moves 0 ∷ moves 0 ∷ [])
  unfolding run step begin_drop move
  drop-Done l ignore snapshot b =
      (world (record l { in_flight = l.in_flight - 1 }) [], refl, (refl, refl, b))
  drop-Done l success snapshot b =
      read-Done (record l { in_flight = l.in_flight - 1 }) success snapshot b
  drop-Done l dropped snapshot b =
      read-Done (record l { in_flight = l.in_flight - 1 }) dropped snapshot b

  -- A permit that is dropped while nobody else updates the limit does not panic, and is done after two
  -- steps: the semaphore's total is again the limit, rounded down, between 1 and a million.
  pub run-alone :
      (w : World F) (mode : Mode) (snapshot : ℕ)
      → Settled w
      → (v : World F) × (run float w (drops mode snapshot ∷ moves 0 ∷ moves 0 ∷ []) ≡ some v)
        × Settled v
  run-alone w mode snapshot (e, t, b) =
      subst
        (λ (x : ℕ × List (Update F)).
          Done (record { limiter = w.limiter; total = x.0; updates = x.1 })
            (drops mode snapshot ∷ moves 0 ∷ moves 0 ∷ []))
        (λ i. (sym t i, sym e i)) (drop-Done w.limiter mode snapshot b)
