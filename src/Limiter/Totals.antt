-- ===== src/Limiter/Totals.antt =====
-- The total of the semaphore follows the limit, through every interleaving of the threads.
use conjure_rust_runtime.Prelude.{
  ℕ, zero, suc, ◌+◌, ◌≡◌, refl, ap, subst, Bool-cases, Option, none, some, List, [], ◌∷◌, ◌++◌,
  arith, inl, inr, some-injective, bind-some,
}
use conjure_rust_runtime.Limiter.{
  Float, CiadConcurrencyLimiter, Mode, ignore, success, dropped, Update, reading, adjusting, World,
  Event, acquires, drops, moves, adjust, new, new_limit, exchange, advance, move, begin_drop, step,
  run, initial_limit,
}
use conjure_rust_runtime.Limiter.Rules.{Rules}
use conjure_rust_runtime.Limiter.Counts.{
  raised, lowered, raised-append, lowered-append, adjust_lem, change_lem, Bounded,
  new_limit-Bounded,
}

module _ {F : Type 0} (float : Float F) (rules : Rules float) where
  -- The total stands for the limit, but for what the threads have still to do; the limit, and the
  -- limits that the threads have read, are within the bounds.
  pub record Balanced (l : CiadConcurrencyLimiter F) (total : ℕ) (us : List (Update F))
      : Type 0 where
    pub balance : total + raised us ≡ float.to_usize l.limit + lowered us
    pub bounded : Bounded float rules l.limit

  -- The limits that the threads have read are within the bounds.
  abbrev pub AllBounded : List (Update F) → Type 0
  AllBounded [] = Unit {0}
  AllBounded (reading m s l ∷ us) = Bounded float rules l × AllBounded us
  AllBounded (adjusting c ∷ us) = AllBounded us

  AllBounded-append :
      (us vs : List (Update F)) → AllBounded us → AllBounded vs → AllBounded (us ++ vs)
  AllBounded-append [] vs b c = c
  AllBounded-append (reading m s l ∷ us) vs (b, bs) c = (b, AllBounded-append us vs bs c)
  AllBounded-append (adjusting x ∷ us) vs bs c = AllBounded-append us vs bs c

  -- A step from one state of limiter, total and threads to another one keeps the balance, and the bounds.
  record Moves (l : CiadConcurrencyLimiter F) (total : ℕ) (us : List (Update F))
      (m : CiadConcurrencyLimiter F) (t : ℕ) (vs : List (Update F)) : Type 0 where
    shift :
        t + raised vs + float.to_usize l.limit + lowered us
        ≡ total + raised us + float.to_usize m.limit + lowered vs
    bounded : Bounded float rules m.limit
    all : AllBounded vs

  exchange-Moves :
      (l : CiadConcurrencyLimiter F) (total : ℕ) (mode : Mode) (snapshot : ℕ) (old : F)
      → Bounded float rules l.limit
      → Bounded float rules old
      → (n : Option F) → new_limit float mode snapshot old ≡ n
      → let (m, vs) = exchange float l mode snapshot old n in
        Moves l total (reading mode snapshot old ∷ []) m total vs
  unfolding exchange
  exchange-Moves l total mode snapshot old b c none h = record {
    shift = refl;
    bounded = b;
    all = tt;
  }
  exchange-Moves l total mode snapshot old b c (some next) h =
      elim (Bool-cases (float.same_bits old l.limit)) [
        | inl e ↦ rw e (record {
          shift = omega (
            arith,
            change_lem float rules (float.to_usize old) (float.to_usize next),
            ap float.to_usize (rules.same_bits-eq old l.limit e),
          );
          bounded = new_limit-Bounded float rules mode snapshot old next c h;
          all = tt;
        })
        | inr e ↦ rw e (record { shift = refl; bounded = b; all = (b, tt) })
      ]

  advance-Moves :
      (l m : CiadConcurrencyLimiter F) (total t : ℕ) (u : Update F) (vs : List (Update F))
      → Bounded float rules l.limit
      → AllBounded (u ∷ [])
      → advance float l total u ≡ some (m, t, vs)
      → Moves l total (u ∷ []) m t vs
  unfolding advance
  advance-Moves l m total t (reading mode snapshot old) vs b (c, cs) h =
      subst
        (λ (x : CiadConcurrencyLimiter F × ℕ × List (Update F)).
          Moves l total (reading mode snapshot old ∷ []) x.0 x.1 x.2)
        (some-injective h)
        (exchange-Moves l total mode snapshot old b c (new_limit float mode snapshot old) refl)
  advance-Moves l m total t (adjusting c) vs b a h =
      let (t', e, f) = bind-some (adjust total c) (λ t. some (l, t, [])) h in
      subst
        (λ (x : CiadConcurrencyLimiter F × ℕ × List (Update F)).
          Moves l total (adjusting c ∷ []) x.0 x.1 x.2)
        (some-injective f)
        (record { shift = omega (arith, adjust_lem total c t' e); bounded = b; all = tt })

  Moves-append :
      {l m : CiadConcurrencyLimiter F} {total t : ℕ} {u : Update F} {vs : List (Update F)}
      (us : List (Update F))
      → AllBounded us
      → Moves l total (u ∷ []) m t vs
      → Moves l total (u ∷ us) m t (vs ++ us)
  Moves-append {u = reading x s o} {vs} us a r = record {
    shift = omega (arith, raised-append vs us, lowered-append vs us, r.shift);
    bounded = r.bounded;
    all = AllBounded-append vs us r.all a;
  }
  Moves-append {u = adjusting c} {vs} us a r = record {
    shift = omega (arith, raised-append vs us, lowered-append vs us, r.shift);
    bounded = r.bounded;
    all = AllBounded-append vs us r.all a;
  }

  Moves-cons :
      {l m : CiadConcurrencyLimiter F} {total t : ℕ} {us vs : List (Update F)} (u : Update F)
      → AllBounded (u ∷ [])
      → Moves l total us m t vs
      → Moves l total (u ∷ us) m t (u ∷ vs)
  Moves-cons (reading x s o) a r = record {
    shift = r.shift;
    bounded = r.bounded;
    all = (a.0, r.all);
  }
  Moves-cons (adjusting c) a r = record {
    shift = omega (arith, r.shift);
    bounded = r.bounded;
    all = r.all;
  }

  AllBounded-cons :
      (u : Update F) (us : List (Update F))
      → AllBounded (u ∷ us)
      → AllBounded (u ∷ []) × AllBounded us
  AllBounded-cons (reading x s o) us (a, b) = ((a, tt), b)
  AllBounded-cons (adjusting c) us a = (tt, a)

  move-Moves :
      (l m : CiadConcurrencyLimiter F) (total t : ℕ) (us : List (Update F)) (i : ℕ)
      (vs : List (Update F))
      → Bounded float rules l.limit
      → AllBounded us
      → move float l total us i ≡ some (m, t, vs)
      → Moves l total us m t vs
  unfolding move
  move-Moves l m total t [] i vs b a h =
      subst (λ (x : CiadConcurrencyLimiter F × ℕ × List (Update F)). Moves l total [] x.0 x.1 x.2)
        (some-injective h) (record { shift = refl; bounded = b; all = tt })
  move-Moves l m total t (u ∷ us) zero vs b a h =
      let (x, e, f) = bind-some (advance float l total u) (λ (l, t, vs). some (l, t, vs ++ us)) h in
      subst
        (λ (x : CiadConcurrencyLimiter F × ℕ × List (Update F)). Moves l total (u ∷ us) x.0 x.1 x.2)
        (some-injective f)
        (Moves-append us (AllBounded-cons u us a).1
          (advance-Moves l x.0 total x.1 u x.2 b (AllBounded-cons u us a).0 e))
  move-Moves l m total t (u ∷ us) (suc i) vs b a h =
      let (x, e, f) = bind-some (move float l total us i) (λ (l, t, vs). some (l, t, u ∷ vs)) h in
      subst
        (λ (x : CiadConcurrencyLimiter F × ℕ × List (Update F)). Moves l total (u ∷ us) x.0 x.1 x.2)
        (some-injective f)
        (Moves-cons u (AllBounded-cons u us a).0
          (move-Moves l x.0 total x.1 us i x.2 b (AllBounded-cons u us a).1 e))

  record Inv (w : World F) : Type 0 where
    balanced : Balanced w.limiter w.total w.updates
    all : AllBounded w.updates

  begin_drop-quiet :
      (mode : Mode) (snapshot : ℕ) (limit : F) (us : List (Update F))
      → Bounded float rules limit
      → AllBounded us
      → (raised (begin_drop float mode snapshot limit ++ us) ≡ raised us)
        × (lowered (begin_drop float mode snapshot limit ++ us) ≡ lowered us)
        × AllBounded (begin_drop float mode snapshot limit ++ us)
  unfolding begin_drop
  begin_drop-quiet ignore snapshot limit us b a = (refl, refl, a)
  begin_drop-quiet success snapshot limit us b a = (refl, refl, (b, a))
  begin_drop-quiet dropped snapshot limit us b a = (refl, refl, (b, a))

  step-Inv : (w : World F) (e : Event) (v : World F) → Inv w → step float w e ≡ some v → Inv v
  unfolding step
  step-Inv w acquires v i h = subst Inv (some-injective h) (record {
    balanced = record { balance = i.balanced.balance; bounded = i.balanced.bounded };
    all = i.all;
  })
  step-Inv w (drops mode snapshot) v i h =
      let (r, l, a) =
        begin_drop-quiet mode snapshot w.limiter.limit w.updates i.balanced.bounded i.all in
      subst Inv (some-injective h) (record {
        balanced = record {
          balance = omega (arith, r, l, i.balanced.balance);
          bounded = i.balanced.bounded;
        };
        all = a;
      })
  step-Inv w (moves n) v i h =
      let (x, e, f) =
        bind-some (move float w.limiter w.total w.updates n)
          (λ (l, t, us). some (record { limiter = l; total = t; updates = us })) h in
      let m = move-Moves w.limiter x.0 w.total x.1 w.updates n x.2 i.balanced.bounded i.all e in
      subst Inv (some-injective f) (record {
        balanced = record {
          balance = omega (arith, m.shift, i.balanced.balance);
          bounded = m.bounded;
        };
        all = m.all;
      })

  run-Inv : (es : List Event) (w v : World F) → Inv w → run float w es ≡ some v → Inv v
  unfolding run
  run-Inv [] w v i h = subst Inv (some-injective h) i
  run-Inv (e ∷ es) w v i h =
      let (w', d, f) = bind-some (step float w e) (λ w. run float w es) h in
      run-Inv es w' v (step-Inv w e w' i d) f

  new-Inv : Inv (new float)
  unfolding new
  new-Inv = record {
    balanced = record {
      balance = omega (arith, rules.to_usize-of_nat initial_limit (omega arith));
      bounded = (
        omega (arith, rules.to_usize-of_nat initial_limit (omega arith)),
        omega (arith, rules.to_usize-of_nat initial_limit (omega arith)),
      );
    };
    all = tt;
  }

  -- However the threads interleave, unless one panics: the limit stays between 1 and a million, and
  -- the total of the semaphore with what the threads have still to add is the limit, rounded down,
  -- with what they have still to remove.
  pub run-Balanced :
      (es : List Event) (w : World F)
      → run float (new float) es ≡ some w
      → Balanced w.limiter w.total w.updates
  run-Balanced es w h = (run-Inv es (new float) w new-Inv h).balanced
