-- ===== src/Factory/Keys.antt =====
-- Clients share a state only if all it is made of is the same.
use conjure_rust_runtime.Prelude.{
  ℕ, ◌+◌, ◌<◌, ◌≡◌, refl, sym, ap, subst, ◌∙◌, false, All, All-imp, All-get_elem?, replace_at,
  All-replace_at, Option-cases, Option, none, some, List, [], ◌∷◌, get_elem?, ◌==◌, ==_refl,
  if◌then◌else◌, ◌⊎◌, inl, inr, arith,
}
use conjure_rust_runtime.Config.{Text, ServiceConfig}
use conjure_rust_runtime.Factory.{
  UncachedConfig, CacheManager, Complete, new_factory, Setter, user_agent, client_qos, server_qos,
  service_error, idempotency, node_selection_strategy, error_parameter_format, metrics,
  host_metrics, conjure_runtime, blocking_handle, set, cached_config, state_builder,
}

-- The factories of a program: one is made with a new cache, one is cloned, and a setter is called on one.
pub data Event (UserAgent : Type 0) : Type 0 where
  builds : UserAgent → ℕ → Event UserAgent
  clones : ℕ → Event UserAgent
  sets : ℕ → Setter UserAgent → Event UserAgent

pub record Pool (UserAgent : Type 0) : Type 0 where
  pub factories : List (Complete UserAgent)
  pub fresh : ℕ

abbrev extend : (ℕ → UncachedConfig) → ℕ → UncachedConfig → ℕ → UncachedConfig
extend of fresh u i = if i == fresh then u else of i

abbrev no_settings : UncachedConfig
no_settings = record {
  metrics = none;
  host_metrics = none;
  blocking_handle = none;
  conjure_runtime = 0;
}

lt_not_eq : (a b : ℕ) → a < b → (a == b) ≡ false
lt_not_eq a b h = ground arith

-- The uncached settings are a function of the cache.
abbrev AssignedManager : (ℕ → UncachedConfig) → ℕ → CacheManager → Type 0
AssignedManager of fresh m = (m.cache < fresh) × (m.uncached_inner ≡ of m.cache)

module _ {UserAgent : Type 0} where
  unfoldable pub step : Pool UserAgent → Event UserAgent → Pool UserAgent
  step w (builds agent runtime) = record {
    factories = new_factory agent runtime w.fresh ∷ w.factories;
    fresh = w.fresh + 1;
  }
  step w (clones i) = elim (get_elem? w.factories i) [
    | none ↦ w
    | some c ↦ record w { factories = c ∷ w.factories }
  ]
  step w (sets i s) = elim (get_elem? w.factories i) [
    | none ↦ w
    | some c ↦ record {
      factories = replace_at i (set w.fresh s c) w.factories;
      fresh = w.fresh + 1;
    }
  ]

  unfoldable pub run : Pool UserAgent → List (Event UserAgent) → Pool UserAgent
  run w [] = w
  run w (e ∷ es) = run (step w e) es

  abbrev pub empty_pool : Pool UserAgent
  empty_pool = record { factories = []; fresh = 0 }

  abbrev Assigned : (ℕ → UncachedConfig) → ℕ → Complete UserAgent → Type 0
  Assigned of fresh c = AssignedManager of fresh c.cache_manager

  abbrev pub Coherent : Pool UserAgent → Type 0
  Coherent w = (of : ℕ → UncachedConfig) × All (Assigned of w.fresh) w.factories

  Assigned-extend :
      (of : ℕ → UncachedConfig) (fresh : ℕ) (u : UncachedConfig) (c : Complete UserAgent)
      → Assigned of fresh c
      → Assigned (extend of fresh u) (fresh + 1) c
  Assigned-extend of fresh u c (lt, e) =
      (omega (arith, lt), rw (lt_not_eq c.cache_manager.cache fresh lt) e)

  Assigned-fresh :
      (of : ℕ → UncachedConfig) (fresh : ℕ) (c : Complete UserAgent)
      → c.cache_manager.cache ≡ fresh
      → Assigned (extend of fresh c.cache_manager.uncached_inner) (fresh + 1) c
  Assigned-fresh of fresh c e = (omega (arith, e), rw (e, ==_refl fresh) refl)

  All-extend :
      (of : ℕ → UncachedConfig) (fresh : ℕ) (u : UncachedConfig) (cs : List (Complete UserAgent))
      → All (Assigned of fresh) cs
      → All (Assigned (extend of fresh u) (fresh + 1)) cs
  All-extend of fresh u =
      All-imp (Assigned of fresh) (Assigned (extend of fresh u) (fresh + 1))
        (Assigned-extend of fresh u)

  -- Either a setter leaves the cache and what it belongs to, or it takes the fresh one.
  set-cache :
      (fresh : ℕ) (s : Setter UserAgent) (c : Complete UserAgent)
      → ((set fresh s c).cache_manager ≡ c.cache_manager)
        ⊎ ((set fresh s c).cache_manager.cache ≡ fresh)
  unfolding set
  set-cache fresh (user_agent x) c = inl refl
  set-cache fresh (client_qos x) c = inl refl
  set-cache fresh (server_qos x) c = inl refl
  set-cache fresh (service_error x) c = inl refl
  set-cache fresh (idempotency x) c = inl refl
  set-cache fresh (node_selection_strategy x) c = inl refl
  set-cache fresh (error_parameter_format x) c = inl refl
  set-cache fresh (metrics x) c = inr refl
  set-cache fresh (host_metrics x) c = inr refl
  set-cache fresh (conjure_runtime x) c = inr refl
  set-cache fresh (blocking_handle x) c = inr refl

  set-Coherent :
      (w : Pool UserAgent) (i : ℕ) (s : Setter UserAgent) (c : Complete UserAgent)
      → Coherent w
      → get_elem? w.factories i ≡ some c
      → Coherent
          (record { factories = replace_at i (set w.fresh s c) w.factories; fresh = w.fresh + 1 })
  set-Coherent w i s c (of, h) e = (
    extend of w.fresh (set w.fresh s c).cache_manager.uncached_inner,
    All-replace_at
        (Assigned (extend of w.fresh (set w.fresh s c).cache_manager.uncached_inner) (w.fresh + 1))
        i (set w.fresh s c) w.factories
        (elim (set-cache w.fresh s c) [
          | inl same ↦
              Assigned-extend of w.fresh (set w.fresh s c).cache_manager.uncached_inner
                (set w.fresh s c)
                (subst (AssignedManager of w.fresh) (sym same)
                  (All-get_elem? (Assigned of w.fresh) w.factories i c h e))
          | inr new ↦ Assigned-fresh of w.fresh (set w.fresh s c) new
        ])
        (All-extend of w.fresh (set w.fresh s c).cache_manager.uncached_inner w.factories h),
  )

  step-Coherent : (w : Pool UserAgent) (e : Event UserAgent) → Coherent w → Coherent (step w e)
  unfolding step new_factory
  step-Coherent w (builds agent runtime) (of, h) =
      let c : Complete UserAgent = new_factory agent runtime w.fresh in
      (
        extend of w.fresh c.cache_manager.uncached_inner,
        (
          Assigned-fresh of w.fresh c refl,
          All-extend of w.fresh c.cache_manager.uncached_inner w.factories h,
        ),
      )
  step-Coherent w (clones i) (of, h) = elim (Option-cases (get_elem? w.factories i)) [
    | inl e ↦ rw (e, step) (of, h)
    | inr (c, e) ↦ rw (e, step) (of, (All-get_elem? (Assigned of w.fresh) w.factories i c h e, h))
  ]
  step-Coherent w (sets i s) (of, h) = elim (Option-cases (get_elem? w.factories i)) [
    | inl e ↦ rw (e, step) (of, h)
    | inr (c, e) ↦ rw (e, step) (set-Coherent w i s c (of, h) e)
  ]

  pub run-Coherent :
      (w : Pool UserAgent) (es : List (Event UserAgent)) → Coherent w → Coherent (run w es)
  unfolding run
  run-Coherent w [] h = h
  run-Coherent w (e ∷ es) h = run-Coherent (step w e) es (step-Coherent w e h)

  same_uncached :
      (c d : Complete UserAgent) (name other : Text) (config changed : ServiceConfig ℕ)
      (i j : Option ℕ)
      → c.cache_manager.uncached_inner ≡ d.cache_manager.uncached_inner
      → cached_config (state_builder c name config i)
        ≡ cached_config (state_builder d other changed j)
      → state_builder c name config i ≡ state_builder d other changed j
  unfolding state_builder
  same_uncached c d name other config changed i j e k = λ t. record {
    cached = k t;
    uncached = record {
      metrics = (e t).metrics;
      host_metrics = (e t).host_metrics;
      blocking_handle = none;
      conjure_runtime = (e t).conjure_runtime;
    };
  }

  -- Of the factories that any clones and setters lead to: if two look up a client in the same cache under the same
  -- key, then all that the client's state is made of is the same.
  pub cached_config-determines :
      (es : List (Event UserAgent)) (m n : ℕ) (c d : Complete UserAgent) (name other : Text)
      (config changed : ServiceConfig ℕ) (i j : Option ℕ)
      → get_elem? (run empty_pool es).factories m ≡ some c
      → get_elem? (run empty_pool es).factories n ≡ some d
      → c.cache_manager.cache ≡ d.cache_manager.cache
      → cached_config (state_builder c name config i)
        ≡ cached_config (state_builder d other changed j)
      → state_builder c name config i ≡ state_builder d other changed j
  cached_config-determines es m n c d name other config changed i j g h same k =
      let (of, all) = run-Coherent empty_pool es ((λ i. no_settings), tt) in
      let (_, e) =
        All-get_elem? (Assigned of (run empty_pool es).fresh) (run empty_pool es).factories m c all
          g in
      let (_, f) =
        All-get_elem? (Assigned of (run empty_pool es).fresh) (run empty_pool es).factories n d all
          h in
      same_uncached c d name other config changed i j (e ∙ ap of same ∙ sym f) k
