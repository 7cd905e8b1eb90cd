-- ===== src/HostMetrics/Registry/Live.antt =====
-- Metrics that are in use are not replaced.
use conjure_rust_runtime.Prelude.{
  ℕ, ◌<◌, ◌≡◌, refl, sym, ap, subst, ◌∙◌, Bool, true, false, Option, none, some, some-injective,
  List, [], ◌∷◌, lt→ltb, ◌==◌, ==_refl, ==_iff, if◌then◌else◌,
}
use conjure_rust_runtime.HostMetrics.Registry.{
  Map, lookup, HostMetricsRegistry, get_entry, get, in_use, retain, hosts, Event, gets, drops,
  takes_hosts, drops_hosts, step, run,
}

lookup-retain :
    (keep : ℕ → Bool) (h id : ℕ) (m : Map)
    → keep id ≡ true
    → lookup h m ≡ some id
    → lookup h (retain keep m) ≡ some id
lookup-retain keep h id [] k e = e
lookup-retain keep h id ((j, v) ∷ m) k e = go (h == j) refl e (lookup-retain keep h id m k)
  where
    go :
        (c : Bool)
        → (h == j) ≡ c
        → (if c then some v else lookup h m) ≡ some id
        → (lookup h m ≡ some id → lookup h (retain keep m) ≡ some id)
        → lookup h (if keep v then (j, v) ∷ retain keep m else retain keep m) ≡ some id
    go true w e later = rw (subst (λ x. keep x ≡ true) (sym (some-injective e)) k, lookup, w) e
    go false w e later = each (keep v)
      where
        each : (b : Bool) → lookup h (if b then (j, v) ∷ retain keep m else retain keep m) ≡ some id
        each true = rw (lookup, w) (later e)
        each false = later e

-- The host has the same metrics after a step, if they have a handle before it.
step-lookup :
    (r : HostMetricsRegistry) (e : Event) (h id : ℕ)
    → 0 < r.handles id
    → lookup h r.map ≡ some id
    → lookup h (step r e).map ≡ some id
unfolding step get hosts
step-lookup r (gets host) h id lt e = go (lookup host r.map) refl (h == host) refl
  where
    go :
        (o : Option ℕ)
        → lookup host r.map ≡ o
        → (c : Bool) → (h == host) ≡ c
        → lookup h (get_entry r host o).0.map ≡ some id
    go (some x) f c w = e
    go none f true w =
        absurd (sym (subst (λ k. lookup k r.map ≡ some id) ((==_iff h host).0 w) e) ∙ f)
      where
        absurd : some id ≡ none → lookup h ((host, r.fresh) ∷ r.map) ≡ some id
        absurd h = cc
    go none f false w = rw (lookup, w) e
step-lookup r (drops x) h id lt e = e
step-lookup r takes_hosts h id lt e =
    lookup-retain (in_use r) h id r.map (rw (lt→ltb 0 (r.handles id) lt) refl) e
step-lookup r (drops_hosts n) h id lt e = e

-- The metrics have a handle before each of the events.
abbrev pub Held : ℕ → HostMetricsRegistry → List Event → Type 0
Held id r [] = Unit {0}
Held id r (e ∷ es) = (0 < r.handles id) × Held id (step r e) es

run-lookup :
    (r : HostMetricsRegistry) (es : List Event) (h id : ℕ)
    → Held id r es
    → lookup h r.map ≡ some id
    → lookup h (run r es).map ≡ some id
unfolding run
run-lookup r [] h id held e = e
run-lookup r (x ∷ es) h id (lt, held) e =
    run-lookup (step r x) es h id held (step-lookup r x h id lt e)

get-lookup : (r : HostMetricsRegistry) (h : ℕ) → lookup h (get r h).0.map ≡ some (get r h).1
unfolding get
get-lookup r h = go (lookup h r.map) refl
  where
    go :
        (o : Option ℕ)
        → lookup h r.map ≡ o
        → lookup h (get_entry r h o).0.map ≡ some (get_entry r h o).1
    go (some id) e = e
    go none e = rw (lookup, ==_refl h) refl

found : (r : HostMetricsRegistry) (h id : ℕ) → lookup h r.map ≡ some id → (get r h).1 ≡ id
unfolding get
found r h id e = ap (λ o. (get_entry r h o).1) e

-- While the metrics of a host have a handle, whatever else happens to the registry, the host is given the same
-- metrics again.
pub get-same :
    (r : HostMetricsRegistry) (h : ℕ) (es : List Event)
    → Held (get r h).1 (get r h).0 es
    → (get (run (get r h).0 es) h).1 ≡ (get r h).1
get-same r h es held =
    let w : HostMetricsRegistry = run (get r h).0 es in
    found w h (get r h).1 (run-lookup (get r h).0 es h (get r h).1 held (get-lookup r h))
