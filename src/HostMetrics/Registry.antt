-- ===== src/HostMetrics/Registry.antt =====
-- conjure-runtime/src/host_metrics.rs, the registry: the metrics of a host are shared while they are in use.
--
-- A host is a number, and its metrics an address. Reference counts are those of the registry's map, of the maps of the
-- snapshots that are alive, and of the handles: `Arc::make_mut` gives the registry a map of its own, and each snapshot
-- shares the map only with the registry.
use conjure_rust_runtime.Prelude.{
  ℕ, zero, suc, ◌+◌, ◌-◌, Bool, true, false, Option, none, some, List, [], ◌∷◌, ◌||◌, ltb, ◌==◌,
  if◌then◌else◌,
}
pub mod Live

abbrev pub Map : Type 0
Map = List (ℕ × ℕ)

abbrev pub lookup : ℕ → Map → Option ℕ
lookup h [] = none
lookup h ((k, v) ∷ m) = if h == k then some v else lookup h m

pub record HostMetricsRegistry : Type 0 where
  pub map : Map
  pub snapshots : List Map
  pub handles : ℕ → ℕ
  pub fresh : ℕ

unfoldable pub new : HostMetricsRegistry
new = record { map = []; snapshots = []; handles = λ i. 0; fresh = 0 }

abbrev pub add_handle : ℕ → (ℕ → ℕ) → ℕ → ℕ
add_handle id handles i = if i == id then handles i + 1 else handles i

abbrev pub drop_handle : ℕ → (ℕ → ℕ) → ℕ → ℕ
drop_handle id handles i = if i == id then handles i - 1 else handles i

-- `entry(key).or_insert_with(..).clone()`, of what the entry is.
abbrev pub get_entry : HostMetricsRegistry → ℕ → Option ℕ → HostMetricsRegistry × ℕ
get_entry r host (some id) = (record r { handles = add_handle id r.handles }, id)
get_entry r host none = (
  record {
    map = (host, r.fresh) ∷ r.map;
    snapshots = r.snapshots;
    handles = add_handle r.fresh r.handles;
    fresh = r.fresh + 1;
  },
  r.fresh,
)

unfoldable pub get : HostMetricsRegistry → ℕ → HostMetricsRegistry × ℕ
get r host = get_entry r host (lookup host r.map)

-- Whether a map holds these metrics.
abbrev pub holds : ℕ → Map → Bool
holds id [] = false
holds id ((k, v) ∷ m) = v == id || holds id m

abbrev pub any_holds : ℕ → List Map → Bool
any_holds id [] = false
any_holds id (m ∷ ms) = holds id m || any_holds id ms

-- `Arc::strong_count(v) > 1`, where the registry's map has one.
abbrev pub in_use : HostMetricsRegistry → ℕ → Bool
in_use r id = ltb 0 (r.handles id) || any_holds id r.snapshots

abbrev pub retain : (ℕ → Bool) → Map → Map
retain keep [] = []
retain keep ((k, v) ∷ m) = let rest = retain keep m in if keep v then (k, v) ∷ rest else rest

unfoldable pub hosts : HostMetricsRegistry → HostMetricsRegistry
hosts r = let m : Map = retain (in_use r) r.map in record r { map = m; snapshots = m ∷ r.snapshots }

abbrev pub remove_at : {A : Type 0} → ℕ → List A → List A
remove_at n [] = []
remove_at zero (x ∷ xs) = xs
remove_at (suc n) (x ∷ xs) = x ∷ remove_at n xs

-- A host's metrics are asked for, a handle of metrics is dropped, a snapshot is taken, and one is dropped.
pub data Event : Type 0 where
  gets drops : ℕ → Event
  takes_hosts : Event
  drops_hosts : ℕ → Event

unfoldable pub step : HostMetricsRegistry → Event → HostMetricsRegistry
step r (gets host) = (get r host).0
step r (drops id) = record r { handles = drop_handle id r.handles }
step r takes_hosts = hosts r
step r (drops_hosts n) = record r { snapshots = remove_at n r.snapshots }

unfoldable pub run : HostMetricsRegistry → List Event → HostMetricsRegistry
run r [] = r
run r (e ∷ es) = run (step r e) es
