-- ===== src/Factory/Examples.antt =====
-- Tests of the factory, and its theorems at concrete inputs.
use conjure_rust_runtime.Prelude.{
  ℕ, ◌≡◌, refl, Bool, true, false, Option, none, some, List, [], ◌∷◌, get_elem?, ltb, if◌then◌else◌,
}
use conjure_rust_runtime.Config.{ServiceConfig}
use conjure_rust_runtime.Factory.{Complete, user_agent, metrics, new_factory, set, state_builder}
use conjure_rust_runtime.Factory.Keys.{
  Event, builds, clones, sets, empty_pool, step, run, cached_config-determines,
}
use conjure_rust_runtime.Factory.Hosts.{
  PerHost, reload, lookup, visit_all, visit, raw_client, refresh, same_hosts,
}
use conjure_rust_runtime.Factory.Followed.{Keeps}
use conjure_rust_runtime.Factory.Served.{Valid, Follows, reload-Follows}

abbrev config : List ℕ → ServiceConfig ℕ
config us = record {
  uris = us;
  security = none;
  proxy = none;
  connect_timeout = none;
  read_timeout = none;
  write_timeout = none;
  backoff_slot_size = none;
  max_num_retries = none;
}

-- A factory and its clone, which are both given another user agent, and another clone that is given metrics.
abbrev some_factories : List (Event ℕ)
some_factories =
    builds 7 0
    ∷ clones 0
    ∷ clones 0
    ∷ sets 0 (user_agent 8)
    ∷ sets 1 (user_agent 8)
    ∷ sets 2 (metrics 5)
    ∷ []

factory_calls : Unit {0}
unfolding run step new_factory set
factory_calls = tt

abbrev factory_at : ℕ → Option (Complete ℕ)
factory_at i = get_elem? (run empty_pool some_factories).factories i

abbrev renamed : Complete ℕ
renamed = set 1 (user_agent 8) (new_factory 7 0 0)

abbrev measured : Complete ℕ
measured = set 3 (metrics 5) (new_factory 7 0 0)

factories_test : (run empty_pool some_factories).factories ≡ renamed ∷ renamed ∷ measured ∷ []
unfolding factory_calls
factories_test = refl

cached_config-determines_example :
    state_builder renamed [] (config (1 ∷ [])) none
    ≡ state_builder renamed [] (config (1 ∷ [])) none
unfolding factory_calls
cached_config-determines_example =
    cached_config-determines some_factories 0 1 renamed renamed [] [] (config (1 ∷ []))
      (config (1 ∷ [])) none none refl refl refl refl

-- A host below 100 can be built.
abbrev build : ServiceConfig ℕ → Option ℕ → Option ℕ
build c index = elim c.uris [ [] ↦ none | u ∷ us ↦ if ltb u 100 then some u else none ]

abbrev always : ServiceConfig ℕ → ServiceConfig ℕ → Bool
always c d = true

reload_calls : Unit {0}
unfolding reload visit_all visit raw_client refresh same_hosts
reload_calls = tt

abbrev no_hosts : PerHost ℕ
no_hosts = record { states = []; client_handles = []; current = [] }

abbrev after : List (List ℕ) → PerHost ℕ
after [] = no_hosts
after (us ∷ uss) = (reload build always false (after uss) (config us)).0

-- The latest reload comes first.
reload_test : (after ((2 ∷ 1 ∷ []) ∷ (1 ∷ []) ∷ [])).current ≡ (1, 0) ∷ (2, 1) ∷ []
unfolding reload_calls
reload_test = refl

-- A reload that fails drops the handle of a client which stays in the collection, and the next one, to the hosts
-- of the collection, makes a client that is not in it.
failed_test :
    (lookup 1 (after ((1 ∷ []) ∷ (200 ∷ []) ∷ (1 ∷ []) ∷ [])).current ≡ some 0)
    × (lookup 1 (after ((1 ∷ []) ∷ (200 ∷ []) ∷ (1 ∷ []) ∷ [])).client_handles ≡ some 1)
unfolding reload_calls
failed_test = (refl, refl)

-- The same happens to a host that is given twice.
twice_test :
    (lookup 1 (after ((1 ∷ 1 ∷ []) ∷ (1 ∷ 1 ∷ []) ∷ [])).current ≡ some 1)
    × (lookup 1 (after ((1 ∷ 1 ∷ []) ∷ (1 ∷ 1 ∷ []) ∷ [])).client_handles ≡ some 2)
unfolding reload_calls
twice_test = (refl, refl)

abbrev one_host : PerHost ℕ
one_host = after ((1 ∷ []) ∷ [])

always_told : (a b : ServiceConfig ℕ) → always a b ≡ false → a ≡ b
always_told a b e = cc

no_hosts-Valid : Valid build always false always_told no_hosts
no_hosts-Valid = record {
  live = λ h id e. cc;
  built = λ h id e. cc;
  apart = λ h k id e f. cc;
  keyed = tt;
}

one_host-Valid : Valid build always false always_told one_host
unfolding reload_calls
one_host-Valid =
    (reload-Follows build always false always_told no_hosts (config (1 ∷ [])) (tt, tt)
      no_hosts-Valid refl).0

reload-Follows_example :
    let v = (reload build always false one_host (config (2 ∷ 1 ∷ []))).0 in
    Valid build always false always_told v
    × Keeps one_host v
    × Follows build always false always_told (config (2 ∷ 1 ∷ [])) v
unfolding reload_calls
reload-Follows_example =
    reload-Follows build always false always_told one_host (config (2 ∷ 1 ∷ []))
      ((refl, tt), (tt, tt)) one_host-Valid refl
