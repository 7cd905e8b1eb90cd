-- ===== src/Factory.antt =====
-- conjure-runtime/src/client_factory.rs: clients of a service, and of each of its hosts, which follow the
-- configuration.
--
-- URLs are numbers, for they are only compared. The refreshable values of the crate refreshable are parameters: when
-- one notifies its subscriber, and when it takes a mapped value.
use conjure_rust_runtime.Prelude.{
  ℕ, zero, suc, ◌+◌, Bool, true, false, Option, none, some, List, [], ◌∷◌, ◌++◌, length, get_elem?,
  ◌==◌, ◌&&◌, is_some, if◌then◌else◌,
}
use conjure_rust_runtime.Retry.Request.{Idempotency, by_method}
use conjure_rust_runtime.HttpError.{ServerQos, automatic_retry, ServiceError, wrap_in_new_error}
use conjure_rust_runtime.Selector.{NodeSelectionStrategy, pin_until_error}
use conjure_rust_runtime.Config.{
  Text, ServiceConfig, CachedConfig, ClientQos, enabled, ErrorParameterFormat, legacy, new_builder,
  from_config, apply,
}
use conjure_rust_runtime.Config
pub mod Hosts
pub mod Followed
pub mod Reloaded
pub mod Sound
pub mod Keyed
pub mod Visits
pub mod Rounds
pub mod Served
pub mod Keys
mod Examples

-- The handles of metrics, of host metrics, of a runtime for blocking clients, and of the Conjure runtime.
pub record UncachedConfig : Type 0 where
  pub metrics : Option ℕ
  pub host_metrics : Option ℕ
  pub blocking_handle : Option ℕ
  pub conjure_runtime : ℕ

-- `cache` tells the caches apart: clones of a factory share one until `uncached_mut`, which takes the fresh one.
pub record CacheManager : Type 0 where
  pub uncached_inner : UncachedConfig
  pub cache : ℕ

abbrev pub uncached_mut : ℕ → (UncachedConfig → UncachedConfig) → CacheManager → CacheManager
uncached_mut fresh set m = record { uncached_inner = set m.uncached_inner; cache = fresh }

-- `Complete`, less its configuration, or `StateBuilder`, less its service.
pub record Complete (UserAgent : Type 0) : Type 0 where
  pub user_agent : UserAgent
  pub client_qos : ClientQos
  pub server_qos : ServerQos
  pub service_error : ServiceError
  pub idempotency : Idempotency
  pub node_selection_strategy : NodeSelectionStrategy
  pub error_parameter_format : ErrorParameterFormat
  pub cache_manager : CacheManager

-- The setters of `ClientFactory`.
pub data Setter (UserAgent : Type 0) : Type 0 where
  user_agent : UserAgent → Setter UserAgent
  client_qos : ClientQos → Setter UserAgent
  server_qos : ServerQos → Setter UserAgent
  service_error : ServiceError → Setter UserAgent
  idempotency : Idempotency → Setter UserAgent
  node_selection_strategy : NodeSelectionStrategy → Setter UserAgent
  error_parameter_format : ErrorParameterFormat → Setter UserAgent
  metrics host_metrics conjure_runtime blocking_handle : ℕ → Setter UserAgent

-- `Builder`: what the cached state depends on, and the rest.
pub record Builder (UserAgent : Type 0) : Type 0 where
  pub cached : CachedConfig ℕ UserAgent
  pub uncached : UncachedConfig

module _ {UserAgent : Type 0} where
  unfoldable pub new_factory : UserAgent → ℕ → ℕ → Complete UserAgent
  new_factory agent runtime fresh = record {
    user_agent = agent;
    client_qos = enabled;
    server_qos = automatic_retry;
    service_error = wrap_in_new_error;
    idempotency = by_method;
    node_selection_strategy = pin_until_error;
    error_parameter_format = legacy;
    cache_manager = record {
      uncached_inner = record {
        metrics = none;
        host_metrics = none;
        blocking_handle = none;
        conjure_runtime = runtime;
      };
      cache = fresh;
    };
  }

  abbrev pub on_uncached :
      ℕ → (UncachedConfig → UncachedConfig) → Complete UserAgent → Complete UserAgent
  on_uncached fresh f c = record c { cache_manager = uncached_mut fresh f c.cache_manager }

  unfoldable pub set : ℕ → Setter UserAgent → Complete UserAgent → Complete UserAgent
  set fresh (user_agent x) c = record c { user_agent = x }
  set fresh (client_qos x) c = record c { client_qos = x }
  set fresh (server_qos x) c = record c { server_qos = x }
  set fresh (service_error x) c = record c { service_error = x }
  set fresh (idempotency x) c = record c { idempotency = x }
  set fresh (node_selection_strategy x) c = record c { node_selection_strategy = x }
  set fresh (error_parameter_format x) c = record c { error_parameter_format = x }
  set fresh (metrics x) c = on_uncached fresh (λ u. record u { metrics = some x }) c
  set fresh (host_metrics x) c = on_uncached fresh (λ u. record u { host_metrics = some x }) c
  set fresh (conjure_runtime x) c = on_uncached fresh (λ u. record u { conjure_runtime = x }) c
  set fresh (blocking_handle x) c = on_uncached fresh (λ u. record u { blocking_handle = some x }) c

  abbrev pub cached_config : Builder UserAgent → CachedConfig ℕ UserAgent
  cached_config b = b.cached

  -- The builder of `StateBuilder::build`.
  unfoldable pub state_builder :
      Complete UserAgent → Text → ServiceConfig ℕ → Option ℕ → Builder UserAgent
  state_builder c service config override_host_index =
      let b = new_builder service c.user_agent in
      let b = from_config b config in
      let b = Config.client_qos b c.client_qos in
      let b = Config.server_qos b c.server_qos in
      let b = Config.service_error b c.service_error in
      let b = Config.idempotency b c.idempotency in
      let b = Config.node_selection_strategy b c.node_selection_strategy in
      let b = Config.error_parameter_format b c.error_parameter_format in
      record {
        cached = apply Config.override_host_index override_host_index b;
        uncached = record {
          metrics = c.cache_manager.uncached_inner.metrics;
          host_metrics = c.cache_manager.uncached_inner.host_metrics;
          blocking_handle = none;
          conjure_runtime = c.cache_manager.uncached_inner.conjure_runtime;
        };
      }
