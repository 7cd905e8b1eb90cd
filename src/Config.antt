-- ===== src/Config.antt =====
-- conjure-runtime-config/src/lib.rs and conjure-runtime/src/builder.rs: the settings of a service, and
-- of a client that is built from them.
--
-- Texts and paths are lists of characters; `Url` and `UserAgent` are parameters. How a
-- configuration file is read, and the settings that are not plain data (metrics, runtimes), are left out.
use conjure_rust_runtime.Prelude.{ℕ, ◌*◌, Bool, Option, none, some, List, [], ◌∷◌, ◌++◌}
use conjure_rust_runtime.Errors.{Duration}
use conjure_rust_runtime.Retry.Request.{Idempotency, by_method, RetryService}
use conjure_rust_runtime.HttpError.{ServerQos, automatic_retry, ServiceError, wrap_in_new_error}
use conjure_rust_runtime.Selector.{NodeSelectionStrategy, pin_until_error}
pub mod Merged
pub mod HostPort
mod Examples

abbrev pub Text : Type 0
Text = List ℕ

pub record SecurityConfig : Type 0 where
  pub ca_file : Option Text
  pub key_file : Option Text
  pub cert_file : Option Text
  pub pinned_certs : List Text

pub record BasicCredentials : Type 0 where
  pub username : Text
  pub password : Text

pub record HostAndPort : Type 0 where
  pub host : Text
  pub port : ℕ

pub record HttpProxyConfig : Type 0 where
  pub host_and_port : HostAndPort
  pub credentials : Option BasicCredentials

pub data ProxyConfig : Type 0 where
  direct : ProxyConfig
  http : HttpProxyConfig → ProxyConfig

pub record ServiceConfig (Url : Type 0) : Type 0 where
  pub uris : List Url
  pub security : Option SecurityConfig
  pub proxy : Option ProxyConfig
  pub connect_timeout : Option Duration
  pub read_timeout : Option Duration
  pub write_timeout : Option Duration
  pub backoff_slot_size : Option Duration
  pub max_num_retries : Option ℕ

pub record ServicesConfig (Url : Type 0) : Type 0 where
  pub services : Text → Option (ServiceConfig Url)
  pub security : Option SecurityConfig
  pub proxy : Option ProxyConfig
  pub connect_timeout : Option Duration
  pub read_timeout : Option Duration
  pub write_timeout : Option Duration
  pub backoff_slot_size : Option Duration

-- `if service.x.is_none() { service.x = self.x }`
abbrev pub or_else : {A : Type 0} → Option A → Option A → Option A
or_else none b = b
or_else (some a) b = some a

abbrev pub with_defaults :
    {Url : Type 0} → ServicesConfig Url → ServiceConfig Url → ServiceConfig Url
with_defaults s c = record {
  uris = c.uris;
  security = or_else c.security s.security;
  proxy = or_else c.proxy s.proxy;
  connect_timeout = or_else c.connect_timeout s.connect_timeout;
  read_timeout = or_else c.read_timeout s.read_timeout;
  write_timeout = or_else c.write_timeout s.write_timeout;
  backoff_slot_size = or_else c.backoff_slot_size s.backoff_slot_size;
  max_num_retries = c.max_num_retries;
}

unfoldable pub merged_service :
    {Url : Type 0} → ServicesConfig Url → Text → Option (ServiceConfig Url)
merged_service s name = elim (s.services name) [ none ↦ none | some c ↦ some (with_defaults s c) ]

pub data ClientQos : Type 0 where
  enabled dangerous_disable_sympathetic_client_qos : ClientQos

pub data ErrorParameterFormat : Type 0 where
  legacy json : ErrorParameterFormat

pub record CachedConfig (Url UserAgent : Type 0) : Type 0 where
  pub service : Text
  pub user_agent : UserAgent
  pub uris : List Url
  pub security : SecurityConfig
  pub proxy : ProxyConfig
  pub connect_timeout : Duration
  pub read_timeout : Duration
  pub write_timeout : Duration
  pub backoff_slot_size : Duration
  pub max_num_retries : ℕ
  pub client_qos : ClientQos
  pub server_qos : ServerQos
  pub service_error : ServiceError
  pub idempotency : Idempotency
  pub node_selection_strategy : NodeSelectionStrategy
  pub override_host_index : Option ℕ
  pub error_parameter_format : ErrorParameterFormat

module _ {Url UserAgent : Type 0} where
  -- `Builder::new().service(..).user_agent(..)`.
  unfoldable pub new_builder : Text → UserAgent → CachedConfig Url UserAgent
  new_builder service user_agent = record {
    service = service;
    user_agent = user_agent;
    uris = [];
    security = record { ca_file = none; key_file = none; cert_file = none; pinned_certs = [] };
    proxy = direct;
    connect_timeout = 10 * 1_000_000_000;
    read_timeout = 300 * 1_000_000_000;
    write_timeout = 300 * 1_000_000_000;
    backoff_slot_size = 250 * 1_000_000;
    max_num_retries = 4;
    client_qos = enabled;
    server_qos = automatic_retry;
    service_error = wrap_in_new_error;
    idempotency = by_method;
    node_selection_strategy = pin_until_error;
    override_host_index = none;
    error_parameter_format = legacy;
  }

  -- `if let Some(x) = config.x() { self = self.x(x) }`
  abbrev pub apply :
      {A : Type 0}
      → (CachedConfig Url UserAgent → A → CachedConfig Url UserAgent)
      → Option A
      → CachedConfig Url UserAgent
      → CachedConfig Url UserAgent
  apply set none b = b
  apply set (some a) b = set b a

  abbrev pub uri : CachedConfig Url UserAgent → Url → CachedConfig Url UserAgent
  uri b u = record b { uris = b.uris ++ u ∷ [] }

  abbrev pub uris : CachedConfig Url UserAgent → List Url → CachedConfig Url UserAgent
  uris b us = record b { uris = us }

  abbrev pub security : CachedConfig Url UserAgent → SecurityConfig → CachedConfig Url UserAgent
  security b s = record b { security = s }

  abbrev pub proxy : CachedConfig Url UserAgent → ProxyConfig → CachedConfig Url UserAgent
  proxy b p = record b { proxy = p }

  abbrev pub connect_timeout : CachedConfig Url UserAgent → Duration → CachedConfig Url UserAgent
  connect_timeout b d = record b { connect_timeout = d }

  abbrev pub read_timeout : CachedConfig Url UserAgent → Duration → CachedConfig Url UserAgent
  read_timeout b d = record b { read_timeout = d }

  abbrev pub write_timeout : CachedConfig Url UserAgent → Duration → CachedConfig Url UserAgent
  write_timeout b d = record b { write_timeout = d }

  abbrev pub backoff_slot_size : CachedConfig Url UserAgent → Duration → CachedConfig Url UserAgent
  backoff_slot_size b d = record b { backoff_slot_size = d }

  abbrev pub max_num_retries : CachedConfig Url UserAgent → ℕ → CachedConfig Url UserAgent
  max_num_retries b n = record b { max_num_retries = n }

  abbrev pub client_qos : CachedConfig Url UserAgent → ClientQos → CachedConfig Url UserAgent
  client_qos b x = record b { client_qos = x }

  abbrev pub server_qos : CachedConfig Url UserAgent → ServerQos → CachedConfig Url UserAgent
  server_qos b x = record b { server_qos = x }

  abbrev pub service_error : CachedConfig Url UserAgent → ServiceError → CachedConfig Url UserAgent
  service_error b x = record b { service_error = x }

  abbrev pub idempotency : CachedConfig Url UserAgent → Idempotency → CachedConfig Url UserAgent
  idempotency b x = record b { idempotency = x }

  abbrev pub node_selection_strategy :
      CachedConfig Url UserAgent → NodeSelectionStrategy → CachedConfig Url UserAgent
  node_selection_strategy b x = record b { node_selection_strategy = x }

  abbrev pub error_parameter_format :
      CachedConfig Url UserAgent → ErrorParameterFormat → CachedConfig Url UserAgent
  error_parameter_format b x = record b { error_parameter_format = x }

  abbrev pub override_host_index : CachedConfig Url UserAgent → ℕ → CachedConfig Url UserAgent
  override_host_index b i = record b { override_host_index = some i }

  unfoldable pub from_config :
      CachedConfig Url UserAgent → ServiceConfig Url → CachedConfig Url UserAgent
  from_config b c =
      let b = uris b c.uris in
      let b = apply security c.security b in
      let b = apply proxy c.proxy b in
      let b = apply connect_timeout c.connect_timeout b in
      let b = apply read_timeout c.read_timeout b in
      let b = apply write_timeout c.write_timeout b in
      let b = apply backoff_slot_size c.backoff_slot_size b in
      apply max_num_retries c.max_num_retries b

  -- `RetryLayer::new`, for the given build profile.
  abbrev pub retry_layer : CachedConfig Url UserAgent → Bool → RetryService
  retry_layer b checks = record {
    idempotency = b.idempotency;
    max_num_retries = b.max_num_retries;
    backoff_slot_size = b.backoff_slot_size;
    overflow_checks = checks;
  }
