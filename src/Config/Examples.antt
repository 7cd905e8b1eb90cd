-- ===== src/Config/Examples.antt =====
-- Tests of the settings, and the theorems at a concrete configuration.
use conjure_rust_runtime.Prelude.{ℕ, ◌≡◌, ◌↔◌, refl, Option, none, some, [], ◌∷◌, arith}
use conjure_rust_runtime.Config.{
  ServiceConfig, ServicesConfig, CachedConfig, merged_service, from_config, new_builder, direct,
  HostAndPort,
}
use conjure_rust_runtime.Config.HostPort.{
  fmt, deserialize, digits, split_at_colon, parse_u16, read_digits,
}
use conjure_rust_runtime.Config.HostPort.RoundTrip.{NoColon, deserialize-fmt}
use conjure_rust_runtime.Config.Merged.{effective, merged_service-from_config}

-- A service that sets its read timeout and its retries.
abbrev own_settings : ServiceConfig ℕ
own_settings = record {
  uris = 1 ∷ 2 ∷ [];
  security = none;
  proxy = none;
  connect_timeout = none;
  read_timeout = some 7_000_000_000;
  write_timeout = none;
  backoff_slot_size = none;
  max_num_retries = some 9;
}

abbrev all_services : ServicesConfig ℕ
all_services = record {
  services = λ name. some own_settings;
  security = none;
  proxy = some direct;
  connect_timeout = some 3_000_000_000;
  read_timeout = some 5_000_000_000;
  write_timeout = none;
  backoff_slot_size = none;
}

abbrev builder : CachedConfig ℕ ℕ
builder = new_builder (115 ∷ []) 0

merged_timeouts :
    ◌≡◌ {A = Option ℕ × ℕ}
      (own_settings.read_timeout, (from_config builder own_settings).read_timeout)
      (some 7_000_000_000, 7_000_000_000)
unfolding from_config new_builder
merged_timeouts = refl

merged_service-from_config_example :
    (m : ServiceConfig ℕ) × (merged_service all_services (115 ∷ []) ≡ some m)
    × (from_config builder m ≡ effective builder all_services own_settings)
merged_service-from_config_example =
    merged_service-from_config builder all_services (115 ∷ []) own_settings refl

-- `proxy:8080`.
abbrev a_proxy : HostAndPort
a_proxy = record { host = 112 ∷ 114 ∷ 111 ∷ 120 ∷ 121 ∷ []; port = 8080 }

fmt_test : fmt a_proxy ≡ 112 ∷ 114 ∷ 111 ∷ 120 ∷ 121 ∷ 58 ∷ 56 ∷ 48 ∷ 56 ∷ 48 ∷ []
unfolding fmt digits
fmt_test = refl

deserialize-fmt_example : (deserialize (fmt a_proxy) ≡ some a_proxy) ↔ NoColon a_proxy.host
deserialize-fmt_example = deserialize-fmt a_proxy (omega arith)

-- `::1` and port 80.
colons_test : deserialize (fmt (record { host = 58 ∷ 58 ∷ 49 ∷ []; port = 80 })) ≡ none
unfolding deserialize fmt digits split_at_colon parse_u16 read_digits
colons_test = refl
