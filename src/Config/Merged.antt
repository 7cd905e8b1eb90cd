-- ===== src/Config/Merged.antt =====
-- Which of the settings takes effect.
use conjure_rust_runtime.Prelude.{
  ℕ, ◌*◌, ◌^◌, ◌≤◌, ◌≡◌, refl, sym, ap, ◌∙◌, subst, Bool, Option, none, some, arith,
}
use conjure_rust_runtime.Errors.{Duration}
use conjure_rust_runtime.Retry.Backoff.{duration_max}
use conjure_rust_runtime.Retry.Jitter.{IsModest}
use conjure_rust_runtime.Config.{
  Text, ServiceConfig, ServicesConfig, CachedConfig, merged_service, with_defaults, from_config,
  new_builder, or_else, apply, security, proxy, connect_timeout, read_timeout, write_timeout,
  backoff_slot_size, max_num_retries, retry_layer,
}

-- The first of three that is there.
abbrev pub first : {A : Type 0} → Option A → Option A → A → A
first (some a) o c = a
first none (some b) c = b
first none none c = c

module _ {Url UserAgent : Type 0} where
  -- The settings of a service `c` among the services `s`, on top of those in `b`.
  abbrev pub effective :
      CachedConfig Url UserAgent
      → ServicesConfig Url
      → ServiceConfig Url
      → CachedConfig Url UserAgent
  effective b s c = record b {
    uris = c.uris;
    security = first c.security s.security b.security;
    proxy = first c.proxy s.proxy b.proxy;
    connect_timeout = first c.connect_timeout s.connect_timeout b.connect_timeout;
    read_timeout = first c.read_timeout s.read_timeout b.read_timeout;
    write_timeout = first c.write_timeout s.write_timeout b.write_timeout;
    backoff_slot_size = first c.backoff_slot_size s.backoff_slot_size b.backoff_slot_size;
    max_num_retries = first c.max_num_retries none b.max_num_retries;
  }

  -- To apply an optional setting is to choose a value for it.
  apply_first :
      {A : Type 0} (set : CachedConfig Url UserAgent → A → CachedConfig Url UserAgent)
      (value : CachedConfig Url UserAgent → A) {a b : CachedConfig Url UserAgent} (o p : Option A)
      → set b (value b) ≡ b
      → a ≡ b
      → apply set (or_else o p) a ≡ set b (first o p (value b))
  apply_first set value (some x) p h e = ap (λ c. set c x) e
  apply_first set value none (some x) h e = ap (λ c. set c x) e
  apply_first set value none none h e = e ∙ sym h

  apply_own :
      {A : Type 0} (set : CachedConfig Url UserAgent → A → CachedConfig Url UserAgent)
      (value : CachedConfig Url UserAgent → A) {a b : CachedConfig Url UserAgent} (o : Option A)
      → set b (value b) ≡ b
      → a ≡ b
      → apply set o a ≡ set b (first o none (value b))
  apply_own set value (some x) h e = ap (λ c. set c x) e
  apply_own set value none h e = e ∙ sym h

  -- A client that is built from the merged settings of a service has, for each setting, the service's own
  -- value, or that for all services, or the one that the builder had before; the URIs and the number
  -- of retries are not shared between services, and the other settings stay as they are.
  pub merged_service-from_config :
      (b : CachedConfig Url UserAgent) (s : ServicesConfig Url) (name : Text)
      (c : ServiceConfig Url)
      → s.services name ≡ some c
      → (m : ServiceConfig Url) × (merged_service s name ≡ some m)
        × (from_config b m ≡ effective b s c)
  unfolding merged_service from_config
  merged_service-from_config b s name c h = (
    with_defaults s c,
    rw (h, merged_service) refl,
    apply_own max_num_retries (λ b. b.max_num_retries) c.max_num_retries refl
        (apply_first backoff_slot_size (λ b. b.backoff_slot_size) c.backoff_slot_size
          s.backoff_slot_size refl
          (apply_first write_timeout (λ b. b.write_timeout) c.write_timeout s.write_timeout refl
            (apply_first read_timeout (λ b. b.read_timeout) c.read_timeout s.read_timeout refl
              (apply_first connect_timeout (λ b. b.connect_timeout) c.connect_timeout
                s.connect_timeout refl
                (apply_first proxy (λ b. b.proxy) c.proxy s.proxy refl
                  (apply_first security (λ b. b.security) c.security s.security refl refl)))))),
  )

  -- A client with the default number of retries and the default slot size, or with other ones within the
  -- bounds, backs off without an overflow, in every build.
  from_config-IsModest :
      (service : Text) (user_agent : UserAgent) (c : ServiceConfig Url) (checks : Bool)
      → ((n : ℕ) → c.max_num_retries ≡ some n → n ≤ 32)
      → ((d : Duration) → c.backoff_slot_size ≡ some d → d * 2 ^ 31 ≤ duration_max)
      → IsModest (retry_layer (from_config (new_builder service user_agent) c) checks)
  unfolding from_config new_builder
  from_config-IsModest service user_agent c checks few short =
      subst (λ b. IsModest (retry_layer b checks)) (sym same)
        (record { retries = retries c.max_num_retries refl; slot = slot c.backoff_slot_size refl })
    where
      fresh : CachedConfig Url UserAgent
      fresh = new_builder service user_agent

      same : from_config fresh c ≡ record fresh {
        uris = c.uris;
        security = first c.security none fresh.security;
        proxy = first c.proxy none fresh.proxy;
        connect_timeout = first c.connect_timeout none fresh.connect_timeout;
        read_timeout = first c.read_timeout none fresh.read_timeout;
        write_timeout = first c.write_timeout none fresh.write_timeout;
        backoff_slot_size = first c.backoff_slot_size none fresh.backoff_slot_size;
        max_num_retries = first c.max_num_retries none fresh.max_num_retries;
      }
      same =
          apply_own max_num_retries (λ b. b.max_num_retries) c.max_num_retries refl
            (apply_own backoff_slot_size (λ b. b.backoff_slot_size) c.backoff_slot_size refl
              (apply_own write_timeout (λ b. b.write_timeout) c.write_timeout refl
                (apply_own read_timeout (λ b. b.read_timeout) c.read_timeout refl
                  (apply_own connect_timeout (λ b. b.connect_timeout) c.connect_timeout refl
                    (apply_own proxy (λ b. b.proxy) c.proxy refl
                      (apply_own security (λ b. b.security) c.security refl refl))))))

      retries : (o : Option ℕ) → c.max_num_retries ≡ o → first o none 4 ≤ 32
      retries none e = omega arith
      retries (some n) e = few n e

      slot :
          (o : Option Duration)
          → c.backoff_slot_size ≡ o
          → first o none 250_000_000 * 2 ^ 31 ≤ duration_max
      slot none e = omega arith
      slot (some d) e = short d e
