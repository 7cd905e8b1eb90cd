-- ===== src/Nodes.antt =====
-- conjure-runtime/src/service/node: what a selector does with the node it has chosen (mod.rs), the limiters of a host
-- and its endpoints (limiter/mod.rs), the URI of a request (uri.rs); and util/weak_reducing_gauge.rs, which reports
-- the limits.
--
-- A call is the log of what it does. Methods and patterns are numbers, and limiters of endpoints addresses.
use conjure_rust_runtime.Prelude.{
  ℕ, zero, suc, ◌+◌, Bool, true, false, Option, none, some, List, [], ◌∷◌, ◌++◌, ◌==◌, ◌&&◌,
  if◌then◌else◌,
}
use conjure_rust_runtime.Config.{Text, ClientQos, enabled, dangerous_disable_sympathetic_client_qos}
use conjure_rust_runtime.Errors.{Result}
use conjure_rust_runtime.Limiter.{Mode, on_response}
pub mod Gauge
mod Examples

pub record Endpoint : Type 0 where
  pub method : ℕ
  pub pattern : ℕ

abbrev pub same_endpoint : Endpoint → Endpoint → Bool
same_endpoint a b = a.method == b.method && a.pattern == b.pattern

-- `fresh` is the next address.
pub record Limiter : Type 0 where
  pub endpoints : List (Endpoint × ℕ)
  pub fresh : ℕ

unfoldable pub new_limiter : Limiter
new_limiter = record { endpoints = []; fresh = 0 }

abbrev pub lookup : Endpoint → List (Endpoint × ℕ) → Option ℕ
lookup e [] = none
lookup e ((k, v) ∷ m) = if same_endpoint e k then some v else lookup e m

abbrev pub or_insert : Limiter → Endpoint → Option ℕ → Limiter × ℕ
or_insert l e (some id) = (l, id)
or_insert l e none =
    (record { endpoints = (e, l.fresh) ∷ l.endpoints; fresh = l.fresh + 1 }, l.fresh)

-- The limiter of an endpoint, which is made when it is first used.
unfoldable pub endpoint_limiter : Limiter → Endpoint → Limiter × ℕ
endpoint_limiter l e = or_insert l e (lookup e l.endpoints)

pub record Node : Type 0 where
  pub idx : ℕ
  pub url : Text

pub record LimitedNode : Type 0 where
  pub node : Node
  pub limiter : Option Limiter

-- The limiter of `LimitedNode::new`.
unfoldable pub limiter_for : ClientQos → Option Limiter
unfolding new_limiter
limiter_for enabled = some new_limiter
limiter_for dangerous_disable_sympathetic_client_qos = none

-- What a call does: it waits for a permit of an endpoint, then for one of the host; it calls the next service with the
-- node in the request; and it tells the two permits of the result.
pub data Effect : Type 0 where
  acquires_endpoint : ℕ → Effect
  acquires_host : Effect
  calls_with : Node → Effect
  reports : Mode → Mode → Effect

-- `Limiter::acquire`.
unfoldable pub acquire : Limiter → Endpoint → Limiter × List Effect
acquire l e = let (m, id) = endpoint_limiter l e in (m, acquires_endpoint id ∷ acquires_host ∷ [])

module _ (is_server_error : ℕ → Bool) where
  abbrev pub report : Mode × Mode → Effect
  report (endpoint, host) = reports endpoint host

  -- `AcquiredNode::wrap`, with a permit or without.
  unfoldable pub wrap_acquired : Node → Bool → Result ℕ → List Effect
  wrap_acquired n true r = calls_with n ∷ report (on_response is_server_error r) ∷ []
  wrap_acquired n false r = calls_with n ∷ []

  abbrev pub wrap_with : Node → Endpoint → Option Limiter → Result ℕ → LimitedNode × List Effect
  wrap_with n e none r = (record { node = n; limiter = none }, wrap_acquired n false r)
  wrap_with n e (some l) r =
      let (m, log) = acquire l e in
      (record { node = n; limiter = some m }, log ++ wrap_acquired n true r)

  -- `LimitedNode::wrap`, when the next service answers `r`.
  unfoldable pub wrap : LimitedNode → Endpoint → Result ℕ → LimitedNode × List Effect
  wrap n e r = wrap_with n.node e n.limiter r

abbrev pub slash : ℕ
slash = 47

abbrev pub without_last_slash : Text → Text
without_last_slash [] = []
without_last_slash (c ∷ []) = if c == slash then [] else c ∷ []
without_last_slash (c ∷ d ∷ cs) = c ∷ without_last_slash (d ∷ cs)

-- `NodeUriService::call`: the base URI and the URI of the request, which begins with a slash.
unfoldable pub node_uri : Text → Text → Text
node_uri base_uri uri = without_last_slash base_uri ++ uri
