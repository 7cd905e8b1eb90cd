-- ===== src/Proxy.antt =====
-- conjure-runtime/src/service/proxy/hyper: requests through an HTTP proxy (mod.rs, request.rs, connector.rs).
--
-- The parser of URIs, base64, the encoding of text as bytes and the two connections of hyper are parameters. The
-- encoders give the text of a header.
use conjure_rust_runtime.Prelude.{
  ℕ, Bool, true, false, Option, none, some, List, [], ◌∷◌, ◌++◌, if◌then◌else◌,
}
use conjure_rust_runtime.Config.{Text, BasicCredentials, HostAndPort}
use conjure_rust_runtime.Config
use conjure_rust_runtime.Config.HostPort.{show_u16, colon}
pub mod Credentials
mod Examples

pub data Scheme : Type 0 where
  http https : Scheme

-- What matters of a `Uri`.
pub record Uri : Type 0 where
  pub scheme : Option Scheme
  pub host : Option Text
  pub port : Option ℕ

pub record HttpProxyConfig : Type 0 where
  pub uri : Uri
  pub credentials : Option Text

pub data ProxyConfig : Type 0 where
  http_proxy : HttpProxyConfig → ProxyConfig
  direct : ProxyConfig

-- A header is there or not.
pub record Request : Type 0 where
  pub uri : Uri
  pub proxy_authorization : Option Text

pub record Connect : Type 0 where
  pub authority : Text
  pub proxy_authorization : Option Text

-- The connection is made to the proxy or the target, and hyper is told that it is proxied, or not.
pub data Peer : Type 0 where
  to_proxy : Uri → Peer
  to_target : Uri → Peer

pub data Connection : Type 0 where
  plain : Peer → Bool → Connection
  tunnel : Uri → Connect → Connection

pub data ConnectError : Type 0 where
  connect_failed handshake_failed missing_host : ConnectError
  proxy_tunnel : ℕ → ConnectError

pub data Connected : Type 0 where
  connected : Connection → Connected
  failed : ConnectError → Connected

-- `http://` and `Basic `.
abbrev pub http_prefix : Text
http_prefix = 104 ∷ 116 ∷ 116 ∷ 112 ∷ 58 ∷ 47 ∷ 47 ∷ []

abbrev pub basic_prefix : Text
basic_prefix = 66 ∷ 97 ∷ 115 ∷ 105 ∷ 99 ∷ 32 ∷ []

module _ (parse_uri : Text → Option Uri) (base64 : Text → Text) where
  abbrev pub header_of : BasicCredentials → Text
  header_of c = basic_prefix ++ base64 (c.username ++ colon ∷ c.password)

  abbrev pub with_uri : Option BasicCredentials → Option Uri → Option ProxyConfig
  with_uri c none = none
  with_uri none (some u) = some (http_proxy (record { uri = u; credentials = none }))
  with_uri (some c) (some u) =
      some (http_proxy (record { uri = u; credentials = some (header_of c) }))

  -- `none` is an error.
  unfoldable pub from_config : Config.ProxyConfig → Option ProxyConfig
  from_config Config.direct = some direct
  from_config (Config.http c) =
      with_uri c.credentials
        (parse_uri (http_prefix ++ (c.host_and_port.host ++ colon ∷ show_u16 c.host_and_port.port)))

abbrev pub is_http : Option Scheme → Bool
is_http (some http) = true
is_http (some https) = false
is_http none = false

abbrev pub authorize : Option Text → Request → Request
authorize none r = r
authorize (some c) r = record r { proxy_authorization = some c }

-- `ProxyService::call`: the request that the next layer gets.
unfoldable pub call : ProxyConfig → Request → Request
call (http_proxy config) r = if is_http r.uri.scheme then authorize config.credentials r else r
call direct r = r

-- `ProxyConnectorLayer::new`.
abbrev pub connector_config : ProxyConfig → Option HttpProxyConfig
connector_config (http_proxy config) = some config
connector_config direct = none

abbrev pub port_or_https : Option ℕ → ℕ
port_or_https none = 443
port_or_https (some p) = p

-- The `CONNECT` request for a host.
abbrev pub connect_request : Text → Option ℕ → Option Text → Connect
connect_request host port credentials = record {
  authority = host ++ colon ∷ show_u16 (port_or_https port);
  proxy_authorization = credentials;
}

-- What the network answers: whether the connection is made, the handshake done, and what status the proxy sends, if
-- any.
pub record Network : Type 0 where
  pub connects : Bool
  pub handshakes : Bool
  pub answers : Option ℕ

module _ (is_success : ℕ → Bool) where
  abbrev pub tunnel_with : Uri → Connect → Option ℕ → Connected
  tunnel_with u c none = failed handshake_failed
  tunnel_with u c (some status) =
      if is_success status then connected (tunnel u c) else failed (proxy_tunnel status)

  abbrev pub with_host : Uri → Uri → Option Text → Option Text → Option ℕ → Connected
  with_host u target credentials none answers = failed missing_host
  with_host u target credentials (some host) answers =
      tunnel_with u (connect_request host target.port credentials) answers

  unfoldable pub connect_https : Network → Uri → HttpProxyConfig → Connected
  connect_https net target config =
      if net.handshakes
      then with_host config.uri target config.credentials target.host net.answers
      else failed handshake_failed

  -- `ProxyConnectorService::call`.
  unfoldable pub connect : Network → Option HttpProxyConfig → Uri → Connected
  connect net none target =
      if net.connects then connected (plain (to_target target) false) else failed connect_failed
  connect net (some config) target =
      if net.connects
      then if is_http target.scheme
        then connected (plain (to_proxy config.uri) true)
        else connect_https net target config
      else failed connect_failed
