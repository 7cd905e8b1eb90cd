-- ===== src/Proxy/Examples.antt =====
-- Tests of the proxies, and the theorem for a tunnel.
use conjure_rust_runtime.Prelude.{ℕ, ◌≡◌, refl, Bool, true, Option, none, some, [], ◌∷◌, ◌++◌, ltb}
use conjure_rust_runtime.Config
use conjure_rust_runtime.Config.{Text, BasicCredentials, HostAndPort}
use conjure_rust_runtime.Config.HostPort.{digits}
use conjure_rust_runtime.Proxy.{
  Scheme, http, https, Uri, HttpProxyConfig, http_proxy, Request, from_config, call, connect,
  connect_https, Network, connected, tunnel, basic_prefix, failed, proxy_tunnel,
}
use conjure_rust_runtime.Proxy.Credentials.{Discreet, call-Discreet}

abbrev proxy_uri : Uri
proxy_uri = record { scheme = some http; host = some (112 ∷ []); port = some 80 }

abbrev proxy : HttpProxyConfig
proxy = record { uri = proxy_uri; credentials = some (1 ∷ []) }

abbrev request : Scheme → Request
request s = record {
  uri = record { scheme = some s; host = some (97 ∷ []); port = none };
  proxy_authorization = none;
}

abbrev works : Network
works = record { connects = true; handshakes = true; answers = some 200 }

abbrev is_success : ℕ → Bool
is_success status = ltb status 300

abbrev parse_uri : Text → Option Uri
parse_uri t = some proxy_uri

abbrev base64 : Text → Text
base64 t = t

-- `u:p` for the host `p`, port 80.
from_config_test :
    from_config parse_uri base64 (
      Config.http (record {
        host_and_port = record { host = 112 ∷ []; port = 80 };
        credentials = some (record { username = 117 ∷ []; password = 112 ∷ [] });
      }))
    ≡ some (
        http_proxy
          (record { uri = proxy_uri; credentials = some (basic_prefix ++ 117 ∷ 58 ∷ 112 ∷ []) }))
unfolding from_config
from_config_test = refl

http_test :
    call (http_proxy proxy) (request http)
    ≡ record (request http) { proxy_authorization = some (1 ∷ []) }
unfolding call
http_test = refl

-- `a:443`.
https_test :
    connect is_success works (some proxy) (request https).uri
    ≡ connected (
        tunnel proxy_uri
          (record { authority = 97 ∷ 58 ∷ 52 ∷ 52 ∷ 51 ∷ []; proxy_authorization = some (1 ∷ []) }))
unfolding connect connect_https digits
https_test = refl

refused_test :
    connect is_success (record works { answers = some 407 }) (some proxy) (request https).uri
    ≡ failed (proxy_tunnel 407)
unfolding connect connect_https
refused_test = refl

call-Discreet_example :
    Discreet
      (some (1 ∷ []))
      (connect is_success works (some proxy) (request https).uri)
      (call (http_proxy proxy) (request https))
call-Discreet_example = call-Discreet is_success works (http_proxy proxy) (request https) refl
