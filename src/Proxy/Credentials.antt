-- ===== src/Proxy/Credentials.antt =====
-- Who sees the credentials of a proxy.
use conjure_rust_runtime.Prelude.{
  ℕ, ◌≡◌, refl, Bool, true, false, Option, none, some, if◌then◌else◌,
}
use conjure_rust_runtime.Config.{Text}
use conjure_rust_runtime.Proxy
use conjure_rust_runtime.Proxy.{
  Scheme, http, https, Uri, HttpProxyConfig, ProxyConfig, http_proxy, direct, Request, Connect,
  Peer, to_proxy, to_target, Connection, plain, tunnel, Connected, connected, failed, is_http,
  authorize, call, connector_config, connect_request, Network, tunnel_with, with_host,
  connect_https, connect,
}

-- The header that the target and the proxy get, when the request is sent over the connection.
abbrev pub target_sees : Connection → Request → Option Text
target_sees (plain (to_target u) p) r = r.proxy_authorization
target_sees (plain (to_proxy u) p) r = none
target_sees (tunnel u c) r = r.proxy_authorization

abbrev pub proxy_sees : Connection → Request → Option Text
proxy_sees (plain (to_target u) p) r = none
proxy_sees (plain (to_proxy u) p) r = r.proxy_authorization
proxy_sees (tunnel u c) r = c.proxy_authorization

-- If there is a connection, the target sees no credentials, and the proxy sees those it should.
abbrev pub Discreet : Option Text → Connected → Request → Type 0
Discreet credentials (failed e) r = Unit {0}
Discreet credentials (connected c) r = (target_sees c r ≡ none) × (proxy_sees c r ≡ credentials)

abbrev pub credentials_of : ProxyConfig → Option Text
credentials_of (http_proxy config) = config.credentials
credentials_of direct = none

module _ (is_success : ℕ → Bool) where
  tunnel-Discreet :
      (config : HttpProxyConfig) (r : Request) (c : Connect) (answers : Option ℕ)
      → r.proxy_authorization ≡ none
      → c.proxy_authorization ≡ config.credentials
      → Discreet config.credentials (tunnel_with is_success config.uri c answers) r
  tunnel-Discreet config r c none e f = tt
  tunnel-Discreet config r c (some status) e f = go (is_success status)
    where
      go :
          (b : Bool)
          → Discreet config.credentials
              (if b then connected (tunnel config.uri c) else failed (Proxy.proxy_tunnel status))
              r
      go true = (e, f)
      go false = tt

  https-Discreet :
      (net : Network) (config : HttpProxyConfig) (r : Request)
      → r.proxy_authorization ≡ none
      → Discreet config.credentials (connect_https is_success net r.uri config) r
  unfolding connect_https
  https-Discreet net config r e = go net.handshakes r.uri.host
    where
      go :
          (b : Bool) (host : Option Text)
          → Discreet config.credentials
              (if b
                then with_host is_success config.uri r.uri config.credentials host net.answers
                else failed Proxy.handshake_failed)
              r
      go false host = tt
      go true none = tt
      go true (some h) =
          tunnel-Discreet config r (connect_request h r.uri.port config.credentials) net.answers e
            refl

  authorized :
      (config : HttpProxyConfig) (o : Option Text) (r : Request)
      → r.proxy_authorization ≡ none
      → (authorize o r).proxy_authorization ≡ o
  authorized config none r e = e
  authorized config (some c) r e = refl

  -- Whatever the network does: when a request without the header is sent through the proxy layer and over the
  -- connection that the connector makes, the target never gets the credentials of the proxy, and the proxy gets them
  -- exactly once: with a plain request, or with the `CONNECT` of a tunnel.
  pub call-Discreet :
      (net : Network) (config : ProxyConfig) (r : Request)
      → r.proxy_authorization ≡ none
      → Discreet
          (credentials_of config)
          (connect is_success net (connector_config config) r.uri)
          (call config r)
  unfolding call connect
  call-Discreet net direct r e = go net.connects
    where
      go :
          (b : Bool)
          → Discreet none
              (if b then connected (plain (to_target r.uri) false) else failed Proxy.connect_failed)
              r
      go true = (e, refl)
      go false = tt
  call-Discreet net (http_proxy config) r e = go net.connects (is_http r.uri.scheme)
    where
      go :
          (b h : Bool)
          → Discreet config.credentials
              (if b
                then if h
                  then connected (plain (to_proxy config.uri) true)
                  else connect_https is_success net r.uri config
                else failed Proxy.connect_failed)
              (if h then authorize config.credentials r else r)
      go false h = tt
      go true true = (refl, authorized config config.credentials r e)
      go true false = https-Discreet net config r e
