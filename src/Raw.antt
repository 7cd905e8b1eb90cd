-- ===== src/Raw.antt =====
-- conjure-runtime/src/service/raw/hyper.rs: how the TLS of connections is set up, and the check of pinned
-- certificates.
--
-- The files, the parser of PEM, rustls and its root certificates are parameters. Certificates are bytes.
use conjure_rust_runtime.Prelude.{
  ℕ, Bool, true, false, Option, none, some, List, [], ◌∷◌, ◌++◌, ◌==◌, ◌&&◌, ◌||◌, ◌>>=◌,
  if◌then◌else◌,
}
use conjure_rust_runtime.Config.{Text, SecurityConfig}
pub mod Pinned
mod Examples

abbrev pub Certificate : Type 0
Certificate = List ℕ

pub data Item : Type 0 where
  pkcs1_key pkcs8_key sec1_key : List ℕ → Item
  other : Item

-- `ct_eq` of slices.
abbrev pub ct_eq : Certificate → Certificate → Bool
ct_eq [] [] = true
ct_eq [] (y ∷ ys) = false
ct_eq (x ∷ xs) [] = false
ct_eq (x ∷ xs) (y ∷ ys) = x == y && ct_eq xs ys

-- `PinnedLeafVerifier::verify_server_cert`, where `matched` is what it has found so far.
unfoldable pub matches : Bool → List Certificate → Certificate → Bool
matches matched [] leaf = matched
matches matched (pin ∷ pins) leaf = matches (matched || ct_eq pin leaf) pins leaf

unfoldable pub verify_server_cert : List Certificate → Certificate → Bool
verify_server_cert pins leaf = matches false pins leaf

-- What a client relies on, and how it identifies itself.
pub data Verifier : Type 0 where
  root_certificates : List Certificate → Verifier
  pinned_leaves : List Certificate → Verifier

pub data ClientAuth : Type 0 where
  no_client_auth : ClientAuth
  client_auth_cert : List Certificate → List ℕ → ClientAuth

-- `none` is a file that cannot be opened or read. `is_parsable` is whether rustls can parse a certificate as a root.
pub record Files : Type 0 where
  pub is_parsable : Certificate → Bool
  pub certs : Text → Option (List Certificate)
  pub items : Text → Option (List Item)

abbrev pub private_key : Item → Option (List ℕ)
private_key (pkcs1_key k) = some k
private_key (pkcs8_key k) = some k
private_key (sec1_key k) = some k
private_key other = none

-- There is exactly one.
abbrev pub exactly_one : {A : Type 0} → List A → Option A
exactly_one [] = none
exactly_one (x ∷ []) = some x
exactly_one (x ∷ y ∷ xs) = none

-- `RootCertStore::add_parsable_certificates` leaves out the certificates that it cannot parse.
abbrev pub add_parsable :
    (Certificate → Bool) → List Certificate → List Certificate → List Certificate
add_parsable is_parsable roots [] = roots
add_parsable is_parsable roots (c ∷ cs) =
    add_parsable is_parsable (if is_parsable c then roots ++ c ∷ [] else roots) cs

unfoldable pub load_private_key : Files → Text → Option (List ℕ)
load_private_key files path = files.items path >>= exactly_one >>= private_key

module _ (files : Files) (pem_certs : Text → Option (List Certificate))
    (server_roots : List Certificate) (fits : List Certificate → List ℕ → Bool) where
  abbrev pub cons : Certificate → Option (List Certificate) → Option (List Certificate)
  cons c none = none
  cons c (some cs) = some (c ∷ cs)

  -- The loop over the pinned certificates.
  unfoldable pub load_pinned : List Text → Option (List Certificate)
  load_pinned [] = some []
  load_pinned (pem ∷ pems) =
      let rest = load_pinned pems in pem_certs pem >>= exactly_one >>= λ c. cons c rest

  abbrev pub load_roots : Option Text → Option (List Certificate)
  load_roots none = some server_roots
  load_roots (some path) =
      files.certs path >>= λ cs. some (add_parsable files.is_parsable server_roots cs)

  abbrev pub as_roots : Option (List Certificate) → Option Verifier
  as_roots none = none
  as_roots (some cs) = some (root_certificates cs)

  abbrev pub as_pins : Option (List Certificate) → Option Verifier
  as_pins none = none
  as_pins (some cs) = some (pinned_leaves cs)

  abbrev pub verifier : Option Text → List Text → Option Verifier
  verifier ca_file [] = as_roots (load_roots ca_file)
  verifier ca_file (pem ∷ pems) = as_pins (load_pinned (pem ∷ pems))

  abbrev pub client_auth : Option Text → Option Text → Option ClientAuth
  client_auth (some cert_file) (some key_file) = files.certs cert_file >>= λ chain.
      load_private_key files key_file >>= λ key.
      if fits chain key then some (client_auth_cert chain key) else none
  client_auth none none = some no_client_auth
  client_auth (some c) none = none
  client_auth none (some k) = none

  -- `RawClient::new`; `none` is an error.
  unfoldable pub client_config : SecurityConfig → Option (Verifier × ClientAuth)
  client_config s = verifier s.ca_file s.pinned_certs >>= λ v.
      client_auth s.cert_file s.key_file >>= λ a. some (v, a)

  -- Whether the certificate of a server is accepted; `trusted` is what rustls makes of roots.
  abbrev pub accepts : (List Certificate → Certificate → Bool) → Verifier → Certificate → Bool
  accepts trusted (root_certificates roots) leaf = trusted roots leaf
  accepts trusted (pinned_leaves pins) leaf = verify_server_cert pins leaf
