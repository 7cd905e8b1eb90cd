-- ===== src/Raw/Examples.antt =====
-- Tests of the TLS setup, and the theorem for concrete certificates.
use conjure_rust_runtime.Prelude.{ℕ, ◌≡◌, ◌↔◌, refl, Bool, true, Option, none, some, List, [], ◌∷◌}
use conjure_rust_runtime.Config.{Text, SecurityConfig}
use conjure_rust_runtime.Raw.{
  Certificate, pkcs8_key, pinned_leaves, root_certificates, no_client_auth, client_auth_cert, Files,
  load_private_key, load_pinned, client_config, accepts,
}
use conjure_rust_runtime.Raw.Pinned.{PinnedBy, accepts-PinnedBy}

-- Each file holds one certificate, which is its name, and one key.
abbrev some_files : Files
some_files = record {
  is_parsable = λ c. true;
  certs = λ path. some (path ∷ []);
  items = λ path. some (pkcs8_key path ∷ []);
}

abbrev pem_certs : Text → Option (List Certificate)
pem_certs t = some (t ∷ [])

abbrev fits : List Certificate → List ℕ → Bool
fits chain key = true

abbrev trusted : List Certificate → Certificate → Bool
trusted roots leaf = true

abbrev security : Option Text → Option Text → List Text → SecurityConfig
security cert key pins = record {
  ca_file = none;
  cert_file = cert;
  key_file = key;
  pinned_certs = pins;
}

tls_calls : Unit {0}
unfolding client_config load_private_key load_pinned
tls_calls = tt

both_test :
    client_config some_files pem_certs [] fits (security (some (1 ∷ [])) (some (2 ∷ [])) [])
    ≡ some (root_certificates [], client_auth_cert ((1 ∷ []) ∷ []) (2 ∷ []))
unfolding tls_calls
both_test = refl

-- Only one of the two files.
one_test : client_config some_files pem_certs [] fits (security none (some (2 ∷ [])) []) ≡ none
unfolding tls_calls
one_test = refl

pinned_test :
    client_config some_files pem_certs [] fits (security none none ((7 ∷ []) ∷ []))
    ≡ some (pinned_leaves ((7 ∷ []) ∷ []), no_client_auth)
unfolding tls_calls
pinned_test = refl

accepts-PinnedBy_example :
    (accepts some_files pem_certs [] fits trusted (pinned_leaves ((7 ∷ []) ∷ [])) (7 ∷ []) ≡ true)
    ↔ PinnedBy some_files pem_certs [] fits (7 ∷ []) ((7 ∷ []) ∷ [])
accepts-PinnedBy_example =
    accepts-PinnedBy some_files pem_certs [] fits trusted (security none none ((7 ∷ []) ∷ []))
      (7 ∷ []) [] (pinned_leaves ((7 ∷ []) ∷ [])) no_client_auth (7 ∷ []) refl pinned_test
