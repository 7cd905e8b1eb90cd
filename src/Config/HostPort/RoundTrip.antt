-- ===== src/Config/HostPort/RoundTrip.antt =====
-- A host and a port that are printed are read back.
use conjure_rust_runtime.Prelude.{
  ℕ, ◌≤◌, ◌≡◌, ◌↔◌, refl, ap, subst, Bool, true, false, Option, none, some, some-injective, [], ◌∷◌,
  ◌++◌, All, ◌==◌, if◌then◌else◌,
}
use conjure_rust_runtime.Config.{Text, HostAndPort}
use conjure_rust_runtime.Config.HostPort.{
  colon, u16_max, show_u16, parse_u16, before_first, split_at_colon, with_port, parse_parts, fmt,
  deserialize,
}
use conjure_rust_runtime.Config.HostPort.Digits.{parse_u16-show_u16}

abbrev pub NoColon : Text → Type 0
NoColon s = All (λ c. (c == colon) ≡ false) s

split-append :
    (host rest : Text) → NoColon host → split_at_colon (host ++ colon ∷ rest) ≡ some (host, rest)
unfolding split_at_colon
split-append [] rest h = refl
split-append (c ∷ cs) rest (e, h) = rw (e) (ap (before_first c) (split-append cs rest h))

-- What is before the first colon has none.
split-NoColon : (s : Text) (host rest : Text) → split_at_colon s ≡ some (host, rest) → NoColon host
unfolding split_at_colon
split-NoColon [] host rest e = cc
split-NoColon (c ∷ cs) host rest e = go (c == colon) refl (split_at_colon cs) (split-NoColon cs) e
  where
    go :
        (b : Bool)
        → (c == colon) ≡ b
        → (o : Option (Text × Text)) → ((host rest : Text) → o ≡ some (host, rest) → NoColon host)
        → (if b then some ([], cs) else before_first c o) ≡ some (host, rest)
        → NoColon host
    go true z o later e = subst NoColon (ap (λ p. p.0) (some-injective e)) tt
    go false z none later e = cc
    go false z (some (h, r)) later e =
        subst NoColon (ap (λ p. p.0) (some-injective e)) (z, later h r refl)

deserialize-NoColon : (s : Text) (h : HostAndPort) → deserialize s ≡ some h → NoColon h.host
unfolding deserialize
deserialize-NoColon s h e = go (split_at_colon s) refl e
  where
    go : (o : Option (Text × Text)) → split_at_colon s ≡ o → parse_parts o ≡ some h → NoColon h.host
    go none z e = cc
    go (some (host, rest)) z e = port (parse_u16 rest) e
      where
        port : (o : Option ℕ) → with_port host o ≡ some h → NoColon h.host
        port none e = cc
        port (some n) e =
            subst NoColon (ap (λ x. x.host) (some-injective e)) (split-NoColon s host rest z)

-- A host and port that are printed and read are the same again exactly if there is no colon in the host.
pub deserialize-fmt :
    (h : HostAndPort) → h.port ≤ u16_max → (deserialize (fmt h) ≡ some h) ↔ NoColon h.host
unfolding fmt deserialize
deserialize-fmt h le = (deserialize-NoColon (h.host ++ colon ∷ show_u16 h.port) h, back)
  where
    back : NoColon h.host → deserialize (h.host ++ colon ∷ show_u16 h.port) ≡ some h
    back n =
        rw
          (
            deserialize,
            split-append h.host (show_u16 h.port) n,
            parse_parts,
            parse_u16-show_u16 h.port le,
          )
          refl
