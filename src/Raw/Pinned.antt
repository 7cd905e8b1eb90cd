-- ===== src/Raw/Pinned.antt =====
-- Which servers a client with pinned certificates accepts.
use conjure_rust_runtime.Prelude.{
  ℕ, ◌≡◌, ◌↔◌, refl, sym, ap, subst, ◌∙◌, Bool, true, false, false≢true, Option, none, some,
  some-injective, bind-some, List, [], ◌∷◌, ◌==◌, ==_refl, ==_iff, ◌||◌, and_true, ◌>>=◌, ◌⊎◌, inl,
  inr, arith,
}
use conjure_rust_runtime.Config.{Text, SecurityConfig}
use conjure_rust_runtime.Raw.{
  Certificate, ct_eq, matches, verify_server_cert, Verifier, ClientAuth, Files, exactly_one, cons,
  load_pinned, as_pins, verifier, client_auth, client_config, accepts,
}

ct_eq_refl : (c : Certificate) → ct_eq c c ≡ true
ct_eq_refl [] = refl
ct_eq_refl (x ∷ xs) = rw (==_refl x) (ct_eq_refl xs)

ct_eq→eq : (c d : Certificate) → ct_eq c d ≡ true → c ≡ d
ct_eq→eq [] [] e = refl
ct_eq→eq [] (y ∷ ys) e = cc
ct_eq→eq (x ∷ xs) [] e = cc
ct_eq→eq (x ∷ xs) (y ∷ ys) e =
    let (h, t) = and_true (x == y) (ct_eq xs ys) e in λ i. (==_iff x y).0 h i ∷ ct_eq→eq xs ys t i

-- The certificate is among them.
abbrev pub Among : Certificate → List Certificate → Type 0
Among leaf [] = ⊥
Among leaf (c ∷ cs) = (c ≡ leaf) ⊎ Among leaf cs

or_true : (a b : Bool) → (a || b) ≡ true → (a ≡ true) ⊎ (b ≡ true)
or_true a b h = ground arith

matches-Among :
    (m : Bool) (pins : List Certificate) (leaf : Certificate)
    → matches m pins leaf ≡ true
    → (m ≡ true) ⊎ Among leaf pins
unfolding matches
matches-Among m [] leaf e = inl e
matches-Among m (pin ∷ pins) leaf e = elim (matches-Among (m || ct_eq pin leaf) pins leaf e) [
  | inr a ↦ inr (inr a)
  | inl o ↦ elim (or_true m (ct_eq pin leaf) o) [
    | inl h ↦ inl h
    | inr h ↦ inr (inl (ct_eq→eq pin leaf h))
  ]
]

matches-true : (pins : List Certificate) (leaf : Certificate) → matches true pins leaf ≡ true
unfolding matches
matches-true [] leaf = refl
matches-true (pin ∷ pins) leaf = matches-true pins leaf

Among-matches :
    (m : Bool) (pins : List Certificate) (leaf : Certificate)
    → Among leaf pins
    → matches m pins leaf ≡ true
unfolding matches
Among-matches m [] leaf a = elim a [ ]
Among-matches m (pin ∷ pins) leaf (inl e) =
    subst (λ b. matches (m || b) pins leaf ≡ true)
      (sym (subst (λ c. ct_eq pin c ≡ true) e (ct_eq_refl pin)))
      (subst (λ b. matches b pins leaf ≡ true) (sym (or_right m)) (matches-true pins leaf))
  where
    or_right : (m : Bool) → (m || true) ≡ true
    or_right true = refl
    or_right false = refl
Among-matches m (pin ∷ pins) leaf (inr a) = Among-matches (m || ct_eq pin leaf) pins leaf a

exactly_one-some : {A : Type 0} (xs : List A) (x : A) → exactly_one xs ≡ some x → xs ≡ x ∷ []
exactly_one-some [] x e = cc
exactly_one-some (y ∷ []) x e = ap (λ z. z ∷ []) (some-injective e)
exactly_one-some (y ∷ z ∷ zs) x e = cc

module _ (files : Files) (pem_certs : Text → Option (List Certificate))
    (server_roots : List Certificate) (fits : List Certificate → List ℕ → Bool) where
  -- An entry of the configuration holds this certificate, and no other.
  abbrev pub PinnedBy : Certificate → List Text → Type 0
  PinnedBy leaf [] = ⊥
  PinnedBy leaf (pem ∷ pems) = (pem_certs pem ≡ some (leaf ∷ [])) ⊎ PinnedBy leaf pems

  pinned_cert :
      (pem : Text) (c : Certificate)
      → (pem_certs pem >>= exactly_one) ≡ some c
      → pem_certs pem ≡ some (c ∷ [])
  pinned_cert pem c e =
      let (cs, f, g) = bind-some (pem_certs pem) exactly_one e in
      f ∙ ap some (exactly_one-some cs c g)

  cons-pins :
      (c : Certificate) (pem : Text) (pems : List Text) (o : Option (List Certificate))
      (pins : List Certificate) (leaf : Certificate)
      → pem_certs pem ≡ some (c ∷ [])
      → ((pins : List Certificate) → o ≡ some pins → (Among leaf pins ↔ PinnedBy leaf pems))
      → cons files pem_certs server_roots fits c o ≡ some pins
      → (Among leaf pins ↔ PinnedBy leaf (pem ∷ pems))
  cons-pins c pem pems none pins leaf f later e = cc
  cons-pins c pem pems (some cs) pins leaf f later e =
      let (there, back) = later cs refl in
      subst (λ ps. Among leaf ps ↔ PinnedBy leaf (pem ∷ pems)) (some-injective e)
        (
          (λ a. elim a [ inl h ↦ inl (f ∙ ap (λ z. some (z ∷ [])) h) | inr h ↦ inr (there h) ]),
          (λ a. elim a [
            | inl h ↦ inl (head_of (some-injective (sym f ∙ h)))
            | inr h ↦ inr (back h)
          ]),
        )
    where
      head_of : (c ∷ []) ≡ (leaf ∷ []) → c ≡ leaf
      head_of h = cc

  load_pinned-PinnedBy :
      (pems : List Text) (pins : List Certificate) (leaf : Certificate)
      → load_pinned files pem_certs server_roots fits pems ≡ some pins
      → (Among leaf pins ↔ PinnedBy leaf pems)
  unfolding load_pinned
  load_pinned-PinnedBy [] pins leaf e =
      subst (λ ps. Among leaf ps ↔ ⊥) (some-injective e) ((λ a. a), (λ a. a))
  load_pinned-PinnedBy (pem ∷ pems) pins leaf e =
      let rest : Option (List Certificate) = load_pinned files pem_certs server_roots fits pems in
      let (c, f, g) =
        bind-some (pem_certs pem >>= exactly_one)
          (λ c. cons files pem_certs server_roots fits c rest) e in
      cons-pins c pem pems rest pins leaf (pinned_cert pem c f)
        (λ ps h. load_pinned-PinnedBy pems ps leaf h) g

  verify-PinnedBy :
      (pems : List Text) (pins : List Certificate) (leaf : Certificate)
      → load_pinned files pem_certs server_roots fits pems ≡ some pins
      → ((verify_server_cert pins leaf ≡ true) ↔ PinnedBy leaf pems)
  unfolding verify_server_cert
  verify-PinnedBy pems pins leaf e =
      let (there, back) = load_pinned-PinnedBy pems pins leaf e in
      (
        (λ h. elim (matches-Among false pins leaf h) [
          | inl f ↦ elim (false≢true f) [ ]
          | inr a ↦ there a
        ]),
        (λ p. Among-matches false pins leaf (back p)),
      )

  pins-PinnedBy :
      (trusted : List Certificate → Certificate → Bool) (pems : List Text) (v : Verifier)
      (leaf : Certificate) (o : Option (List Certificate))
      → load_pinned files pem_certs server_roots fits pems ≡ o
      → as_pins files pem_certs server_roots fits o ≡ some v
      → ((accepts files pem_certs server_roots fits trusted v leaf ≡ true) ↔ PinnedBy leaf pems)
  pins-PinnedBy trusted pems v leaf none f e = cc
  pins-PinnedBy trusted pems v leaf (some pins) f e =
      subst
        (λ u.
          (accepts files pem_certs server_roots fits trusted u leaf ≡ true) ↔ PinnedBy leaf pems)
        (some-injective e) (verify-PinnedBy pems pins leaf f)

  -- If certificates are pinned and a client is made, then it accepts a server exactly if one of the pinned entries
  -- holds the server's certificate and no other, whatever roots there are.
  pub accepts-PinnedBy :
      (trusted : List Certificate → Certificate → Bool) (s : SecurityConfig) (pem : Text)
      (pems : List Text) (v : Verifier) (a : ClientAuth) (leaf : Certificate)
      → s.pinned_certs ≡ pem ∷ pems
      → client_config files pem_certs server_roots fits s ≡ some (v, a)
      → ((accepts files pem_certs server_roots fits trusted v leaf ≡ true)
          ↔ PinnedBy leaf s.pinned_certs)
  unfolding client_config
  accepts-PinnedBy trusted s pem pems v a leaf p e =
      let (u, f, g) =
        bind-some (verifier files pem_certs server_roots fits s.ca_file s.pinned_certs)
          (λ v. client_auth files pem_certs server_roots fits s.cert_file s.key_file >>= λ a.
            some (v, a))
          e in
      let (b, h, k) =
        bind-some (client_auth files pem_certs server_roots fits s.cert_file s.key_file)
          (λ a. some (u, a)) g in
      subst
        (λ ps. (accepts files pem_certs server_roots fits trusted v leaf ≡ true) ↔ PinnedBy leaf ps)
        (sym p)
        (pins-PinnedBy trusted (pem ∷ pems) v leaf
          (load_pinned files pem_certs server_roots fits (pem ∷ pems)) refl
          (subst (λ ps. verifier files pem_certs server_roots fits s.ca_file ps ≡ some u) p f
            ∙ ap (λ x. some x.0) (some-injective k)))
