-- ===== src/Factory/Visits.antt =====
-- The visit of a host in a reload.
use mathlib.Core.List.{Memᴰ}
use conjure_rust_runtime.Prelude.{
  ℕ, ◌≡◌, refl, sym, ap, subst, ◌∙◌, Bool, true, false, false≢true, Option, none, some,
  some-injective, [], ◌∷◌, ◌++◌, length, get_elem?, replace_at, ◌==◌, if◌then◌else◌, arith,
}
use conjure_rust_runtime.Config.{ServiceConfig}
use conjure_rust_runtime.Factory.Hosts.{
  lookup, remove, Client, Loop, host_config, raw_client, refresh, resubscribe, keep, store,
  refresh_at, make, visit_with, visit,
}
use conjure_rust_runtime.Factory.Sound.{
  remove-cases, Has, insert-Has, insert-Has_same, get_elem?-length, get_elem?-end, get_elem?-append,
  get_elem?-replace_at, get_elem?-replace_other, Built, BuiltAt, Sound, put-Sound,
}
use conjure_rust_runtime.Factory.Keyed.{Keyed, insert-Keyed}

module _ {S : Type 0} (build : ServiceConfig ℕ → Option ℕ → Option S)
    (notifies : ServiceConfig ℕ → ServiceConfig ℕ → Bool) (takes : Bool)
    (told : (a b : ServiceConfig ℕ) → notifies a b ≡ false → a ≡ b) where
  abbrev pub SoundIn : ServiceConfig ℕ → Loop S → Type 0
  SoundIn c l = Sound build c l.client_handles l.new_client_handles l.states

  -- A refresh without an error.
  refresh-Built :
      (client client' : Client S) (d : ServiceConfig ℕ)
      → Built build client
      → refresh build notifies takes client d ≡ (client', true)
      → (client'.config ≡ d) × Built build client'
  unfolding refresh
  refresh-Built client client' d b e = go (notifies client.config d) refl e
    where
      tried :
          (o : Option S)
          → build d client.override_host_index ≡ o
          → resubscribe (record client { config = d }) o ≡ (client', true)
          → (client'.config ≡ d) × Built build client'
      tried none f e = absurd (false≢true (ap (λ (r : Client S × Bool). r.1) e))
      tried (some s) f e =
          subst (λ (x : Client S). (x.config ≡ d) × Built build x)
            (ap (λ (r : Client S × Bool). r.0) e) (refl, f)

      go :
          (n : Bool)
          → notifies client.config d ≡ n
          → (if n
              then resubscribe (record client { config = d }) (build d client.override_host_index)
              else (record client { config = d }, true))
            ≡ (client', true)
          → (client'.config ≡ d) × Built build client'
      go true z e = tried (build d client.override_host_index) refl e
      go false z e =
          subst (λ (x : Client S). (x.config ≡ d) × Built build x)
            (ap (λ (r : Client S × Bool). r.0) e)
            (
              refl,
              subst (λ a. build a client.override_host_index ≡ some client.state)
                  (told client.config d z) b,
            )

  module _ (c : ServiceConfig ℕ) where
    -- What a visit of `u` without an error does.
    pub record Visited (u : ℕ) (l r : Loop S) : Type 0 where
      pub sound : SoundIn c l → SoundIn c r
      pub here : Has r.new_client_handles u
      pub keyed : Keyed l.new_client_handles → Keyed r.new_client_handles
      pub others : (h : ℕ) → Has l.new_client_handles h → Has r.new_client_handles h

    refresh-Visited :
        (u id : ℕ) (l : Loop S)
        → Memᴰ u c.uris
        → lookup u l.client_handles ≡ some id
        → BuiltAt build l.states id
        → (r : Client S × Bool)
        → ((client : Client S)
            → get_elem? l.states id ≡ some client
            → r ≡ refresh build notifies takes client (host_config c u))
        → (store id r (record l { client_handles = remove u l.client_handles })).errors ≡ 0
        → Visited u l
            (keep u id (store id r (record l { client_handles = remove u l.client_handles })))
    refresh-Visited u id l m e at_id (client', false) is errors = absurd (omega (arith, errors))
    refresh-Visited u id l m e (client, found, b) (client', true) is errors = record {
      sound = λ s.
          put-Sound build c l.client_handles (remove u l.client_handles) l.new_client_handles
            l.states (replace_at id client' l.states) u id s
            (λ h j f.
              let (z, g) = remove-cases h u j l.client_handles f in
              (
                g,
                λ q.
                    apart_from h z
                      (s.apart h u id (subst (λ i. lookup h l.client_handles ≡ some i) q g) e),
              ))
            (λ h j f q.
              s.disjoint u h id e (subst (λ i. lookup h l.new_client_handles ≡ some i) q f))
            (λ j x n g. get_elem?-replace_other l.states id j x client' n g)
            (
              client',
              m,
              get_elem?-replace_at l.states id client client' found,
              (refresh-Built client client' (host_config c u) b (sym (is client found))).0,
              (refresh-Built client client' (host_config c u) b (sym (is client found))).1,
            );
      here = insert-Has_same u id l.new_client_handles;
      keyed = insert-Keyed u id l.new_client_handles;
      others = λ h x. insert-Has h u id l.new_client_handles x;
    }
      where
        apart_from : (h : ℕ) → (h == u) ≡ false → h ≡ u → ⊥
        apart_from h z p = ground arith

    make-Visited :
        (u : ℕ) (l : Loop S)
        → Memᴰ u c.uris
        → (o : Option (Client S))
        → ((client : Client S)
            → o ≡ some client
            → (client.config ≡ host_config c u) × Built build client)
        → (make u o l).errors ≡ 0
        → Visited u l (make u o l)
    make-Visited u l m none is errors = absurd (omega (arith, errors))
    make-Visited u l m (some client) is errors = record {
      sound = λ s.
          put-Sound build c l.client_handles l.client_handles l.new_client_handles l.states
            (l.states ++ client ∷ []) u (length l.states) s
            (λ h j f. (
              f,
              λ q.
                  let (x, g, b) = s.built h j f in
                  old x (subst (λ i. get_elem? l.states i ≡ some x) q g),
            ))
            (λ h j f q.
              let (x, m, g, d, b) = s.serves h j f in
              old x (subst (λ i. get_elem? l.states i ≡ some x) q g))
            (λ j x n g. get_elem?-append l.states (client ∷ []) j x g)
            (client, m, get_elem?-end l.states client, (is client refl).0, (is client refl).1);
      here = insert-Has_same u (length l.states) l.new_client_handles;
      keyed = insert-Keyed u (length l.states) l.new_client_handles;
      others = λ h x. insert-Has h u (length l.states) l.new_client_handles x;
    }
      where
        old : (x : Client S) → get_elem? l.states (length l.states) ≡ some x → ⊥
        old x g = get_elem?-length l.states x g

    pub visit-Visited :
        (i u : ℕ) (l : Loop S)
        → Memᴰ u c.uris
        → (visit build notifies takes c i u l).errors ≡ 0
        → ((h id : ℕ) → lookup h l.client_handles ≡ some id → BuiltAt build l.states id)
        → Visited u l (visit build notifies takes c i u l)
    unfolding visit raw_client
    visit-Visited i u l m errors built = go (lookup u l.client_handles) refl errors
      where
        made :
            (o : Option S)
            → build (host_config c u) (some i) ≡ o
            → (client : Client S)
            → elim o [
              | none ↦ none
              | some s ↦
                  some
                    (record { config = host_config c u; override_host_index = some i; state = s })
            ]
              ≡ some client
            → (client.config ≡ host_config c u) × Built build client
        made none f client e = cc
        made (some s) f client e =
            subst (λ (x : Client S). (x.config ≡ host_config c u) × Built build x)
              (some-injective e) (refl, f)

        found :
            (id : ℕ)
            → lookup u l.client_handles ≡ some id
            → (at_id : BuiltAt build l.states id)
            → (visit_with build notifies takes c i u (some id) l).errors ≡ 0
            → Visited u l (visit_with build notifies takes c i u (some id) l)
        found id e (client, f, b) =
            subst
              (λ o.
                let r : Loop S = keep u id (
                  refresh_at build notifies takes id (host_config c u) o
                    (record l { client_handles = remove u l.client_handles })) in
                r.errors ≡ 0 → Visited u l r)
              (sym f)
              (refresh-Visited u id l m e (client, f, b)
                (refresh build notifies takes client (host_config c u))
                (λ x g.
                  ap (λ y. refresh build notifies takes y (host_config c u))
                    (some-injective (sym f ∙ g))))

        go :
            (o : Option ℕ)
            → lookup u l.client_handles ≡ o
            → (visit_with build notifies takes c i u o l).errors ≡ 0
            → Visited u l (visit_with build notifies takes c i u o l)
        go none e errors =
            make-Visited u l m (raw_client build notifies takes (host_config c u) (some i))
              (made (build (host_config c u) (some i)) refl) errors
        go (some id) e errors = found id e (built u id e) errors
