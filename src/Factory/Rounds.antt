-- ===== src/Factory/Rounds.antt =====
-- The loop over the hosts in a reload.
use mathlib.Core.List.{Memᴰ}
use mathlib.Core.List.Memᴰ
use conjure_rust_runtime.Prelude.{
  ℕ, ◌+◌, ◌≡◌, refl, sym, subst, Bool, true, false, Option, none, some, List, [], ◌∷◌, get_elem?,
  inl, inr, arith,
}
use conjure_rust_runtime.Config.{ServiceConfig}
use conjure_rust_runtime.Factory.Hosts.{
  lookup, remove, Client, Loop, host_config, raw_client, refresh, store, refresh_at, make,
  visit_with, visit, visit_all,
}
use conjure_rust_runtime.Factory.Sound.{Has}
use conjure_rust_runtime.Factory.Keyed.{Keyed}
use conjure_rust_runtime.Factory.Visits.{SoundIn, visit-Visited}

module _ {S : Type 0} (build : ServiceConfig ℕ → Option ℕ → Option S)
    (notifies : ServiceConfig ℕ → ServiceConfig ℕ → Bool) (takes : Bool)
    (told : (a b : ServiceConfig ℕ) → notifies a b ≡ false → a ≡ b) where
  module _ (c : ServiceConfig ℕ) where
    visit-errors :
        (i u : ℕ) (l : Loop S) → (visit build notifies takes c i u l).errors ≡ 0 → l.errors ≡ 0
    unfolding visit
    visit-errors i u l = go (lookup u l.client_handles)
      where
        stored :
            (id : ℕ) (r : Client S × Bool) (k : Loop S) → (store id r k).errors ≡ 0 → k.errors ≡ 0
        stored id (client, true) k e = e
        stored id (client, false) k e = absurd (omega (arith, e))

        refreshed :
            (id : ℕ) (o : Option (Client S)) (k : Loop S)
            → (refresh_at build notifies takes id (host_config c u) o k).errors ≡ 0
            → k.errors ≡ 0
        refreshed id none k e = e
        refreshed id (some client) k e =
            stored id (refresh build notifies takes client (host_config c u)) k e

        made : (o : Option (Client S)) → (make u o l).errors ≡ 0 → l.errors ≡ 0
        made none e = absurd (omega (arith, e))
        made (some client) e = e

        go : (o : Option ℕ) → (visit_with build notifies takes c i u o l).errors ≡ 0 → l.errors ≡ 0
        go none e = made (raw_client build notifies takes (host_config c u) (some i)) e
        go (some id) e =
            refreshed id (get_elem? l.states id)
              (record l { client_handles = remove u l.client_handles }) e

    visit_all-errors :
        (us : List ℕ) (i : ℕ) (l : Loop S)
        → (visit_all build notifies takes c i us l).errors ≡ 0
        → l.errors ≡ 0
    unfolding visit_all
    visit_all-errors [] i l e = e
    visit_all-errors (u ∷ us) i l e =
        visit-errors i u l (visit_all-errors us (i + 1) (visit build notifies takes c i u l) e)

    pub visit_all-Sound :
        (us : List ℕ) (i : ℕ) (l : Loop S)
        → ((u : ℕ) → Memᴰ u us → Memᴰ u c.uris)
        → SoundIn build notifies takes told c l
        → (visit_all build notifies takes c i us l).errors ≡ 0
        → let r = visit_all build notifies takes c i us l in
          SoundIn build notifies takes told c r
          × ((h : ℕ) → Memᴰ h us → Has r.new_client_handles h)
          × ((h : ℕ) → Has l.new_client_handles h → Has r.new_client_handles h)
          × (Keyed l.new_client_handles → Keyed r.new_client_handles)
    unfolding visit_all
    visit_all-Sound [] i l within s e = (s, (λ h x. absurd (Memᴰ.not-nil x)), (λ h x. x), (λ k. k))
    visit_all-Sound (u ∷ us) i l within s e =
        let r : Loop S = visit build notifies takes c i u l in
        let v =
          visit-Visited build notifies takes told c i u l (within u (Memᴰ.head refl))
            (visit_all-errors us (i + 1) r e) s.built in
        let (sound, all, more, keyed) =
          visit_all-Sound us (i + 1) r (λ h x. within h (Memᴰ.tail x)) (v.sound s) e in
        (
          sound,
          (λ h x. elim (Memᴰ.cases_cons x) [
            | inl p ↦ more h (subst (Has r.new_client_handles) (sym p) v.here)
            | inr y ↦ all h y
          ]),
          (λ h x. more h (v.others h x)),
          (λ k. keyed (v.keyed k)),
        )
