-- ===== src/Factory/Served.antt =====
-- A reload without an error gives every host its client.
use mathlib.Core.List.{Memᴰ}
use conjure_rust_runtime.Prelude.{
  ℕ, ◌≡◌, refl, sym, subst, Bool, true, false, false≢true, Option, some, ◌==◌, ==_iff,
}
use conjure_rust_runtime.Config.{ServiceConfig}
use conjure_rust_runtime.Factory.Hosts.{
  Map, lookup, PerHost, Loop, visit_all, publish, after_loop, begin_loop, reload,
}
use conjure_rust_runtime.Factory.Followed.{Distinct, Live, Keeps}
use conjure_rust_runtime.Factory.Sound.{Has, BuiltAt, Serves, Apart}
use conjure_rust_runtime.Factory.Reloaded.{reload-Live, clients-handles}
use conjure_rust_runtime.Factory.Keyed.{Keyed, publish-Keyed, publish-Has}
use conjure_rust_runtime.Factory.Visits.{SoundIn}
use conjure_rust_runtime.Factory.Rounds.{visit_all-Sound}

module _ {S : Type 0} (build : ServiceConfig ℕ → Option ℕ → Option S)
    (notifies : ServiceConfig ℕ → ServiceConfig ℕ → Bool) (takes : Bool)
    (told : (a b : ServiceConfig ℕ) → notifies a b ≡ false → a ≡ b) where
  -- What holds of the clients between reloads without errors.
  pub record Valid (w : PerHost S) : Type 0 where
    pub live : Live w
    pub built : (h id : ℕ) → lookup h w.client_handles ≡ some id → BuiltAt build w.states id
    pub apart : Apart build w.client_handles
    pub keyed : Keyed w.current

  -- What a reload of `c` makes of them: every host of `c` has a client in the collection; and each client of the collection is
  -- for a host of `c`, has the configuration of it, and is built of that.
  pub record Follows (c : ServiceConfig ℕ) (w : PerHost S) : Type 0 where
    pub member : (h : ℕ) → Memᴰ h c.uris → Has w.current h
    pub serves : (h id : ℕ) → lookup h w.current ≡ some id → Serves build c w.states h id

  after-Valid :
      (c : ServiceConfig ℕ) (current : Map) (l : Loop S)
      → (after_loop build notifies takes current l).1 ≡ true
      → ((l.errors ≡ 0)
          → SoundIn build notifies takes told c l
            × ((h : ℕ) → Memᴰ h c.uris → Has l.new_client_handles h)
            × Keyed l.new_client_handles)
      → l.clients ≡ l.new_client_handles
      → Keyed current
      → let v = (after_loop build notifies takes current l).0 in Live v → Valid v × Follows c v
  after-Valid c current l e f same kc = go (l.errors == 0) refl
    where
      done :
          SoundIn build notifies takes told c l
          → Keyed l.clients
          → ((h : ℕ) → Memᴰ h c.uris → Has l.clients h)
          → let v : PerHost S = record {
            states = l.states;
            client_handles = l.new_client_handles;
            current = publish build notifies takes current l.clients;
          } in
            Live v → Valid v × Follows c v
      done s k all live = (
        record {
          live = live;
          built = λ h id g. let (x, m, g, d, b) = s.serves h id g in (x, g, b);
          apart = s.apart_new;
          keyed = publish-Keyed build notifies takes current l.clients kc k;
        },
        record {
          member = λ h m. publish-Has build notifies takes current l.clients h kc k (all h m);
          serves = λ h id g. s.serves h id (live h id g);
        },
      )

      go :
          (b : Bool)
          → (l.errors == 0) ≡ b
          → let v = (after_loop build notifies takes current l).0 in Live v → Valid v × Follows c v
      go false z live = absurd (false≢true (rw z at e))
      go true z live =
          let (s, all, kn) = f ((==_iff l.errors 0).0 z) in
          let k : Keyed l.clients = subst Keyed (sym same) kn in
          let in_clients : (h : ℕ) → Memᴰ h c.uris → Has l.clients h =
            λ h m. subst (λ n. Has n h) (sym same) (all h m) in
          rw z (done s k in_clients (rw z at live))

  -- If a refreshable tells its subscribers of every value that is not the one it has, the clients are valid, and the hosts of
  -- the configuration are distinct, then after a reload without an error the clients are valid; each host that stays in the
  -- collection keeps its client; the hosts of the collection are those of the configuration; and each of its clients has
  -- what the configuration says of its host, is built of that, and can be reached by a reload.
  pub reload-Follows :
      (w : PerHost S) (c : ServiceConfig ℕ)
      → Distinct c.uris
      → Valid w
      → (reload build notifies takes w c).1 ≡ true
      → let v = (reload build notifies takes w c).0 in Valid v × Keeps w v × Follows c v
  unfolding reload
  reload-Follows w c d valid e =
      let (live, keeps) = reload-Live build notifies takes w c d valid.live e in
      let (valid', follows) =
        after-Valid c w.current (visit_all build notifies takes c 0 c.uris (begin_loop w)) e
          (λ errors.
            let (s, all, more, keyed) =
              visit_all-Sound build notifies takes told c c.uris 0 (begin_loop w) (λ u m. m) start
                errors in
            (s, all, keyed tt))
          (clients-handles build notifies takes w c d) valid.keyed live in
      (valid', keeps, follows)
    where
      start : SoundIn build notifies takes told c (begin_loop w)
      start = record {
        built = valid.built;
        serves = λ h id e. cc;
        apart = valid.apart;
        apart_new = λ h k id e f. cc;
        disjoint = λ h k id e f. cc;
      }
