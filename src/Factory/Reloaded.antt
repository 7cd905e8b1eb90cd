-- ===== src/Factory/Reloaded.antt =====
-- A reload that succeeds.
use conjure_rust_runtime.Prelude.{
  ℕ, ◌≡◌, refl, sym, ap, subst, ◌∙◌, Bool, true, false, false≢true, Option, none, some,
  some-injective, List, [], ◌∷◌, All, length, ◌==◌, and_true, if◌then◌else◌, inl, inr,
}
use conjure_rust_runtime.Config.{ServiceConfig}
use conjure_rust_runtime.Factory.Hosts.{
  Map, lookup, PerHost, Loop, all_in, same_hosts, visit_all, publish, after_loop, begin_loop,
  reload,
}
use conjure_rust_runtime.Factory.Followed.{
  Distinct, Live, Keeps, Held, LoopInv, all_in-lookup, visit_all-LoopInv,
}

-- A host in the old collection has the same client in the new one.
Held-same :
    (old current : Map) (h id other : ℕ)
    → ((h id : ℕ) → lookup h current ≡ some id → lookup h old ≡ some id)
    → lookup h current ≡ some id
    → Held old h other
    → id ≡ other
Held-same old current h id other live e (inl f) = some-injective (sym (live h id e) ∙ f)
Held-same old current h id other live e (inr f) = elim (none-some (sym f ∙ live h id e)) [ ]
  where
    none-some : none ≡ some id → ⊥
    none-some e = cc

module _ {S : Type 0} (build : ServiceConfig ℕ → Option ℕ → Option S)
    (notifies : ServiceConfig ℕ → ServiceConfig ℕ → Bool) (takes : Bool) where
  -- Which of the two equal collections it is, its clients are those of the new handles.
  publish-Live :
      (old current : Map) (l : Loop S)
      → ((h id : ℕ) → lookup h current ≡ some id → lookup h old ≡ some id)
      → LoopInv old [] l
      → (h id : ℕ) → lookup h (publish build notifies takes current l.clients) ≡ some id
      → lookup h l.new_client_handles ≡ some id
  unfolding same_hosts
  publish-Live old current l live (same, all, rest) h id =
      go (same_hosts current l.clients) refl takes
    where
      new : lookup h l.clients ≡ some id → lookup h l.new_client_handles ≡ some id
      new e = subst (λ m. lookup h m ≡ some id) same e

      go :
          (b : Bool)
          → same_hosts current l.clients ≡ b
          → (t : Bool)
          → lookup h (if b then if t then l.clients else current else l.clients) ≡ some id
          → lookup h l.new_client_handles ≡ some id
      go false z t e = new e
      go true z true e = new e
      go true z false e =
          let (len, hosts) =
            and_true (length current == length l.clients) (all_in current l.clients) z in
          let (other, f) = all_in-lookup h id current l.clients hosts e in
          let g : lookup h l.new_client_handles ≡ some other =
            subst (λ m. lookup h m ≡ some other) same f in
          g ∙ ap some (sym (Held-same old current h id other live e (all h other g)))

  loop-Live :
      (w : PerHost S) (l : Loop S)
      → Live w
      → LoopInv w.client_handles [] l
      → (b : Bool) → (l.errors == 0) ≡ b
      → (after_loop build notifies takes w.current l).1 ≡ true
      → Live (after_loop build notifies takes w.current l).0
        × Keeps w (after_loop build notifies takes w.current l).0
  loop-Live w l live inv true z e =
      let all = publish-Live w.client_handles w.current l live inv in
      rw (z) (
        all,
        λ h id other f g.
            Held-same w.client_handles w.current h id other live f (inv.1 h other (all h other g)),
      )
  loop-Live w l live inv false z e = elim (false≢true (rw (z) at e)) [ ]

  loop-LoopInv :
      (w : PerHost S) (c : ServiceConfig ℕ)
      → Distinct c.uris
      → LoopInv w.client_handles [] (visit_all build notifies takes c 0 c.uris (begin_loop w))
  loop-LoopInv w c d =
      visit_all-LoopInv build notifies takes w.client_handles c.uris 0 c (begin_loop w) d
        (refl, (λ h id f. cc), same c.uris)
    where
      same : (us : List ℕ) → All (λ h. lookup h w.client_handles ≡ lookup h w.client_handles) us
      same [] = tt
      same (u ∷ us) = (refl, same us)

  -- The loop makes a handle for each client.
  pub clients-handles :
      (w : PerHost S) (c : ServiceConfig ℕ)
      → Distinct c.uris
      → let l = visit_all build notifies takes c 0 c.uris (begin_loop w) in
        l.clients ≡ l.new_client_handles
  clients-handles w c d = (loop-LoopInv w c d).0

  -- If the hosts of the configuration are distinct and each client of the collection can be reached by a reload, then
  -- this is so after a reload without an error, and each host that stays in the collection keeps its client.
  pub reload-Live :
      (w : PerHost S) (c : ServiceConfig ℕ)
      → Distinct c.uris
      → Live w
      → (reload build notifies takes w c).1 ≡ true
      → Live (reload build notifies takes w c).0 × Keeps w (reload build notifies takes w c).0
  unfolding reload
  reload-Live w c d live e =
      let l : Loop S = visit_all build notifies takes c 0 c.uris (begin_loop w) in
      loop-Live w l live (loop-LoopInv w c d) (l.errors == 0) refl e
