-- ===== src/Semaphore/Links.antt =====
-- `Node::dequeue` and `Node::push_back` on the list that stands for a queue.
use conjure_rust_runtime.Prelude.{
  ◌≡◌, inl, inr, false, Option, none, some, [], ◌∷◌, ◌++◌, ◌==◌, ==_refl, fun_ext, snoc_cases,
  subst, sym, append_assoc, append-nil, arith,
}
use conjure_rust_runtime.Semaphore.{
  FutureId, Waker, Node, ok, update, read, skip_forward, skip_back,
}
use conjure_rust_runtime.Semaphore.Queue.{Queue, Waiters, has}
use conjure_rust_runtime.Semaphore.Layout.{
  node, layout, first_or, last_or, layout-none, layout-append, first_or-append, last_or-append,
  Distinct, Distinct-Alone,
}
use conjure_rust_runtime.Semaphore.Repr.{concrete, between, with_waiters, half_unlinked, unlinked}

Distinct-last :
    (ys : Waiters) (p : FutureId) (v : Option Waker)
    → Distinct (ys ++ (p, v) ∷ [])
    → has p ys ≡ false
Distinct-last ys p v d = (Distinct-Alone ys p v [] d).before

pub layout-between :
    (ys zs : Waiters) (id : FutureId) (w : Option Waker) (j : FutureId)
    → layout none (ys ++ (id, w) ∷ zs) none j
      ≡ between ys zs id (node w (first_or zs none) (last_or none ys)) (some id) (some id) j
layout-between ys zs id w j = layout-append none ys ((id, w) ∷ zs) none j

-- The last node before `id` is linked to what follows `id`.
relink_forward :
    (ys zs : Waiters) (p : FutureId) (v : Option Waker) (id : FutureId) (n : Node)
    (e : Option FutureId) (j : FutureId)
    → has p ys ≡ false
    → update
        (between (ys ++ (p, v) ∷ []) zs id n (some id) (some id))
        p
        (some (node v e (last_or none ys)))
        j
      ≡ between (ys ++ (p, v) ∷ []) zs id n e (some id) j
relink_forward ys zs p v id n e j h = ground (
  arith,
  layout-append none ys ((p, v) ∷ []) (some id) j,
  layout-append none ys ((p, v) ∷ []) e j,
  layout-none none ys (some p) p,
)

-- The first node after `id` is linked back to what precedes `id`.
relink_back :
    (ys zs : Waiters) (q : FutureId) (v : Option Waker) (id : FutureId) (n : Node)
    (p : Option FutureId) (j : FutureId)
    → has q ys ≡ false
    → (q == id) ≡ false
    → update
        (between ys ((q, v) ∷ zs) id n (some q) (some id))
        q
        (some (node v (first_or zs none) p))
        j
      ≡ between ys ((q, v) ∷ zs) id n (some q) p j
relink_back ys zs q v id n p j h d = ground (arith, layout-none none ys (some q) q)

-- Once unlinked, the node of `id` is all that is left of it.
pub relink_self :
    (ys zs : Waiters) (id : FutureId) (n m : Node) (j : FutureId)
    → update (between ys zs id n (first_or zs none) (last_or none ys)) id (some m) j
      ≡ update (layout none (ys ++ zs) none) id (some m) j
relink_self ys zs id n m j = ground (arith, layout-append none ys zs none j)

module _ (q : Queue) where
  skip_forward-first :
      (id : FutureId) (w : Option Waker) (zs : Waiters)
      → skip_forward (concrete (with_waiters q ((id, w) ∷ zs))) id (node w (first_or zs none) none)
        ≡ ok (half_unlinked q [] id w zs)
  unfolding skip_forward
  skip_forward-first id w zs = rw (==_refl id)

  skip_forward-later :
      (ys : Waiters) (p : FutureId) (v : Option Waker) (id : FutureId) (w : Option Waker)
      (zs : Waiters)
      → has p ys ≡ false
      → skip_forward
          (concrete (with_waiters q ((ys ++ (p, v) ∷ []) ++ (id, w) ∷ zs)))
          id
          (node w (first_or zs none) (some p))
        ≡ ok (half_unlinked q (ys ++ (p, v) ∷ []) id w zs)
  unfolding skip_forward
  skip_forward-later ys p v id w zs h =
      rw (found, read, ==_refl id)
        (λ i. ok (record (concrete (with_waiters q ((ys ++ (p, v) ∷ []) ++ (id, w) ∷ zs))) {
          head = same_head i;
          nodes = relinked i;
        }))
    where
      shape :
          (j : FutureId)
          → layout none ((ys ++ (p, v) ∷ []) ++ (id, w) ∷ zs) none j
            ≡ between
                (ys ++ (p, v) ∷ [])
                zs
                id
                (node w (first_or zs none) (some p))
                (some id)
                (some id)
                j
      shape j =
          rw (layout-between (ys ++ (p, v) ∷ []) zs id w j, last_or-append none ys ((p, v) ∷ []))

      found :
          layout none ((ys ++ (p, v) ∷ []) ++ (id, w) ∷ zs) none p
          ≡ some (node v (some id) (last_or none ys))
      found = ground (
        arith,
        shape p,
        layout-append none ys ((p, v) ∷ []) (some id) p,
        layout-none none ys (some p) p,
      )

      same_head :
          first_or ((ys ++ (p, v) ∷ []) ++ (id, w) ∷ zs) none
          ≡ first_or ((ys ++ (p, v) ∷ []) ++ zs) none
      same_head = simp (append_assoc, first_or-append)

      relinked :
          update
            (layout none ((ys ++ (p, v) ∷ []) ++ (id, w) ∷ zs) none)
            p
            (some (node v (first_or zs none) (last_or none ys)))
          ≡ between
              (ys ++ (p, v) ∷ [])
              zs
              id
              (node w (first_or zs none) (last_or none (ys ++ (p, v) ∷ [])))
              (first_or zs none)
              (some id)
      relinked =
          rw (fun_ext shape, last_or-append none ys ((p, v) ∷ []))
            (fun_ext λ j. relink_forward ys zs p v id _ (first_or zs none) j h)

  pub skip_forward_lem :
      (ys : Waiters) (id : FutureId) (w : Option Waker) (zs : Waiters)
      → Distinct ys
      → skip_forward
          (concrete (with_waiters q (ys ++ (id, w) ∷ zs)))
          id
          (node w (first_or zs none) (last_or none ys))
        ≡ ok (half_unlinked q ys id w zs)
  skip_forward_lem ys id w zs d = elim (snoc_cases ys) [
    | inl e ↦ rw e (skip_forward-first id w zs)
    | inr (ys', (p, v), e) ↦ rw e (
        subst
          (λ l.
            skip_forward (concrete (with_waiters q ((ys' ++ (p, v) ∷ []) ++ (id, w) ∷ zs))) id
              (node w (first_or zs none) l)
            ≡ ok (half_unlinked q (ys' ++ (p, v) ∷ []) id w zs))
          (sym (last_or-append none ys' ((p, v) ∷ [])))
          (skip_forward-later ys' p v id w zs (Distinct-last ys' p v (subst Distinct e d))))
  ]

  skip_back-last :
      (ys : Waiters) (id : FutureId) (w : Option Waker)
      → skip_back (half_unlinked q ys id w []) id (node w none (last_or none ys))
        ≡ ok (unlinked q ys id w [])
  unfolding skip_back
  skip_back-last ys id w = rw (last_or-append none ys ((id, w) ∷ []), ==_refl id, append-nil ys)

  skip_back-earlier :
      (ys : Waiters) (id : FutureId) (w : Option Waker) (j : FutureId) (v : Option Waker)
      (zs : Waiters)
      → has j ys ≡ false
      → (j == id) ≡ false
      → skip_back (half_unlinked q ys id w ((j, v) ∷ zs)) id (node w (some j) (last_or none ys))
        ≡ ok (unlinked q ys id w ((j, v) ∷ zs))
  unfolding skip_back
  skip_back-earlier ys id w j v zs h d =
      rw (found, read, ==_refl id)
        (λ i. ok (record (half_unlinked q ys id w ((j, v) ∷ zs)) {
          tail = same_tail i;
          nodes = relinked i;
        }))
    where
      n : Node
      n = node w (some j) (last_or none ys)

      found :
          between ys ((j, v) ∷ zs) id n (some j) (some id) j
          ≡ some (node v (first_or zs none) (some id))
      found = ground (arith, layout-none none ys (some j) j)

      same_tail : last_or none (ys ++ (id, w) ∷ (j, v) ∷ zs) ≡ last_or none (ys ++ (j, v) ∷ zs)
      same_tail = simp last_or-append

      relinked :
          update
            (between ys ((j, v) ∷ zs) id n (some j) (some id))
            j
            (some (node v (first_or zs none) (last_or none ys)))
          ≡ between ys ((j, v) ∷ zs) id n (some j) (last_or none ys)
      relinked = fun_ext λ i. relink_back ys zs j v id n (last_or none ys) i h d

  pub skip_back_lem :
      (ys : Waiters) (id : FutureId) (w : Option Waker) (zs : Waiters)
      → Distinct (ys ++ zs)
      → has id zs ≡ false
      → skip_back (half_unlinked q ys id w zs) id (node w (first_or zs none) (last_or none ys))
        ≡ ok (unlinked q ys id w zs)
  skip_back_lem ys id w [] d h = skip_back-last ys id w
  skip_back_lem ys id w ((j, v) ∷ zs) d h =
      skip_back-earlier ys id w j v zs (Distinct-Alone ys j v zs d).before (ground arith)
