-- ===== src/Semaphore/Dequeue.antt =====
-- `Node::dequeue` takes a waiter out of the queue, and `Node::push_back` puts one at its end.
use conjure_rust_runtime.Prelude.{
  ◌≡◌, refl, false, Option, none, some, [], ◌∷◌, ◌++◌, fun_ext, append_assoc, arith, subst,
  snoc_cases, inl, inr,
}
use conjure_rust_runtime.Semaphore.{
  FutureId, Waker, Node, State, ok, update, read, write, dequeue, push_back,
}
use conjure_rust_runtime.Semaphore.Queue.{Queue, Waiters, has}
use conjure_rust_runtime.Semaphore.Layout.{
  node, layout, first_or, last_or, layout-none, layout-append, layout_at, last_or-append,
  first_or-append, has-append, Distinct, Distinct-append, Alone, Distinct-Alone,
}
use conjure_rust_runtime.Semaphore.Repr.{concrete, between, with_waiters}
use conjure_rust_runtime.Semaphore.Links.{skip_forward_lem, skip_back_lem, relink_self}

module _ (q : Queue) (ys : Waiters) (id : FutureId) (w : Option Waker) (zs : Waiters)
    (a : Alone ys id zs) where
  abbrev here : Node
  here = node w (first_or zs none) (last_or none ys)

  between_self : (e p : Option FutureId) → between ys zs id here e p id ≡ some here
  between_self e p = ground (arith, a.before, layout-none none ys e id)

  pub dequeue_lem :
      dequeue (concrete (with_waiters q (ys ++ (id, w) ∷ zs))) id
      ≡ ok (write (concrete (with_waiters q (ys ++ zs))) id (some (node w none none)))
  unfolding dequeue
  dequeue_lem =
      rw
        (
          layout_at none ys id w zs none a.before,
          read,
          skip_forward_lem q ys id w zs (Distinct-append ys zs a.rest).0,
          between_self (first_or zs none) (some id),
          skip_back_lem q ys id w zs a.rest a.after,
          between_self (first_or zs none) (last_or none ys),
        )
        (λ i. ok (record (concrete (with_waiters q (ys ++ zs))) { nodes = relinked i }))
    where
      relinked :
          update
            (between ys zs id here (first_or zs none) (last_or none ys))
            id
            (some (node w none none))
          ≡ update (layout none (ys ++ zs) none) id (some (node w none none))
      relinked = fun_ext λ j. relink_self ys zs id here (node w none none) j

-- A future that is not queued, with its fresh node, goes to the end of the queue.
module _ (q : Queue) (id : FutureId) where
  abbrev pub entered : Waiters → State
  entered xs = write (concrete (with_waiters q xs)) id (some (node none none none))

  push_back-first : push_back (entered []) id ≡ ok (concrete (with_waiters q ((id, none) ∷ [])))
  unfolding push_back
  push_back-first =
      rw (found, read)
        (λ i. ok (record (concrete (with_waiters q ((id, none) ∷ []))) { nodes = same i }))
    where
      found :
          update (layout none [] none) id (some (node none none none)) id
          ≡ some (node none none none)
      found = ground arith

      same :
          update (layout none [] none) id (some (node none none none))
          ≡ layout none ((id, none) ∷ []) none
      same = refl

  push_back-later :
      (ys : Waiters) (t : FutureId) (v : Option Waker)
      → has t ys ≡ false
      → has id (ys ++ (t, v) ∷ []) ≡ false
      → push_back (entered (ys ++ (t, v) ∷ [])) id
        ≡ ok (concrete (with_waiters q ((ys ++ (t, v) ∷ []) ++ (id, none) ∷ [])))
  unfolding push_back
  push_back-later ys t v h k =
      rw (found, read, last_or-append none ys ((t, v) ∷ []), found_tail, read, found_again, read)
        (λ i. ok (record (concrete (with_waiters q ((ys ++ (t, v) ∷ []) ++ (id, none) ∷ []))) {
          head = same_head i;
          tail = same_tail i;
          nodes = same i;
        }))
    where
      old : FutureId → Option Node
      old = layout none (ys ++ (t, v) ∷ []) none

      new : FutureId → Option Node
      new = layout none ((ys ++ (t, v) ∷ []) ++ (id, none) ∷ []) none

      found : update old id (some (node none none none)) id ≡ some (node none none none)
      found = ground arith

      found_tail :
          update old id (some (node none none none)) t ≡ some (node v none (last_or none ys))
      found_tail = ground (arith, layout_at none ys t v [] none h, has-append t ys ((t, v) ∷ []))

      linked : FutureId → Option Node
      linked =
          update (update old id (some (node none none none))) t
            (some (node v (some id) (last_or none ys)))

      found_again : linked id ≡ some (node none none none)
      found_again = ground (arith, has-append id ys ((t, v) ∷ []))

      same_head :
          first_or (ys ++ (t, v) ∷ []) none ≡ first_or ((ys ++ (t, v) ∷ []) ++ (id, none) ∷ []) none
      same_head = simp (append_assoc, first_or-append)

      same_tail : some id ≡ last_or none ((ys ++ (t, v) ∷ []) ++ (id, none) ∷ [])
      same_tail = simp last_or-append

      same : update linked id (some (node none none (last_or none (ys ++ (t, v) ∷ [])))) ≡ new
      same = fun_ext λ j. ground (
        arith,
        has-append id ys ((t, v) ∷ []),
        layout-append none (ys ++ (t, v) ∷ []) ((id, none) ∷ []) none j,
        layout-append none ys ((t, v) ∷ []) (some id) j,
        layout-append none ys ((t, v) ∷ []) none j,
        layout-none none ys (some t) id,
        layout-none none ys (some t) t,
        last_or-append none ys ((t, v) ∷ []),
      )

  pub push_back_lem :
      (xs : Waiters)
      → Distinct xs
      → has id xs ≡ false
      → push_back (entered xs) id ≡ ok (concrete (with_waiters q (xs ++ (id, none) ∷ [])))
  push_back_lem xs d h = elim (snoc_cases xs) [
    | inl e ↦ rw e push_back-first
    | inr (ys, (t, v), e) ↦ rw e (
        push_back-later ys t v (Distinct-Alone ys t v [] (subst Distinct e d)).before
          (subst (λ l. has id l ≡ false) e h))
  ]
