-- ===== src/Semaphore/Serve.antt =====
-- The parts of `Acquire::poll`: queueing, taking a permit at the head, leaving a waker.
use conjure_rust_runtime.Prelude.{
  ◌+◌, ◌≤◌, ◌<◌, ◌≡◌, refl, ap, true, false, Option, none, some, [], ◌∷◌, ◌++◌, ◌&&◌, Bool-cases,
  inl, inr, arith, ltb, lt→ltb,
}
use conjure_rust_runtime.Semaphore
use conjure_rust_runtime.Semaphore.{
  FutureId, Waker, Node, State, Result, ok, ◌>>=◌, update, read, write, usize_max, WillWake, ready,
  pending, Poll, has_permits, maybe_wake, enqueue, grant, take_permit, set_waker, drop_acquire,
  drop_permit,
}
use conjure_rust_runtime.Semaphore.Queue
use conjure_rust_runtime.Semaphore.Queue.{
  Queue, Waiters, has, remove, park, is_front, refresh, available, wake, join, is_empty, cancel,
  release,
}
use conjure_rust_runtime.Semaphore.Layout.{
  node, layout, first_or, last_or, layout-none, layout_at, has-append, last_or-append, Distinct,
  Alone,
}
use conjure_rust_runtime.Semaphore.Repr.{concrete, with_waiters, update-none}
use conjure_rust_runtime.Semaphore.Waiting.{
  set_waker-layout, maybe_wake_lem, remove_at, park_at, is_front_at, waiting, Waiting,
}
use conjure_rust_runtime.Semaphore.Dequeue.{dequeue_lem, push_back_lem}

grant_lem :
    (q : Queue) (ys : Waiters) (id : FutureId) (w : Option Waker) (zs : Waiters)
    → Alone ys id zs
    → q.outstanding < q.total
    → q.total ≤ usize_max
    → grant (concrete (with_waiters q (ys ++ (id, w) ∷ zs))) id
      ≡ ok (
        concrete (wake (record q { outstanding = q.outstanding + 1; waiters = ys ++ zs })),
        ready,
      )
unfolding grant take_permit
grant_lem q ys id w zs a free bound = rw (dequeue_lem q ys id w zs a) (
    rw
      (
        update-none (ys ++ zs) id (some (node w none none)) gone,
        lt→ltb q.outstanding usize_max small,
      )
      (rw (maybe_wake_lem (record q { outstanding = q.outstanding + 1; waiters = ys ++ zs }))))
  where
    gone : has id (ys ++ zs) ≡ false
    gone = ground (arith, has-append id ys zs, a.before, a.after)

    small : q.outstanding < usize_max
    small = omega arith

set_waker-refresh :
    (ww : WillWake) (cx : Waker) (w : Option Waker) (n p : Option FutureId)
    → set_waker ww cx (node w n p) ≡ node (refresh ww w cx) n p
unfolding set_waker
set_waker-refresh ww cx none n p = refl
set_waker-refresh ww cx (some w) n p = ground arith

first_or-waker :
    (ys : Waiters) (id : FutureId) (v w : Option Waker) (zs : Waiters)
    → first_or (ys ++ (id, v) ∷ zs) none ≡ first_or (ys ++ (id, w) ∷ zs) none
first_or-waker [] id v w zs = refl
first_or-waker (y ∷ ys) id v w zs = refl

last_or-waker :
    (ys : Waiters) (id : FutureId) (v w : Option Waker) (zs : Waiters)
    → last_or none (ys ++ (id, v) ∷ zs) ≡ last_or none (ys ++ (id, w) ∷ zs)
last_or-waker ys id v w zs = simp last_or-append

pub serve_lem :
    (ww : WillWake) (q : Queue) (id : FutureId) (cx : Waker)
    → q.total ≤ usize_max
    → (ys : Waiters) (w : Option Waker) (zs : Waiters) → Alone ys id zs
    → Semaphore.serve ww (concrete (with_waiters q (ys ++ (id, w) ∷ zs))) id cx ≡ (
        let r = Queue.serve ww (with_waiters q (ys ++ (id, w) ∷ zs)) id cx in
        ok (concrete r.0, r.1))
unfolding Semaphore.serve Queue.serve has_permits
serve_lem ww q id cx bound ys w zs a =
    rw (layout_at none ys id w zs none a.before, read, is_front_at ys id w zs a.before)
      (elim (Bool-cases (is_front id (ys ++ (id, w) ∷ zs) && ltb q.outstanding q.total)) [
        | inl e ↦
            rw e (rw (remove_at ys id w zs a.before) (grant_lem q ys id w zs a (free e) bound))
        | inr e ↦
            rw
              (
                e,
                set_waker-refresh ww cx w (first_or zs none) (last_or none ys),
                park_at ww cx ys id w zs a.before,
              )
              (λ i. ok (
                record (concrete (with_waiters q (ys ++ (id, refresh ww w cx) ∷ zs))) {
                  head = first_or-waker ys id w (refresh ww w cx) zs i;
                  tail = last_or-waker ys id w (refresh ww w cx) zs i;
                  nodes = set_waker-layout ys id w (refresh ww w cx) zs a.before i;
                },
                pending,
              ))
      ])
  where
    free :
        (is_front id (ys ++ (id, w) ∷ zs) && ltb q.outstanding q.total) ≡ true
        → q.outstanding < q.total
    free e = ground arith

enqueue-Waiting :
    (q : Queue) (id : FutureId)
    → has id q.waiters ≡ true
    → Waiting q id
    → enqueue (concrete q) id ≡ ok (concrete (with_waiters q (join id q.waiters)))
unfolding enqueue join
enqueue-Waiting q id e v = rw (
  e,
  ap (λ xs. layout none xs none id) v.shape,
  layout_at none v.ys id v.w v.zs none v.alone.before,
  enqueue,
)

-- A future that is not queued gets a fresh node and joins at the end.
pub enqueue_lem :
    (q : Queue) (id : FutureId)
    → Distinct q.waiters
    → enqueue (concrete q) id ≡ ok (concrete (with_waiters q (join id q.waiters)))
unfolding enqueue join
enqueue_lem q id d = elim (Bool-cases (has id q.waiters)) [
  | inl e ↦ enqueue-Waiting q id e (waiting q id d e)
  | inr e ↦ rw (e, layout-none none q.waiters none id e, enqueue) (push_back_lem q id q.waiters d e)
]

-- A queued future is dropped with its node.
pub cancel_at :
    (q : Queue) (ys : Waiters) (id : FutureId) (w : Option Waker) (zs : Waiters)
    → Alone ys id zs
    → drop_acquire (concrete (with_waiters q (ys ++ (id, w) ∷ zs))) id
      ≡ ok (concrete (cancel (with_waiters q (ys ++ (id, w) ∷ zs)) id))
unfolding drop_acquire cancel
cancel_at q ys id w zs a =
    rw
      (
        layout_at none ys id w zs none a.before,
        drop_acquire,
        is_front_at ys id w zs a.before,
        dequeue_lem q ys id w zs a,
        update-none (ys ++ zs) id (some (node w none none)) gone,
        remove_at ys id w zs a.before,
      )
      (elim (Bool-cases (is_front id (ys ++ (id, w) ∷ zs))) [
        | inl e ↦ rw e (maybe_wake_lem _)
        | inr e ↦ rw e
      ])
  where
    gone : has id (ys ++ zs) ≡ false
    gone = ground (arith, has-append id ys zs, a.before, a.after)
