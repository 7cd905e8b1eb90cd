-- ===== src/Semaphore/Refinement.antt =====
-- Every operation of the semaphore does to the linked list what the queue's does to the queue, and
-- never faults.
use conjure_rust_runtime.Prelude.{
  ℕ, ◌+◌, ◌≤◌, ◌<◌, ◌≡◌, refl, ap, Bool, true, false, none, [], ◌∷◌, ◌==◌, ◌&&◌, Bool-cases, inl,
  inr, arith, ltb, lt→ltb, is_none, subst, sym, ◌∙◌, ==_iff, le→leb,
}
use conjure_rust_runtime.Semaphore
use conjure_rust_runtime.Semaphore.{
  FutureId, Waker, Node, State, Result, ok, ◌>>=◌, update, read, write, usize_max, WillWake, ready,
  pending, Poll, has_permits, maybe_wake, enqueue, grant, take_permit, set_waker, drop_acquire,
  drop_permit,
}
use conjure_rust_runtime.Semaphore.Queue
use conjure_rust_runtime.Semaphore.Queue.{
  Queue, Waiters, has, remove, park, is_front, refresh, available, wake, join, is_empty, cancel,
  release,
}
use conjure_rust_runtime.Semaphore.Layout.{
  first_or, layout-none, Distinct, has-append, append-Distinct,
}
use conjure_rust_runtime.Semaphore.Repr.{concrete, with_waiters}
use conjure_rust_runtime.Semaphore.Waiting.{
  maybe_wake_lem, remove_absent, is_front_absent, waiting, Waiting,
}
use conjure_rust_runtime.Semaphore.Serve.{serve_lem, enqueue_lem, cancel_at}

-- What holds of every queue that the program reaches.
pub record IsValid (q : Queue) : Type 0 where
  pub distinct : Distinct q.waiters
  pub bounded : q.total ≤ usize_max

is_none-first : (xs : Waiters) → is_none (first_or xs none) ≡ is_empty xs
is_none-first [] = refl
is_none-first (x ∷ xs) = refl

pub join-Distinct : (id : FutureId) (xs : Waiters) → Distinct xs → Distinct (join id xs)
unfolding join
join-Distinct id xs d = elim (Bool-cases (has id xs)) [
  | inl e ↦ rw e d
  | inr e ↦ rw e (append-Distinct xs ((id, none) ∷ []) d (refl, tt) λ j h. other j h e)
]
  where
    clash : {P : Type 0} → ◌≡◌ {A = Bool} true false → P
    clash h = cc

    other : (j : FutureId) → has j xs ≡ true → has id xs ≡ false → has j ((id, none) ∷ []) ≡ false
    other j h e = elim (Bool-cases (j == id)) [
      | inl same ↦ clash (sym h ∙ ap (λ i. has i xs) ((==_iff j id).0 same) ∙ e)
      | inr apart ↦ rw apart
    ]

pub has-join : (id : FutureId) (xs : Waiters) → has id (join id xs) ≡ true
unfolding join
has-join id xs = elim (Bool-cases (has id xs)) [
  | inl e ↦ rw (e, e)
  | inr e ↦ rw (e, has-append id xs ((id, none) ∷ [])) (ground arith)
]

serve-Waiting :
    (ww : WillWake) (q : Queue) (id : FutureId) (cx : Waker)
    → q.total ≤ usize_max
    → Waiting q id
    → Semaphore.serve ww (concrete q) id cx
      ≡ (let r = Queue.serve ww q id cx in ok (concrete r.0, r.1))
serve-Waiting ww q id cx bound v =
    subst
      (λ xs.
        Semaphore.serve ww (concrete (with_waiters q xs)) id cx
        ≡ (let r = Queue.serve ww (with_waiters q xs) id cx in ok (concrete r.0, r.1)))
      (sym v.shape) (serve_lem ww q id cx bound v.ys v.w v.zs v.alone)

-- From the state of a valid queue, a poll of an `Acquire` future does not fault, and changes the list
-- of waiters as the queue's `poll` changes the queue, with the same answer.
pub poll_lem :
    (ww : WillWake) (q : Queue) (id : FutureId) (cx : Waker)
    → IsValid q
    → Semaphore.poll ww (concrete q) id cx
      ≡ (let r = Queue.poll ww q id cx in ok (concrete r.0, r.1))
unfolding Semaphore.poll Queue.poll take_permit
poll_lem ww q id cx v =
    rw (is_none-first q.waiters)
      (elim (Bool-cases (is_empty q.waiters && ltb q.outstanding q.total)) [
        | inl e ↦ rw (e, lt→ltb q.outstanding usize_max (small e))
        | inr e ↦
            rw (e, enqueue_lem q id v.distinct)
              (serve-Waiting ww joined id cx v.bounded
                (waiting joined id (join-Distinct id q.waiters v.distinct) (has-join id q.waiters)))
      ])
  where
    joined : Queue
    joined = with_waiters q (join id q.waiters)

    small : (is_empty q.waiters && ltb q.outstanding q.total) ≡ true → q.outstanding < usize_max
    small e = ground (arith, v.bounded)

cancel-Waiting :
    (q : Queue) (id : FutureId)
    → Waiting q id
    → drop_acquire (concrete q) id ≡ ok (concrete (cancel q id))
cancel-Waiting q id v =
    subst
      (λ xs.
        drop_acquire (concrete (with_waiters q xs)) id
        ≡ ok (concrete (cancel (with_waiters q xs) id)))
      (sym v.shape) (cancel_at q v.ys id v.w v.zs v.alone)

-- From the state of a valid queue, the drop of an `Acquire` future, queued or not, does not fault, and
-- changes the list of waiters as the queue's `cancel` changes the queue.
pub drop_acquire_lem :
    (q : Queue) (id : FutureId)
    → IsValid q
    → drop_acquire (concrete q) id ≡ ok (concrete (cancel q id))
unfolding drop_acquire cancel
drop_acquire_lem q id v = elim (Bool-cases (has id q.waiters)) [
  | inl e ↦ cancel-Waiting q id (waiting q id v.distinct e)
  | inr e ↦ rw (
    layout-none none q.waiters none id e,
    drop_acquire,
    remove_absent id q.waiters e,
    is_front_absent id q.waiters e,
  )
]

-- Dropping a `Permit`.
pub drop_permit_lem :
    (q : Queue) → 0 < q.outstanding → drop_permit (concrete q) ≡ ok (concrete (release q))
unfolding drop_permit release
drop_permit_lem q h = rw (lt→ltb 0 q.outstanding h) (maybe_wake_lem _)

pub add_permits_lem :
    (q : Queue) (n : ℕ)
    → q.total + n ≤ usize_max
    → Semaphore.add_permits (concrete q) n ≡ ok (concrete (Queue.add_permits q n))
unfolding Semaphore.add_permits Queue.add_permits
add_permits_lem q n h = rw (le→leb (q.total + n) usize_max h) (maybe_wake_lem _)

pub remove_permits_lem :
    (q : Queue) (n : ℕ)
    → n ≤ q.total
    → Semaphore.remove_permits (concrete q) n ≡ ok (concrete (Queue.remove_permits q n))
unfolding Semaphore.remove_permits Queue.remove_permits
remove_permits_lem q n h = rw (le→leb n q.total h)
