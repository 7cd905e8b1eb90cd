-- ===== src/Semaphore/Invariant.antt =====
-- Every call keeps the invariant of histories.

use conjure_rust_runtime.Prelude.{
  ℕ, ◌+◌, ◌-◌, ◌<◌, ◌≡◌, refl, ap, sym, ◌∙◌, subst, false, none, List, [], ◌∷◌, ◌++◌, is_some,
  Bool-cases, inl, inr, arith, append_assoc,
}
use conjure_rust_runtime.Semaphore.{FutureId, Waker, Result, ok, WillWake, Poll}
use conjure_rust_runtime.Semaphore.Queue
use conjure_rust_runtime.Semaphore.Queue.{
  Queue, Waiters, has, remove, join, wake, available, cancel, release, is_front,
}
use conjure_rust_runtime.Semaphore.Queue.Laws.{
  ids, Awake, front_waker, SameQueue, wake-SameQueue, wake-Awake, ids-append, ids-Distinct,
  remove-Distinct,
}
use conjure_rust_runtime.Semaphore.Queue.Polls.{Served, Parked, poll_cases}
use conjure_rust_runtime.Semaphore.Layout.{Distinct, layout, layout-none, layout_at}
use conjure_rust_runtime.Semaphore.Waiting.{waiting}
use conjure_rust_runtime.Semaphore.Refinement.{
  IsValid, poll_lem, drop_acquire_lem, drop_permit_lem, add_permits_lem, remove_permits_lem,
  join-Distinct,
}
use conjure_rust_runtime.Semaphore.History.{
  Event, polls, abandons, returns, adds, removes, World, step, Allowed, arrive,
}
use conjure_rust_runtime.Semaphore.Track.{Grows, Drops, Suits, Track, world, Inv, Steps}

is_some-layout :
    (q : Queue) (id : FutureId)
    → Distinct q.waiters
    → is_some (layout none q.waiters none id) ≡ has id q.waiters
is_some-layout q id d = elim (Bool-cases (has id q.waiters)) [
  | inl e ↦
      let v = waiting q id d e in
      rw (e, ap (λ xs. layout none xs none id) v.shape)
        (rw (layout_at none v.ys id v.w v.zs none v.alone.before))
  | inr e ↦ rw (e, layout-none none q.waiters none id e)
]

front_waker-remove :
    (id : FutureId) (xs : Waiters)
    → is_front id xs ≡ false
    → front_waker (remove id xs) ≡ front_waker xs
front_waker-remove id [] h = refl
front_waker-remove id ((a, w) ∷ xs) h = ground arith

module _ (R : List FutureId → List FutureId → Type 0) (grows : Grows R) where
  -- Those who have arrived are those who had, and the one that joins.
  joined-order :
      (t : Track) (id : FutureId)
      → Inv R t
      → R (t.grants ++ ids (join id t.queue.waiters)) (arrive (world t) id).arrivals
  unfolding join
  joined-order t id v = elim (Bool-cases (has id t.queue.waiters)) [
    | inl e ↦ rw (is_some-layout t.queue id v.valid.distinct, e) v.order
    | inr e ↦
        rw (is_some-layout t.queue id v.valid.distinct, e, ids-append, ← append_assoc)
          (grows _ _ id v.order)
  ]

  served :
      (ww : WillWake) (t : Track) (id : FutureId) (cx : Waker)
      → Inv R t
      → Served t.queue id (Queue.poll ww t.queue id cx)
      → Steps R (step ww (world t) (polls id cx))
  unfolding step
  served ww t id cx v s = record {
    track = record {
      queue = r.0;
      live = t.live + 1;
      arrivals = (arrive (world t) id).arrivals;
      grants = t.grants ++ id ∷ [];
    };
    done = rw (poll_lem ww t.queue id cx v.valid, s.answer);
    inv = record {
      valid = record {
        distinct =
            (ids-Distinct (join id t.queue.waiters) ((id, none) ∷ r.0.waiters) s.first
              (join-Distinct id t.queue.waiters v.valid.distinct)).1;
        bounded = rw s.total v.valid.bounded;
      };
      awake = s.awake;
      counted = rw (s.outstanding, v.counted);
      order = rw (append_assoc, ← s.first) (joined-order t id v);
    };
  }
    where
      r : Queue × Poll
      r = Queue.poll ww t.queue id cx

  parked :
      (ww : WillWake) (t : Track) (id : FutureId) (cx : Waker)
      → Inv R t
      → Parked t.queue id (Queue.poll ww t.queue id cx)
      → Steps R (step ww (world t) (polls id cx))
  unfolding step
  parked ww t id cx v p = record {
    track = record {
      queue = r.0;
      live = t.live;
      arrivals = (arrive (world t) id).arrivals;
      grants = t.grants;
    };
    done = rw (poll_lem ww t.queue id cx v.valid, p.answer);
    inv = record {
      valid = record {
        distinct =
            ids-Distinct (join id t.queue.waiters) r.0.waiters (sym p.order)
              (join-Distinct id t.queue.waiters v.valid.distinct);
        bounded = rw p.total v.valid.bounded;
      };
      awake = p.awake;
      counted = rw (p.outstanding, v.counted);
      order = rw p.order (joined-order t id v);
    };
  }
    where
      r : Queue × Poll
      r = Queue.poll ww t.queue id cx

  -- The queue after an operation that ends in `wake`.
  woken :
      (t : Track) (q : Queue) (live : ℕ) (r : Result World)
      → IsValid q
      → q.outstanding ≡ live
      → R (t.grants ++ ids q.waiters) t.arrivals
      → r ≡ ok (world (record t { queue = wake q; live = live }))
      → Steps R r
  woken t q live r valid counted order e = record {
    track = record t { queue = wake q; live = live };
    done = e;
    inv = record {
      valid = record {
        distinct = ids-Distinct q.waiters (wake q).waiters (sym same.order) valid.distinct;
        bounded = rw same.total valid.bounded;
      };
      awake = wake-Awake q;
      counted = same.outstanding ∙ counted;
      order = rw same.order order;
    };
  }
    where
      same : SameQueue q (wake q)
      same = wake-SameQueue q

  cancelled :
      (ww : WillWake) (t : Track) (id : FutureId)
      → Drops R
      → Inv R t
      → Steps R (step ww (world t) (abandons id))
  unfolding step cancel
  cancelled ww t id drops v = elim (Bool-cases (is_front id t.queue.waiters)) [
    | inl e ↦
        woken t rest t.live (step ww (world t) (abandons id)) valid v.counted order
          (rw (drop_acquire_lem t.queue id v.valid, cancel, e))
    | inr e ↦ record {
      track = record t { queue = rest };
      done = rw (drop_acquire_lem t.queue id v.valid, cancel, e);
      inv = record { valid = valid; awake = still e; counted = v.counted; order = order };
    }
  ]
    where
      rest : Queue
      rest = record t.queue { waiters = remove id t.queue.waiters }

      valid : IsValid rest
      valid = record {
        distinct = remove-Distinct id t.queue.waiters v.valid.distinct;
        bounded = v.valid.bounded;
      }

      order : R (t.grants ++ ids (remove id t.queue.waiters)) t.arrivals
      order = drops t.grants t.queue.waiters t.arrivals id v.order

      still : is_front id t.queue.waiters ≡ false → Awake rest
      still e h = front_waker-remove id t.queue.waiters e ∙ v.awake h

  -- Every call that the callers may make succeeds, and keeps the invariant.
  pub step-Inv :
      (ww : WillWake) (t : Track) (e : Event)
      → Suits R e
      → Allowed (world t) e
      → Inv R t
      → Steps R (step ww (world t) e)
  unfolding step release Queue.add_permits Queue.remove_permits
  step-Inv ww t (polls id cx) fit a v = elim (poll_cases ww t.queue id cx v.awake) [
    | inl s ↦ served ww t id cx v s
    | inr p ↦ parked ww t id cx v p
  ]
  step-Inv ww t (abandons id) fit a v = cancelled ww t id fit v
  step-Inv ww t returns fit a v =
      woken t (record t.queue { outstanding = t.queue.outstanding - 1 }) (t.live - 1)
        (step ww (world t) returns)
        (record { distinct = v.valid.distinct; bounded = v.valid.bounded }) (rw v.counted) v.order
        (rw (drop_permit_lem t.queue (subst (λ n. 0 < n) (sym v.counted) a)))
  step-Inv ww t (adds n) fit a v =
      woken t (record t.queue { total = t.queue.total + n }) t.live (step ww (world t) (adds n))
        (record { distinct = v.valid.distinct; bounded = a }) v.counted v.order
        (rw (add_permits_lem t.queue n a))
  step-Inv ww t (removes n) fit a v = record {
    track = record t { queue = Queue.remove_permits t.queue n };
    done = rw (remove_permits_lem t.queue n a);
    inv = record {
      valid = record { distinct = v.valid.distinct; bounded = omega (arith, v.valid.bounded) };
      awake = λ h. v.awake (ground arith);
      counted = v.counted;
      order = v.order;
    };
  }
