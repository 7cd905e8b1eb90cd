-- ===== src/Semaphore/Queue/Polls.antt =====
-- What a poll does to the queue: it serves the first in line, or leaves everyone in place.
use conjure_rust_runtime.Prelude.{
  ◌+◌, ◌<◌, ◌≡◌, refl, ap, sym, ◌∙◌, true, false, none, [], ◌∷◌, ◌&&◌, Bool-cases, ◌⊎◌, inl, inr,
  arith, ltb→lt, and_true,
}
use conjure_rust_runtime.Semaphore.{FutureId, Waker, WillWake, Poll, ready, pending}
use conjure_rust_runtime.Semaphore.Queue.{
  Queue, Waiters, remove, park, is_front, is_empty, available, join, serve, poll,
}
use conjure_rust_runtime.Semaphore.Queue.Laws.{
  ids, front_waker, Awake, wake-SameQueue, wake-Awake, ids-park, remove-front,
}

pub record Served (q : Queue) (id : FutureId) (r : Queue × Poll) : Type 0 where
  pub answer : r.1 ≡ ready
  pub free : q.outstanding < q.total
  pub total : r.0.total ≡ q.total
  pub outstanding : r.0.outstanding ≡ q.outstanding + 1
  pub first : ids (join id q.waiters) ≡ id ∷ ids r.0.waiters
  pub awake : Awake r.0

pub record Parked (q : Queue) (id : FutureId) (r : Queue × Poll) : Type 0 where
  pub answer : r.1 ≡ pending
  pub total : r.0.total ≡ q.total
  pub outstanding : r.0.outstanding ≡ q.outstanding
  pub order : ids r.0.waiters ≡ ids (join id q.waiters)
  pub awake : Awake r.0

abbrev joined : Queue → FutureId → Queue
joined q id = record q { waiters = join id q.waiters }

front_waker-join :
    (id : FutureId) (xs : Waiters) → front_waker xs ≡ none → front_waker (join id xs) ≡ none
unfolding join
front_waker-join id [] h = refl
front_waker-join id ((a, w) ∷ xs) h = ground arith

-- The first waiter keeps its waker while another one parks.
front_waker-park :
    (ww : WillWake) (id : FutureId) (cx : Waker) (xs : Waiters)
    → is_front id xs ≡ false
    → front_waker (park ww id cx xs) ≡ front_waker xs
front_waker-park ww id cx [] h = refl
front_waker-park ww id cx ((a, w) ∷ xs) h = ground arith

serve-front :
    (ww : WillWake) (q : Queue) (id : FutureId) (cx : Waker)
    → is_front id (join id q.waiters) ≡ true
    → available q ≡ true
    → Served q id (serve ww (joined q id) id cx)
unfolding serve
serve-front ww q id cx f a =
    let same =
      wake-SameQueue
        (record q { outstanding = q.outstanding + 1; waiters = remove id (join id q.waiters) }) in
    rw (f, a)
      (record {
        answer = refl;
        free = ltb→lt q.outstanding q.total a;
        total = same.total;
        outstanding = same.outstanding;
        first = remove-front id (join id q.waiters) f ∙ ap (◌∷◌ id) (sym same.order);
        awake = wake-Awake _;
      })

serve-wait :
    (ww : WillWake) (q : Queue) (id : FutureId) (cx : Waker)
    → Awake q
    → (is_front id (join id q.waiters) && available q) ≡ false
    → Parked q id (serve ww (joined q id) id cx)
unfolding serve
serve-wait ww q id cx awake h = rw h (record {
  answer = refl;
  total = refl;
  outstanding = refl;
  order = ids-park ww id cx (join id q.waiters);
  awake = still;
})
  where
    behind : available q ≡ true → is_front id (join id q.waiters) ≡ false
    behind a = ground arith

    still : available q ≡ true → front_waker (park ww id cx (join id q.waiters)) ≡ none
    still a =
        front_waker-park ww id cx (join id q.waiters) (behind a)
        ∙ front_waker-join id q.waiters (awake a)

ids-join_empty :
    (id : FutureId) (xs : Waiters) → is_empty xs ≡ true → ids (join id xs) ≡ id ∷ ids xs
unfolding join
ids-join_empty id [] h = refl
ids-join_empty id (x ∷ xs) h = cc

front_waker-empty : (xs : Waiters) → is_empty xs ≡ true → front_waker xs ≡ none
front_waker-empty [] h = refl
front_waker-empty (x ∷ xs) h = cc

fast-Served :
    (q : Queue) (id : FutureId)
    → is_empty q.waiters ≡ true
    → available q ≡ true
    → Served q id (record q { outstanding = q.outstanding + 1 }, ready)
fast-Served q id h a = record {
  answer = refl;
  free = ltb→lt q.outstanding q.total a;
  total = refl;
  outstanding = refl;
  first = ids-join_empty id q.waiters h;
  awake = λ _. front_waker-empty q.waiters h;
}

-- A poll serves a waiter that is first in line while a permit is available, and parks any other.
pub poll_cases :
    (ww : WillWake) (q : Queue) (id : FutureId) (cx : Waker)
    → Awake q
    → Served q id (poll ww q id cx) ⊎ Parked q id (poll ww q id cx)
unfolding poll
poll_cases ww q id cx awake = elim (Bool-cases (is_empty q.waiters && available q)) [
  | inl e ↦ rw e (inl (fast-Served q id (and_true _ _ e).0 (and_true _ _ e).1))
  | inr e ↦ elim (Bool-cases (is_front id (join id q.waiters) && available q)) [
    | inl f ↦ rw e (inl (serve-front ww q id cx (and_true _ _ f).0 (and_true _ _ f).1))
    | inr f ↦ rw e (inr (serve-wait ww q id cx awake f))
  ]
]
