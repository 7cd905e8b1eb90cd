-- ===== src/Semaphore/Waiting.antt =====
-- One waiter in the middle of the queue, and what the operations do there.
use conjure_rust_runtime.Prelude.{
  ◌≡◌, refl, true, false, Option, none, some, [], ◌∷◌, ◌++◌, ==_refl, Bool-cases, inl, inr, arith,
  ltb, is_none, subst, fun_ext,
}
use conjure_rust_runtime.Semaphore.{FutureId, Waker, ok, update, read, WillWake, maybe_wake}
use conjure_rust_runtime.Semaphore.Queue.{
  Queue, Waiters, has, remove, park, is_front, refresh, wake,
}
use conjure_rust_runtime.Semaphore.Layout.{
  node, layout, first_or, last_or, layout-none, layout-append, has_split, Distinct, Alone,
  Distinct-Alone,
}
use conjure_rust_runtime.Semaphore.Repr.{concrete, with_waiters}

-- A waker changes in place.
pub set_waker-layout :
    (ys : Waiters) (id : FutureId) (v w : Option Waker) (zs : Waiters)
    → has id ys ≡ false
    → update
        (layout none (ys ++ (id, v) ∷ zs) none)
        id
        (some (node w (first_or zs none) (last_or none ys)))
      ≡ layout none (ys ++ (id, w) ∷ zs) none
set_waker-layout ys id v w zs h = fun_ext λ j. ground (
  arith,
  layout-append none ys ((id, v) ∷ zs) none j,
  layout-append none ys ((id, w) ∷ zs) none j,
  layout-none none ys (some id) id,
)

-- Only the first waiter's waker is taken.
maybe_wake-waiters :
    (q : Queue) (xs : Waiters)
    → maybe_wake (concrete (with_waiters q xs)) ≡ ok (concrete (wake (with_waiters q xs)))
unfolding maybe_wake wake
maybe_wake-waiters q [] = ground arith
maybe_wake-waiters q ((a, none) ∷ xs) = elim (Bool-cases (ltb q.outstanding q.total)) [
  | inl e ↦ rw (e, ==_refl a, read)
  | inr e ↦ rw e
]
maybe_wake-waiters q ((a, some w) ∷ xs) = elim (Bool-cases (ltb q.outstanding q.total)) [
  | inl e ↦
      rw (e, ==_refl a, read)
        (λ i. ok (record (concrete (with_waiters q ((a, none) ∷ xs))) {
          nodes = set_waker-layout [] a (some w) none xs refl i;
          woken = w ∷ q.woken;
        }))
  | inr e ↦ rw e
]

pub maybe_wake_lem : (q : Queue) → maybe_wake (concrete q) ≡ ok (concrete (wake q))
maybe_wake_lem q = maybe_wake-waiters q q.waiters

pub remove_at :
    (ys : Waiters) (id : FutureId) (w : Option Waker) (zs : Waiters)
    → has id ys ≡ false
    → remove id (ys ++ (id, w) ∷ zs) ≡ ys ++ zs
remove_at [] id w zs h = ground arith
remove_at ((a, v) ∷ ys) id w zs h = ground (arith, remove_at ys id w zs)

pub park_at :
    (ww : WillWake) (cx : Waker) (ys : Waiters) (id : FutureId) (w : Option Waker) (zs : Waiters)
    → has id ys ≡ false
    → park ww id cx (ys ++ (id, w) ∷ zs) ≡ ys ++ (id, refresh ww w cx) ∷ zs
park_at ww cx [] id w zs h = ground arith
park_at ww cx ((a, v) ∷ ys) id w zs h = ground (arith, park_at ww cx ys id w zs)

last_or-some : (a : FutureId) (xs : Waiters) → is_none (last_or (some a) xs) ≡ false
last_or-some a [] = refl
last_or-some a ((b, w) ∷ xs) = last_or-some b xs

-- A waiter is first in the queue if and only if nothing links back from it.
pub is_front_at :
    (ys : Waiters) (id : FutureId) (w : Option Waker) (zs : Waiters)
    → has id ys ≡ false
    → is_none (last_or none ys) ≡ is_front id (ys ++ (id, w) ∷ zs)
is_front_at [] id w zs h = ground arith
is_front_at ((a, v) ∷ ys) id w zs h = ground (arith, last_or-some a ys)

pub remove_absent : (id : FutureId) (xs : Waiters) → has id xs ≡ false → remove id xs ≡ xs
remove_absent id [] h = refl
remove_absent id ((a, w) ∷ xs) h = ground (arith, remove_absent id xs)

pub is_front_absent : (id : FutureId) (xs : Waiters) → has id xs ≡ false → is_front id xs ≡ false
is_front_absent id [] h = refl
is_front_absent id ((a, w) ∷ xs) h = ground arith

-- The concrete view of a future that waits.
pub record Waiting (q : Queue) (id : FutureId) : Type 0 where
  pub ys : Waiters
  pub w : Option Waker
  pub zs : Waiters
  pub shape : q.waiters ≡ ys ++ (id, w) ∷ zs
  pub alone : Alone ys id zs

pub waiting :
    (q : Queue) (id : FutureId) → Distinct q.waiters → has id q.waiters ≡ true → Waiting q id
waiting q id d h =
    let (ys, w, zs, e) = has_split id q.waiters h in
    record {
      ys = ys;
      w = w;
      zs = zs;
      shape = e;
      alone = Distinct-Alone ys id w zs (subst Distinct e d);
    }
