-- ===== src/Semaphore/Queue/Laws.antt =====
-- What the queue's operations keep: who waits and in which order, and that nobody who is up sleeps.
use mathlib.Core.List.{Sublist}
use mathlib.Core.List.Sublist
use conjure_rust_runtime.Prelude.{
  ◌≡◌, refl, ap, sym, ◌∙◌, false≢true, true, false, Option, none, some, List, [], ◌∷◌, ◌++◌, ltb,
  ◌==◌, Bool-cases, inl, inr, arith,
}
use conjure_rust_runtime.Semaphore.{FutureId, Waker, WillWake}
use conjure_rust_runtime.Semaphore.Queue.{
  Queue, Waiters, has, remove, park, is_front, available, wake, wake_front,
}
use conjure_rust_runtime.Semaphore.Layout.{Distinct}

abbrev pub ids : Waiters → List FutureId
ids [] = []
ids ((a, w) ∷ xs) = a ∷ ids xs

abbrev pub front_waker : Waiters → Option Waker
front_waker [] = none
front_waker ((a, w) ∷ xs) = w

-- While a permit is available, the first waiter has no waker left: it has been woken.
abbrev pub Awake : Queue → Type 0
Awake q = available q ≡ true → front_waker q.waiters ≡ none

-- What `wake` leaves alone.
pub record SameQueue (q r : Queue) : Type 0 where
  pub total : r.total ≡ q.total
  pub outstanding : r.outstanding ≡ q.outstanding
  pub order : ids r.waiters ≡ ids q.waiters

wake_front-SameQueue : (q : Queue) (xs : Waiters) → q.waiters ≡ xs → SameQueue q (wake_front q xs)
unfolding wake_front
wake_front-SameQueue q [] e = record { total = refl; outstanding = refl; order = refl }
wake_front-SameQueue q ((a, none) ∷ xs) e = record {
  total = refl;
  outstanding = refl;
  order = refl;
}
wake_front-SameQueue q ((a, some w) ∷ xs) e = record {
  total = refl;
  outstanding = refl;
  order = rw e;
}

pub wake-SameQueue : (q : Queue) → SameQueue q (wake q)
unfolding wake
wake-SameQueue q = elim (Bool-cases (ltb q.outstanding q.total)) [
  | inl e ↦ rw e (wake_front-SameQueue q q.waiters refl)
  | inr e ↦ rw e (record { total = refl; outstanding = refl; order = refl })
]

available-wake : (q : Queue) → available (wake q) ≡ available q
available-wake q = rw ((wake-SameQueue q).total, (wake-SameQueue q).outstanding)

wake_front-none :
    (q : Queue) (xs : Waiters) → q.waiters ≡ xs → front_waker (wake_front q xs).waiters ≡ none
unfolding wake_front
wake_front-none q [] e = rw e
wake_front-none q ((a, none) ∷ xs) e = rw e
wake_front-none q ((a, some w) ∷ xs) e = refl

pub wake-Awake : (q : Queue) → Awake (wake q)
unfolding wake
wake-Awake q h = elim (Bool-cases (ltb q.outstanding q.total)) [
  | inl e ↦ rw e (wake_front-none q q.waiters refl)
  | inr e ↦ absurd (false≢true (sym e ∙ sym (available-wake q) ∙ h))
]

-- Distinctness is a matter of the identities.
pub has-ids : (j : FutureId) (xs ys : Waiters) → ids xs ≡ ids ys → has j xs ≡ has j ys
has-ids j [] [] e = refl
has-ids j [] (y ∷ ys) e = cc
has-ids j (x ∷ xs) [] e = cc
has-ids j ((a, v) ∷ xs) ((b, w) ∷ ys) e = ground (arith, has-ids j xs ys)

pub ids-Distinct : (xs ys : Waiters) → ids xs ≡ ids ys → Distinct xs → Distinct ys
ids-Distinct [] [] e d = tt
ids-Distinct [] (y ∷ ys) e d = cc
ids-Distinct (x ∷ xs) [] e d = cc
ids-Distinct ((a, v) ∷ xs) ((b, w) ∷ ys) e d =
    (ground (arith, has-ids a xs ys), ids-Distinct xs ys (ground arith) d.1)

pub ids-append : (xs ys : Waiters) → ids (xs ++ ys) ≡ ids xs ++ ids ys
ids-append [] ys = refl
ids-append ((a, w) ∷ xs) ys = ap (◌∷◌ a) (ids-append xs ys)

pub ids-park :
    (ww : WillWake) (id : FutureId) (cx : Waker) (xs : Waiters) → ids (park ww id cx xs) ≡ ids xs
ids-park ww id cx [] = refl
ids-park ww id cx ((a, w) ∷ xs) = ground (arith, ids-park ww id cx xs)

pub has-remove : (j id : FutureId) (xs : Waiters) → has j xs ≡ false → has j (remove id xs) ≡ false
has-remove j id [] h = refl
has-remove j id ((a, w) ∷ xs) h = ground (arith, has-remove j id xs)

pub remove-Distinct : (id : FutureId) (xs : Waiters) → Distinct xs → Distinct (remove id xs)
remove-Distinct id [] d = tt
remove-Distinct id ((a, w) ∷ xs) d = ground (arith, has-remove a id xs, remove-Distinct id xs d.1)

-- To take the first waiter out.
pub remove-front :
    (id : FutureId) (xs : Waiters) → is_front id xs ≡ true → ids xs ≡ id ∷ ids (remove id xs)
remove-front id [] h = cc
remove-front id ((a, w) ∷ xs) h = ground arith

pub remove-Sublist : (id : FutureId) (xs : Waiters) → Sublist (ids (remove id xs)) (ids xs)
remove-Sublist id [] = Sublist.refl []
remove-Sublist id ((a, w) ∷ xs) = elim (Bool-cases (id == a)) [
  | inl e ↦ rw e (Sublist.cons a (Sublist.refl (ids xs)))
  | inr e ↦ rw e (Sublist.cons-cons a (remove-Sublist id xs))
]
