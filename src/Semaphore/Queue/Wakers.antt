-- ===== src/Semaphore/Queue/Wakers.antt =====
-- The wakers of the waiters under the queue's operations.
use conjure_rust_runtime.Prelude.{
  ◌≡◌, refl, true, false, Option, none, some, [], ◌∷◌, ◌++◌, ◌==◌, ◌&&◌, if◌then◌else◌, Bool-cases,
  ◌⊎◌, inl, inr, arith, List,
}
use conjure_rust_runtime.Semaphore.{FutureId, Waker, WillWake}
use conjure_rust_runtime.Semaphore.Queue.{
  Queue, Waiters, has, remove, park, is_front, available, is_empty, wake, wake_front, join, serve,
  poll, cancel,
}

-- What the waiter `id` has left, if it waits.
abbrev pub waker_at : FutureId → Waiters → Option (Option Waker)
waker_at id [] = none
waker_at id ((a, w) ∷ xs) = if id == a then some w else waker_at id xs

-- The waker `x` of `id` is kept, or it has just been called.
abbrev pub Kept : FutureId → Waker → List Waker → Queue → Type 0
Kept id x woken q =
    (waker_at id q.waiters ≡ some (some x))
    ⊎ ((waker_at id q.waiters ≡ some none) × (q.woken ≡ x ∷ woken))

wake_front-Kept :
    (id : FutureId) (x : Waker) (q : Queue) (xs : Waiters)
    → q.waiters ≡ xs
    → waker_at id xs ≡ some (some x)
    → Kept id x q.woken (wake_front q xs)
unfolding wake_front
wake_front-Kept id x q [] e h = cc
wake_front-Kept id x q ((a, none) ∷ xs) e h = inl (rw e h)
wake_front-Kept id x q ((a, some w) ∷ xs) e h = elim (Bool-cases (id == a)) [
  | inl same ↦ inr (rw same, ground arith)
  | inr other ↦ inl (rw other (rw other at h))
]

pub wake-Kept :
    (id : FutureId) (x : Waker) (q : Queue)
    → waker_at id q.waiters ≡ some (some x)
    → Kept id x q.woken (wake q)
unfolding wake
wake-Kept id x q h = elim (Bool-cases (available q)) [
  | inl e ↦ rw e (wake_front-Kept id x q q.waiters refl h)
  | inr e ↦ rw e (inl h)
]

waker_at-join :
    (id j : FutureId) (x : Option Waker) (xs : Waiters)
    → waker_at id xs ≡ some x
    → waker_at id (join j xs) ≡ some x
unfolding join
waker_at-join id j x xs h = elim (Bool-cases (has j xs)) [
  | inl e ↦ rw e h
  | inr e ↦ rw e (waker_at-append xs h)
]
  where
    waker_at-append :
        (xs : Waiters) → waker_at id xs ≡ some x → waker_at id (xs ++ (j, none) ∷ []) ≡ some x
    waker_at-append [] h = cc
    waker_at-append ((a, w) ∷ xs) h = ground (arith, waker_at-append xs)

waker_at-remove :
    (id j : FutureId) (x : Option Waker) (xs : Waiters)
    → (id == j) ≡ false
    → waker_at id xs ≡ some x
    → waker_at id (remove j xs) ≡ some x
waker_at-remove id j x [] d h = cc
waker_at-remove id j x ((a, w) ∷ xs) d h = ground (arith, waker_at-remove id j x xs)

waker_at-park :
    (ww : WillWake) (id j : FutureId) (cx : Waker) (x : Option Waker) (xs : Waiters)
    → (id == j) ≡ false
    → waker_at id xs ≡ some x
    → waker_at id (park ww j cx xs) ≡ some x
waker_at-park ww id j cx x [] d h = cc
waker_at-park ww id j cx x ((a, w) ∷ xs) d h = ground (arith, waker_at-park ww id j cx x xs)

pub poll-Kept :
    (ww : WillWake) (id j : FutureId) (cx x : Waker) (q : Queue)
    → (id == j) ≡ false
    → waker_at id q.waiters ≡ some (some x)
    → Kept id x q.woken (poll ww q j cx).0
unfolding poll serve
poll-Kept ww id j cx x q d h = elim (Bool-cases (is_empty q.waiters && available q)) [
  | inl e ↦ rw e (inl h)
  | inr e ↦ rw e (served (Bool-cases (is_front j xs && available q)))
]
  where
    xs : Waiters
    xs = join j q.waiters

    queued : waker_at id xs ≡ some (some x)
    queued = waker_at-join id j (some x) q.waiters h

    served :
        ((is_front j xs && available q) ≡ true) ⊎ ((is_front j xs && available q) ≡ false)
        → Kept id x q.woken (serve ww (record q { waiters = xs }) j cx).0
    served (inl e) = rw e (wake-Kept id x _ (waker_at-remove id j (some x) xs d queued))
    served (inr e) = rw e (inl (waker_at-park ww id j cx (some x) xs d queued))

pub cancel-Kept :
    (id j : FutureId) (x : Waker) (q : Queue)
    → (id == j) ≡ false
    → waker_at id q.waiters ≡ some (some x)
    → Kept id x q.woken (cancel q j)
unfolding cancel
cancel-Kept id j x q d h = elim (Bool-cases (is_front j q.waiters)) [
  | inl e ↦ rw e (wake-Kept id x _ (waker_at-remove id j (some x) q.waiters d h))
  | inr e ↦ rw e (inl (waker_at-remove id j (some x) q.waiters d h))
]
