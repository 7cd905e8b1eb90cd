-- ===== src/Semaphore/Queue/Calls.antt =====
-- The wakers that the queue's operations call, and the waker that a poll leaves.
use mathlib.Core.List.{Memᴰ}
use conjure_rust_runtime.Prelude.{
  ◌≡◌, refl, ap, sym, ◌∙◌, true, Option, none, some, List, [], ◌∷◌, ◌++◌, ◌==◌, ◌&&◌, Bool-cases,
  ◌⊎◌, inl, inr, append_assoc,
}
use conjure_rust_runtime.Semaphore.{FutureId, Waker, WillWake, ready, pending}
use conjure_rust_runtime.Semaphore.Queue.{
  Queue, Waiters, has, park, refresh, is_front, available, is_empty, wake, wake_front, join, serve,
  poll, cancel,
}
use conjure_rust_runtime.Semaphore.Queue.Wakers.{waker_at, Kept}

-- The wakers called since the log was `base`.
abbrev pub Calls : List Waker → Queue → Type 0
Calls base q = (calls : List Waker) × (q.woken ≡ calls ++ base)

wake_front-Calls : (q : Queue) (xs : Waiters) → Calls q.woken (wake_front q xs)
unfolding wake_front
wake_front-Calls q [] = ([], refl)
wake_front-Calls q ((a, none) ∷ xs) = ([], refl)
wake_front-Calls q ((a, some w) ∷ xs) = (w ∷ [], refl)

pub wake-Calls : (q : Queue) → Calls q.woken (wake q)
unfolding wake
wake-Calls q = elim (Bool-cases (available q)) [
  | inl e ↦ rw e (wake_front-Calls q q.waiters)
  | inr e ↦ rw e ([], refl)
]

pub poll-Calls :
    (ww : WillWake) (q : Queue) (id : FutureId) (cx : Waker) → Calls q.woken (poll ww q id cx).0
unfolding poll serve
poll-Calls ww q id cx = elim (Bool-cases (is_empty q.waiters && available q)) [
  | inl e ↦ rw e ([], refl)
  | inr e ↦ elim (Bool-cases (is_front id (join id q.waiters) && available q)) [
    | inl f ↦ rw (e, f) (wake-Calls _)
    | inr f ↦ rw (e, f) ([], refl)
  ]
]

pub cancel-Calls : (q : Queue) (id : FutureId) → Calls q.woken (cancel q id)
unfolding cancel
cancel-Calls q id = elim (Bool-cases (is_front id q.waiters)) [
  | inl e ↦ rw e (wake-Calls _)
  | inr e ↦ rw e ([], refl)
]

-- The waker `x` is one that wakes the task of `cx`.
abbrev pub Wakes : WillWake → Waker → Waker → Type 0
Wakes ww cx x = (x ≡ cx) ⊎ (ww x cx ≡ true)

abbrev pub Left : WillWake → FutureId → Waker → Waiters → Type 0
Left ww id cx xs = (x : Waker) × Wakes ww cx x × (waker_at id xs ≡ some (some x))

refresh-Wakes :
    (ww : WillWake) (w : Option Waker) (cx : Waker)
    → (x : Waker) × Wakes ww cx x × (refresh ww w cx ≡ some x)
refresh-Wakes ww none cx = (cx, inl refl, refl)
refresh-Wakes ww (some w) cx = elim (Bool-cases (ww w cx)) [
  | inl e ↦ (w, inr e, rw e)
  | inr e ↦ (cx, inl refl, rw e)
]

park-Left :
    (ww : WillWake) (id : FutureId) (cx : Waker) (xs : Waiters)
    → has id xs ≡ true
    → Left ww id cx (park ww id cx xs)
park-Left ww id cx [] h = cc
park-Left ww id cx ((a, w) ∷ xs) h = elim (Bool-cases (id == a)) [
  | inl e ↦ let (x, wakes, f) = refresh-Wakes ww w cx in (x, wakes, rw (e, e) (ap some f))
  | inr e ↦ let (x, wakes, f) = park-Left ww id cx xs (rw e at h) in (x, wakes, rw (e, e) f)
]

-- A poll that is not answered leaves a waker, and calls none.
pub poll-Left :
    (ww : WillWake) (q : Queue) (id : FutureId) (cx : Waker)
    → has id (join id q.waiters) ≡ true
    → (poll ww q id cx).1 ≡ pending
    → Left ww id cx (poll ww q id cx).0.waiters × ((poll ww q id cx).0.woken ≡ q.woken)
unfolding poll serve
poll-Left ww q id cx joined h = elim (Bool-cases (is_empty q.waiters && available q)) [
  | inl e ↦ absurd (not_pending (rw e at h))
  | inr e ↦ elim (Bool-cases (is_front id (join id q.waiters) && available q)) [
    | inl f ↦ absurd (not_pending (rw (e, f) at h))
    | inr f ↦ rw (e, f) (park-Left ww id cx (join id q.waiters) joined, refl)
  ]
]
  where
    not_pending : ready ≡ pending → ⊥
    not_pending h = cc

mem_prepend : {x : Waker} (xs ys : List Waker) → Memᴰ x ys → Memᴰ x (xs ++ ys)
mem_prepend [] ys m = m
mem_prepend (y ∷ xs) ys m = Memᴰ.tail (mem_prepend xs ys m)

-- Since the log was `base`, the waker `x` that `id` has left has been called; or it is still there.
abbrev pub Due : List Waker → FutureId → Waker → Queue → Type 0
Due base id x q =
    (calls : List Waker) × (q.woken ≡ calls ++ base)
    × ((waker_at id q.waiters ≡ some (some x)) ⊎ Memᴰ x calls)

-- After a step from `q` to `r` that keeps a waker or calls it.
pub step-Due :
    (base : List Waker) (id : FutureId) (x : Waker) (q r : Queue)
    → (waker_at id q.waiters ≡ some (some x) → Kept id x q.woken r)
    → Calls q.woken r
    → Due base id x q
    → Due base id x r
step-Due base id x q r kept (more, f) (calls, e, inr m) = (
  more ++ calls,
  f ∙ ap (λ l. more ++ l) e ∙ sym (append_assoc more calls base),
  inr (mem_prepend more calls m),
)
step-Due base id x q r kept (more, f) (calls, e, inl there) = elim (kept there) [
  | inl still ↦
      (more ++ calls, f ∙ ap (λ l. more ++ l) e ∙ sym (append_assoc more calls base), inl still)
  | inr (gone, called) ↦ (x ∷ calls, called ∙ ap (◌∷◌ x) e, inr (Memᴰ.head refl))
]
