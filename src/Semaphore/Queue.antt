-- ===== src/Semaphore/Queue.antt =====
-- What the semaphore promises: a first-in first-out queue of waiters, and two counters.
pub mod Laws
pub mod Polls
pub mod Wakers
pub mod Calls
use conjure_rust_runtime.Prelude.{
  ℕ, ◌+◌, ◌-◌, Bool, true, false, ◌&&◌, ◌||◌, Option, none, some, List, [], ◌∷◌, ◌++◌, ltb, ◌==◌,
  if◌then◌else◌,
}
use conjure_rust_runtime.Semaphore.{FutureId, Waker, WillWake, Poll, ready, pending}

-- A waiter with the waker that it left at its last poll, if it has not been woken since.
abbrev pub Waiters : Type 0
Waiters = List (FutureId × Option Waker)

pub record Queue : Type 0 where
  pub total : ℕ
  pub outstanding : ℕ
  pub waiters : Waiters
  pub woken : List Waker

abbrev pub has : FutureId → Waiters → Bool
has id [] = false
has id ((a, w) ∷ xs) = (id == a) || has id xs

abbrev pub remove : FutureId → Waiters → Waiters
remove id [] = []
remove id ((a, w) ∷ xs) = if id == a then xs else (a, w) ∷ remove id xs

-- The waker of `id` is replaced if it would not wake `cx`.
abbrev pub refresh : WillWake → Option Waker → Waker → Option Waker
refresh will_wake none cx = some cx
refresh will_wake (some w) cx = if will_wake w cx then some w else some cx

abbrev pub park : WillWake → FutureId → Waker → Waiters → Waiters
park will_wake id cx [] = []
park will_wake id cx ((a, w) ∷ xs) =
    if id == a then (a, refresh will_wake w cx) ∷ xs else (a, w) ∷ park will_wake id cx xs

abbrev pub is_front : FutureId → Waiters → Bool
is_front id [] = false
is_front id ((a, w) ∷ xs) = id == a

abbrev pub available : Queue → Bool
available q = ltb q.outstanding q.total

-- The front waiter's waker is called, once.
pub wake_front : Queue → Waiters → Queue
wake_front q [] = q
wake_front q ((a, none) ∷ xs) = q
wake_front q ((a, some w) ∷ xs) = record q { waiters = (a, none) ∷ xs; woken = w ∷ q.woken }

unfoldable pub wake : Queue → Queue
unfolding wake_front
wake q = if available q then wake_front q q.waiters else q

unfoldable pub join : FutureId → Waiters → Waiters
join id xs = if has id xs then xs else xs ++ (id, none) ∷ []

abbrev pub is_empty : Waiters → Bool
is_empty [] = true
is_empty (x ∷ xs) = false

-- A waiter takes a permit if it is first in the queue; any other leaves its waker.
unfoldable pub serve : WillWake → Queue → FutureId → Waker → Queue × Poll
serve will_wake q id cx =
    if is_front id q.waiters && available q
    then (wake (record q { outstanding = q.outstanding + 1; waiters = remove id q.waiters }), ready)
    else (record q { waiters = park will_wake id cx q.waiters }, pending)

-- A waiter is served at once if nobody waits, and queues otherwise.
unfoldable pub poll : WillWake → Queue → FutureId → Waker → Queue × Poll
poll will_wake q id cx =
    if is_empty q.waiters && available q
    then (record q { outstanding = q.outstanding + 1 }, ready)
    else serve will_wake (record q { waiters = join id q.waiters }) id cx

-- A waiter that gives up. If it was first, the next one may be up.
unfoldable pub cancel : Queue → FutureId → Queue
cancel q id =
    let q' = record q { waiters = remove id q.waiters } in
    if is_front id q.waiters then wake q' else q'

unfoldable pub release : Queue → Queue
release q = wake (record q { outstanding = q.outstanding - 1 })

unfoldable pub add_permits : Queue → ℕ → Queue
add_permits q permits = wake (record q { total = q.total + permits })

unfoldable pub remove_permits : Queue → ℕ → Queue
remove_permits q permits = record q { total = q.total - permits }
