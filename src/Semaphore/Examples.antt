-- ===== src/Semaphore/Examples.antt =====
-- Tests of the semaphore, and its theorems at a concrete history.
use mathlib.Core.List.{Sublist}
use conjure_rust_runtime.Prelude.{◌≡◌, refl, none, some, List, [], ◌∷◌, ◌++◌, ◌==◌, arith}
use conjure_rust_runtime.Semaphore
use conjure_rust_runtime.Semaphore.{
  FutureId, Node, State, Result, ok, err, WillWake, Poll, ready, pending, has_permits, new, dequeue,
  push_back, maybe_wake, grant, serve, take_permit, enqueue, set_waker, drop_acquire, drop_permit,
  add_permits, remove_permits, wake_node, skip_forward, skip_back, fresh_node, usize_max,
}
use conjure_rust_runtime.Semaphore.Queue.{Queue}
use conjure_rust_runtime.Semaphore.Queue
use conjure_rust_runtime.Semaphore.Queue.Laws.{ids}
use conjure_rust_runtime.Semaphore.Repr.{concrete}
use conjure_rust_runtime.Semaphore.History.{
  Event, polls, abandons, returns, World, begin, step, run, after, AllAllowed,
}
use conjure_rust_runtime.Semaphore.Refinement.{IsValid, poll_lem, drop_acquire_lem}
use conjure_rust_runtime.Semaphore.Fairness.{run-ok, run-Sublist, run-fair}
use conjure_rust_runtime.Semaphore.Wakeups.{step-waker, Heard}
use conjure_rust_runtime.Semaphore.Called.{run-awake, Woken}

-- Two wakers wake the same task if they are equal.
abbrev same_task : WillWake
same_task a b = a == b

-- One permit, three futures, and a return of the permit.
abbrev contention : List Event
contention = polls 10 100 ∷ polls 20 200 ∷ polls 30 300 ∷ returns ∷ []

-- Everything that a run calls.
runs : Unit {0}
unfolding run step new Semaphore.poll drop_acquire drop_permit Semaphore.add_permits
    Semaphore.remove_permits serve grant enqueue dequeue push_back maybe_wake take_permit set_waker
runs = tt

contention_allowed : AllAllowed same_task (begin 1) contention
unfolding runs
contention_allowed = omega arith

run-ok_example : (w : World) × (run same_task (begin 1) contention ≡ ok w)
run-ok_example = run-ok same_task 1 contention (omega arith) contention_allowed

run-Sublist_example :
    (w : World) × (q : Queue) × (run same_task (begin 1) contention ≡ ok w)
    × (w.state ≡ concrete q)
    × Sublist (w.grants ++ ids q.waiters) w.arrivals
run-Sublist_example = run-Sublist same_task 1 contention (omega arith) contention_allowed

run-fair_example :
    (w : World) × (q : Queue) × (run same_task (begin 1) contention ≡ ok w)
    × (w.state ≡ concrete q)
    × (w.grants ++ ids q.waiters ≡ w.arrivals)
run-fair_example = run-fair same_task 1 contention (omega arith) tt contention_allowed

-- After the return the waiter 20 has been woken, and 30 still sleeps.
contended : World
contended = after (begin 1) (run same_task (begin 1) contention)

contention-contended : run same_task (begin 1) contention ≡ ok contended
unfolding runs contended
contention-contended = refl

-- Before and after the poll of 20.
taken : World
taken = after (begin 1) (run same_task (begin 1) (polls 10 100 ∷ []))

state_of : Result (State × Poll) → State
state_of (ok r) = r.0
state_of (err e) = new 0

parked : State
unfolding state_of
parked = state_of (Semaphore.poll same_task taken.state 20 200)

run-awake_example : Woken same_task parked.woken 200 contended.state
unfolding runs taken state_of parked contended has_permits
run-awake_example =
    run-awake same_task 1 (polls 10 100 ∷ []) (polls 30 300 ∷ returns ∷ []) taken contended parked
      20 200 (omega arith) (tt, tt) refl refl (tt, (omega arith, tt)) (refl, (tt, tt)) refl refl
      refl

contended_order :
    ◌≡◌ {A = List FutureId × List FutureId}
      (contended.arrivals, contended.grants)
      (10 ∷ 20 ∷ 30 ∷ [], 10 ∷ [])
unfolding runs contended
contended_order = refl

-- The first waiter gives up, and the next one is called.
left : World
left = after contended (step same_task contended (abandons 20))

contended-left : step same_task contended (abandons 20) ≡ ok left
unfolding runs contended left
contended-left = refl

abbrev sleeper : Node
sleeper = record { waker = some 300; next = none; prev = some 20 }

step-waker_example : Heard 30 300 contended.state.woken left.state
unfolding runs contended
step-waker_example =
    step-waker same_task 1 contention contended left (abandons 20) 30 sleeper 300 (omega arith)
      contention_allowed contention-contended refl refl refl tt contended-left

left_woken : left.state.woken ≡ 300 ∷ 200 ∷ []
unfolding runs contended left
left_woken = refl

abbrev waiting_queue : Queue
waiting_queue = record {
  total = 1;
  outstanding = 0;
  waiters = (20, none) ∷ (30, some 300) ∷ [];
  woken = [];
}

waiting-IsValid : IsValid waiting_queue
waiting-IsValid = ground arith

poll_lem_example :
    Semaphore.poll same_task (concrete waiting_queue) 20 200
    ≡ (let r = Queue.poll same_task waiting_queue 20 200 in ok (concrete r.0, r.1))
poll_lem_example = poll_lem same_task waiting_queue 20 200 waiting-IsValid

drop_acquire_lem_example :
    drop_acquire (concrete waiting_queue) 20 ≡ ok (concrete (Queue.cancel waiting_queue 20))
drop_acquire_lem_example = drop_acquire_lem waiting_queue 20 waiting-IsValid
