-- ===== src/Semaphore/Wakeups.antt =====
-- No wakeup is lost.

use conjure_rust_runtime.Prelude.{
  ℕ, ◌+◌, ◌-◌, ◌≤◌, ◌≡◌, ap, sym, ◌∙◌, subst, true, false, Option, none, some, List, [], ◌∷◌,
  Bool-cases, ◌⊎◌, inl, inr, arith, ◌==◌,
}
use conjure_rust_runtime.Semaphore.{
  FutureId, Waker, Node, State, ok, WillWake, usize_max, has_permits,
}
use conjure_rust_runtime.Semaphore.Queue
use conjure_rust_runtime.Semaphore.Queue.{Queue, Waiters, remove, available, wake, cancel, release}
use conjure_rust_runtime.Semaphore.Queue.Laws.{front_waker}
use conjure_rust_runtime.Semaphore.Queue.Wakers.{waker_at, Kept, wake-Kept, poll-Kept, cancel-Kept}
use conjure_rust_runtime.Semaphore.Layout.{node, layout, first_or}
use conjure_rust_runtime.Semaphore.Repr.{concrete}
use conjure_rust_runtime.Semaphore.History.{
  Event, polls, abandons, returns, adds, removes, World, begin, step, run, Allowed, AllAllowed,
}
use conjure_rust_runtime.Semaphore.Reached.{ok-injective, reached, queue_step, step-state}

pub front-awake :
    (xs : Waiters) (id : FutureId)
    → front_waker xs ≡ none
    → first_or xs none ≡ some id
    → (n : Node) × (layout none xs none id ≡ some n) × (n.waker ≡ none)
front-awake [] id h e = cc
front-awake ((a, w) ∷ xs) id h e = (node w (first_or xs none) none, ground arith, h)

-- After any history, while a permit is available, the future at the head of the list has no waker
-- left to call.
head-awake :
    (ww : WillWake) (n : ℕ) (es : List Event) (w : World) (id : FutureId)
    → n ≤ usize_max
    → AllAllowed ww (begin n) es
    → run ww (begin n) es ≡ ok w
    → has_permits w.state ≡ true
    → w.state.head ≡ some id
    → (m : Node) × (w.state.nodes id ≡ some m) × (m.waker ≡ none)
unfolding has_permits
head-awake ww n es w id h a r =
    let v = reached ww n es w h a r in
    subst
      (λ w.
        has_permits w.state ≡ true
        → w.state.head ≡ some id
        → (m : Node) × (w.state.nodes id ≡ some m) × (m.waker ≡ none))
      (sym v.same) λ free e. front-awake v.track.queue.waiters id (v.inv.awake free) e

-- After any history the outstanding permits are the `Permit`s alive.
run-outstanding :
    (ww : WillWake) (n : ℕ) (es : List Event) (w : World)
    → n ≤ usize_max
    → AllAllowed ww (begin n) es
    → run ww (begin n) es ≡ ok w
    → w.state.outstanding_permits ≡ w.live
run-outstanding ww n es w h a r =
    let v = reached ww n es w h a r in
    subst (λ w. w.state.outstanding_permits ≡ w.live) (sym v.same) v.inv.counted

-- The events that concern another future than `id`.
abbrev pub Elsewhere : FutureId → Event → Type 0
Elsewhere id (polls j cx) = (id == j) ≡ false
Elsewhere id (abandons j) = (id == j) ≡ false
Elsewhere id returns = Unit {0}
Elsewhere id (adds n) = Unit {0}
Elsewhere id (removes n) = Unit {0}

pub waker_at-layout :
    (p e : Option FutureId) (xs : Waiters) (id : FutureId) (m : Node)
    → layout p xs e id ≡ some m
    → waker_at id xs ≡ some m.waker
waker_at-layout p e [] id m h = cc
waker_at-layout p e ((a, w) ∷ xs) id m h = ground (arith, waker_at-layout (some a) e xs id m)

pub layout-waker_at :
    (p e : Option FutureId) (xs : Waiters) (id : FutureId) (x : Option Waker)
    → waker_at id xs ≡ some x
    → (m : Node) × (layout p xs e id ≡ some m) × (m.waker ≡ x)
layout-waker_at p e [] id x h = cc
layout-waker_at p e ((a, w) ∷ xs) id x h = elim (Bool-cases (id == a)) [
  | inl hit ↦ (node w (first_or xs e) p, rw hit, ground arith)
  | inr miss ↦ rw miss (layout-waker_at (some a) e xs id x (rw miss at h))
]

pub queue_step-Kept :
    (ww : WillWake) (q : Queue) (e : Event) (id : FutureId) (x : Waker)
    → Elsewhere id e
    → waker_at id q.waiters ≡ some (some x)
    → Kept id x q.woken (queue_step ww q e)
unfolding release Queue.add_permits Queue.remove_permits
queue_step-Kept ww q (polls j cx) id x d h = poll-Kept ww id j cx x q d h
queue_step-Kept ww q (abandons j) id x d h = cancel-Kept id j x q d h
queue_step-Kept ww q returns id x d h =
    wake-Kept id x (record q { outstanding = q.outstanding - 1 }) h
queue_step-Kept ww q (adds n) id x d h = wake-Kept id x (record q { total = q.total + n }) h
queue_step-Kept ww q (removes n) id x d h = inl h

-- The waker `x` in the node of `id` is there still, or it has just been called.
abbrev pub Heard : FutureId → Waker → List Waker → State → Type 0
Heard id x woken s =
    (m : Node) × (s.nodes id ≡ some m)
    × ((m.waker ≡ some x) ⊎ ((m.waker ≡ none) × (s.woken ≡ x ∷ woken)))

Kept-Heard :
    (id : FutureId) (x : Waker) (woken : List Waker) (q : Queue)
    → Kept id x woken q
    → Heard id x woken (concrete q)
Kept-Heard id x woken q (inl e) =
    let (m, here, same) = layout-waker_at none none q.waiters id (some x) e in (m, here, inl same)
Kept-Heard id x woken q (inr (e, called)) =
    let (m, here, gone) = layout-waker_at none none q.waiters id none e in
    (m, here, inr (gone, called))

-- A waker that a future has left in its node is never lost: whatever any other future or permit
-- does next, the waker is still there, or it has just been called.
pub step-waker :
    (ww : WillWake) (n : ℕ) (es : List Event) (w w' : World) (e : Event) (id : FutureId) (m : Node)
    (x : Waker)
    → n ≤ usize_max
    → AllAllowed ww (begin n) es
    → run ww (begin n) es ≡ ok w
    → w.state.nodes id ≡ some m
    → m.waker ≡ some x
    → Elsewhere id e
    → Allowed w e
    → step ww w e ≡ ok w'
    → Heard id x w.state.woken w'.state
step-waker ww n es w w' e id m x h a r here left other =
    let v = reached ww n es w h a r in
    let goal = λ (w : World).
      w.state.nodes id ≡ some m
      → Allowed w e
      → step ww w e ≡ ok w'
      → Heard id x w.state.woken w'.state in
    subst goal (sym v.same)
      (λ here allowed done.
        let (u, did, state) = step-state ww v.track e v.inv allowed in
        let shown = waker_at-layout none none v.track.queue.waiters id m here ∙ ap some left in
        subst (Heard id x v.track.queue.woken)
          (sym state ∙ ap (λ (w : World). w.state) (ok-injective (sym did ∙ done)))
          (Kept-Heard id x _ (queue_step ww v.track.queue e)
            (queue_step-Kept ww v.track.queue e id x other shown)))
      here
