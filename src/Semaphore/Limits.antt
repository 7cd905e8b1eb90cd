-- ===== src/Semaphore/Limits.antt =====
-- Permits stay within the total, but for those that were out when it fell.

use conjure_rust_runtime.Prelude.{
  ℕ, ◌+◌, ◌-◌, ◌≤◌, ◌≡◌, ap, sym, ◌∙◌, subst, List, max, inl, inr, arith,
}
use conjure_rust_runtime.Semaphore.{State, ok, WillWake, usize_max}
use conjure_rust_runtime.Semaphore.Queue
use conjure_rust_runtime.Semaphore.Queue.{Queue, Waiters, remove, available, wake, cancel, release}
use conjure_rust_runtime.Semaphore.Queue.Laws.{Awake, wake-SameQueue}
use conjure_rust_runtime.Semaphore.Queue.Polls.{poll_cases}
use conjure_rust_runtime.Semaphore.History.{
  Event, polls, abandons, returns, adds, removes, World, begin, step, run, Allowed, AllAllowed,
}
use conjure_rust_runtime.Semaphore.Reached.{ok-injective, reached, queue_step, step-state}

queue_step-within :
    (ww : WillWake) (q : Queue) (e : Event)
    → Awake q
    → (queue_step ww q e).outstanding ≤ max q.outstanding (queue_step ww q e).total
unfolding release Queue.add_permits Queue.remove_permits cancel
queue_step-within ww q (polls j cx) a = elim (poll_cases ww q j cx a) [
  | inl s ↦ omega (arith, s.total, s.outstanding, s.free)
  | inr p ↦ omega (arith, p.outstanding)
]
queue_step-within ww q (abandons j) a = ground (
  arith,
  (wake-SameQueue (record q { waiters = remove j q.waiters })).outstanding,
  (wake-SameQueue (record q { waiters = remove j q.waiters })).total,
)
queue_step-within ww q returns a =
    let s = wake-SameQueue (record q { outstanding = q.outstanding - 1 }) in
    omega (arith, s.outstanding, s.total)
queue_step-within ww q (adds n) a =
    let s = wake-SameQueue (record q { total = q.total + n }) in
    omega (arith, s.outstanding, s.total)
queue_step-within ww q (removes n) a = omega arith

-- No call grants beyond the total: if more permits are out after a call than there are in total,
-- as many were out before it.
step-within :
    (ww : WillWake) (n : ℕ) (es : List Event) (w w' : World) (e : Event)
    → n ≤ usize_max
    → AllAllowed ww (begin n) es
    → run ww (begin n) es ≡ ok w
    → Allowed w e
    → step ww w e ≡ ok w'
    → w'.state.outstanding_permits ≤ max w.state.outstanding_permits w'.state.total_permits
step-within ww n es w w' e h a r =
    let v = reached ww n es w h a r in
    subst
      (λ (w : World).
        Allowed w e
        → step ww w e ≡ ok w'
        → w'.state.outstanding_permits ≤ max w.state.outstanding_permits w'.state.total_permits)
      (sym v.same)
      λ allowed done.
        let (u, did, state) = step-state ww v.track e v.inv allowed in
        subst (λ (s : State). s.outstanding_permits ≤ max v.track.queue.outstanding s.total_permits)
          (sym state ∙ ap (λ (w : World). w.state) (ok-injective (sym did ∙ done)))
          (queue_step-within ww v.track.queue e v.inv.awake)
