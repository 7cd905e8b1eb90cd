-- ===== src/Semaphore/Reached.antt =====
-- The worlds that histories lead to, and their next step.
use mathlib.Core.List.{Sublist}
use conjure_rust_runtime.Prelude.{ℕ, ◌-◌, ◌≤◌, ◌<◌, ◌≡◌, refl, ap, sym, ◌∙◌, subst, List}
use conjure_rust_runtime.Semaphore.{
  FutureId, State, Result, ok, err, WillWake, Poll, ready, pending, usize_max,
}
use conjure_rust_runtime.Semaphore.Queue
use conjure_rust_runtime.Semaphore.Queue.{Queue, Waiters, available, wake, cancel, release}
use conjure_rust_runtime.Semaphore.Repr.{concrete}
use conjure_rust_runtime.Semaphore.History.{
  Event, polls, abandons, returns, adds, removes, World, begin, step, run, answered, arrive, settle,
  Allowed, AllAllowed,
}
use conjure_rust_runtime.Semaphore.Track.{Track, world, Inv}
use conjure_rust_runtime.Semaphore.Refinement.{
  poll_lem, drop_acquire_lem, drop_permit_lem, add_permits_lem, remove_permits_lem,
}
use conjure_rust_runtime.Semaphore.Fairness.{history}

pub ok-injective : {v w : World} → ok w ≡ ok v → w ≡ v
ok-injective {w} e = ap value e
  where
    value : Result World → World
    value (ok v) = v
    value (err e) = w

-- The list behind a world that a history leads to.
pub record Reached (w : World) : Type 0 where
  pub track : Track
  pub same : w ≡ world track
  pub inv : Inv Sublist track

pub reached :
    (ww : WillWake) (n : ℕ) (es : List Event) (w : World)
    → n ≤ usize_max
    → AllAllowed ww (begin n) es
    → run ww (begin n) es ≡ ok w
    → Reached w
reached ww n es w h a r =
    let s = history ww n es h a in
    record { track = s.track; same = ok-injective (sym r ∙ s.done); inv = s.inv }

abbrev pub queue_step : WillWake → Queue → Event → Queue
queue_step ww q (polls id cx) = (Queue.poll ww q id cx).0
queue_step ww q (abandons id) = cancel q id
queue_step ww q returns = release q
queue_step ww q (adds n) = Queue.add_permits q n
queue_step ww q (removes n) = Queue.remove_permits q n

answered-state : (w : World) (id : FutureId) (r : State × Poll) → (answered w id r).state ≡ r.0
answered-state w id (s, ready) = refl
answered-state w id (s, pending) = refl

pub step-state :
    (ww : WillWake) (t : Track) (e : Event)
    → Inv Sublist t
    → Allowed (world t) e
    → (w : World) × (step ww (world t) e ≡ ok w) × (w.state ≡ concrete (queue_step ww t.queue e))
unfolding step
step-state ww t (polls id cx) v a = (
  answered (arrive (world t) id) id (let r = Queue.poll ww t.queue id cx in (concrete r.0, r.1)),
  rw (poll_lem ww t.queue id cx v.valid),
  answered-state (arrive (world t) id) id _,
)
step-state ww t (abandons id) v a = (
  settle (world t) (concrete (cancel t.queue id)),
  rw (drop_acquire_lem t.queue id v.valid),
  refl,
)
step-state ww t returns v a = (
  record (world t) { state = concrete (release t.queue); live = t.live - 1 },
  rw (drop_permit_lem t.queue (subst (λ n. 0 < n) (sym v.counted) a)),
  refl,
)
step-state ww t (adds n) v a = (
  settle (world t) (concrete (Queue.add_permits t.queue n)),
  rw (add_permits_lem t.queue n a),
  refl,
)
step-state ww t (removes n) v a = (
  settle (world t) (concrete (Queue.remove_permits t.queue n)),
  rw (remove_permits_lem t.queue n a),
  refl,
)
