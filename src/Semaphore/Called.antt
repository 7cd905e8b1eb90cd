-- ===== src/Semaphore/Called.antt =====
-- A future that is at the head of the list while a permit is available has been woken since it was polled.
use mathlib.Core.List.{Memᴰ, Sublist}
use conjure_rust_runtime.Prelude.{
  ℕ, ◌+◌, ◌-◌, ◌≤◌, ◌≡◌, refl, ap, sym, ◌∙◌, subst, true, Option, none, some, List, [], ◌∷◌, ◌++◌,
  All, ◌⊎◌, inl, inr,
}
use conjure_rust_runtime.Semaphore
use conjure_rust_runtime.Semaphore.{
  FutureId, Waker, Node, State, Result, ok, ◌>>=◌, WillWake, Poll, pending, usize_max, has_permits,
}
use conjure_rust_runtime.Semaphore.Queue
use conjure_rust_runtime.Semaphore.Queue.{Queue, join, release}
use conjure_rust_runtime.Semaphore.Queue.Calls.{
  Calls, wake-Calls, poll-Calls, cancel-Calls, Wakes, poll-Left, Due, step-Due,
}
use conjure_rust_runtime.Semaphore.Repr.{concrete}
use conjure_rust_runtime.Semaphore.Refinement.{poll_lem, has-join}
use conjure_rust_runtime.Semaphore.History.{
  Event, polls, abandons, returns, adds, removes, World, begin, step, run, after, answered, arrive,
  AllAllowed,
}
use conjure_rust_runtime.Semaphore.Track.{Track, world, Inv}
use conjure_rust_runtime.Semaphore.Invariant.{step-Inv}
use conjure_rust_runtime.Semaphore.Fairness.{Sublist-Grows, Sublist-Suit}
use conjure_rust_runtime.Semaphore.Reached.{Reached, ok-injective, reached, queue_step, step-state}
use conjure_rust_runtime.Semaphore.Wakeups.{
  Elsewhere, front-awake, queue_step-Kept, waker_at-layout, layout-waker_at,
}

queue_step-Calls : (ww : WillWake) (q : Queue) (e : Event) → Calls q.woken (queue_step ww q e)
unfolding release Queue.add_permits Queue.remove_permits
queue_step-Calls ww q (polls j cx) = poll-Calls ww q j cx
queue_step-Calls ww q (abandons j) = cancel-Calls q j
queue_step-Calls ww q returns = wake-Calls (record q { outstanding = q.outstanding - 1 })
queue_step-Calls ww q (adds n) = wake-Calls (record q { total = q.total + n })
queue_step-Calls ww q (removes n) = ([], refl)

-- The waker `x` of `id` has been called since the log was `base`, or it is in its node.
abbrev Pending : List Waker → FutureId → Waker → State → Type 0
Pending base id x s =
    (calls : List Waker) × (s.woken ≡ calls ++ base)
    × (((m : Node) × (s.nodes id ≡ some m) × (m.waker ≡ some x)) ⊎ Memᴰ x calls)

Due-Pending :
    (base : List Waker) (id : FutureId) (x : Waker) (q : Queue)
    → Due base id x q
    → Pending base id x (concrete q)
Due-Pending base id x q (calls, e, inr m) = (calls, e, inr m)
Due-Pending base id x q (calls, e, inl h) =
    (calls, e, inl (layout-waker_at none none q.waiters id (some x) h))

Pending-Due :
    (base : List Waker) (id : FutureId) (x : Waker) (q : Queue)
    → Pending base id x (concrete q)
    → Due base id x q
Pending-Due base id x q (calls, e, inr m) = (calls, e, inr m)
Pending-Due base id x q (calls, e, inl (m, here, same)) =
    (calls, e, inl (waker_at-layout none none q.waiters id m here ∙ ap some same))

module _ (ww : WillWake) where
  -- A track that a step leads to, and the state of its world.
  record Next (t : Track) (e : Event) : Type 0 where
    track : Track
    done : step ww (world t) e ≡ ok (world track)
    inv : Inv Sublist track
    state : concrete (queue_step ww t.queue e) ≡ (world track).state

  next :
      (t : Track) (e : Event) (es : List Event)
      → Inv Sublist t
      → AllAllowed ww (world t) (e ∷ es)
      → Next t e
  next t e es v a =
      let s = step-Inv Sublist Sublist-Grows ww t e (Sublist-Suit (e ∷ [])).0 a.0 v in
      let (u, did, state) = step-state ww t e v a.0 in
      record {
        track = s.track;
        done = s.done;
        inv = s.inv;
        state = sym state ∙ ap (λ (w : World). w.state) (ok-injective (sym did ∙ s.done));
      }

  run-Pending :
      (base : List Waker) (id : FutureId) (x : Waker) (t : Track) (es : List Event) (w : World)
      → Inv Sublist t
      → AllAllowed ww (world t) es
      → All (Elsewhere id) es
      → run ww (world t) es ≡ ok w
      → Pending base id x (world t).state
      → Reached w × Pending base id x w.state
  unfolding run
  run-Pending base id x t [] w v a other r h = (
    record { track = t; same = sym (ok-injective r); inv = v },
    subst (λ (w : World). Pending base id x w.state) (ok-injective r) h,
  )
  run-Pending base id x t (e ∷ es) w v a other r h =
      let s = next t e es v a in
      run-Pending base id x s.track es w s.inv
        (subst (λ r. AllAllowed ww (after (world t) r) es) s.done a.1) other.1
        (sym (ap (λ r. r >>= λ w. run ww w es) s.done) ∙ r)
        (subst (Pending base id x) s.state (
          Due-Pending base id x (queue_step ww t.queue e) (
            step-Due base id x t.queue (queue_step ww t.queue e)
              (queue_step-Kept ww t.queue e id x other.0) (queue_step-Calls ww t.queue e)
              (Pending-Due base id x t.queue h))))

  -- The future `id` has left a waker for the task of `cx`, and that waker has been called since the log was `base`.
  abbrev pub Woken : List Waker → Waker → State → Type 0
  Woken base cx s =
      (x : Waker) × (calls : List Waker) × Wakes ww cx x × (s.woken ≡ calls ++ base) × Memᴰ x calls

  woken :
      (base : List Waker) (id : FutureId) (cx x : Waker) (w : World)
      → Wakes ww cx x
      → Reached w
      → Pending base id x w.state
      → has_permits w.state ≡ true
      → w.state.head ≡ some id
      → Woken base cx w.state
  unfolding has_permits
  woken base id cx x w wakes v (calls, e, inr m) free first = (x, calls, wakes, e, m)
  woken base id cx x w wakes v (calls, e, inl (m, here, there)) free first = absurd (
      subst
        (λ (w : World).
          has_permits w.state ≡ true → w.state.head ≡ some id → w.state.nodes id ≡ some m → ⊥)
        (sym v.same) empty free first here)
    where
      empty :
          has_permits (concrete v.track.queue) ≡ true
          → (concrete v.track.queue).head ≡ some id
          → (concrete v.track.queue).nodes id ≡ some m
          → ⊥
      empty free first here =
          clash here there (front-awake v.track.queue.waiters id (v.inv.awake free) first)
        where
          clash :
              {o : Option Node}
              → o ≡ some m
              → m.waker ≡ some x
              → (n : Node) × (o ≡ some n) × (n.waker ≡ none)
              → ⊥
          clash f g (n, h, k) = cc

  polled :
      (w : World) (id : FutureId) (cx : Waker) (s : State)
      → Reached w
      → Semaphore.poll ww w.state id cx ≡ ok (s, pending)
      → (t : Track) × (x : Waker) × Inv Sublist t
        × (answered (arrive w id) id (s, pending) ≡ world t)
        × Wakes ww cx x
        × Pending s.woken id x s
  unfolding step
  polled w id cx s v h =
      subst
        (λ (w : World).
          Semaphore.poll ww w.state id cx ≡ ok (s, pending)
          → (t : Track) × (x : Waker) × Inv Sublist t
            × (answered (arrive w id) id (s, pending) ≡ world t)
            × Wakes ww cx x
            × Pending s.woken id x s)
        (sym v.same) go h
    where
      q : Queue
      q = v.track.queue

      both : {a b : State × Poll} → Result.ok a ≡ ok b → (a.0 ≡ b.0) × (a.1 ≡ b.1)
      both e = (cc, cc)

      go :
          Semaphore.poll ww (concrete q) id cx ≡ ok (s, pending)
          → (t : Track) × (x : Waker) × Inv Sublist t
            × (answered (arrive (world v.track) id) id (s, pending) ≡ world t)
            × Wakes ww cx x
            × Pending s.woken id x s
      go h =
          let n = step-Inv Sublist Sublist-Grows ww v.track (polls id cx) tt tt v.inv in
          let (state, answer) = both (sym (poll_lem ww q id cx v.inv.valid) ∙ h) in
          let ((x, wakes, there), same) = poll-Left ww q id cx (has-join id q.waiters) answer in
          (
            n.track,
            x,
            n.inv,
            ok-injective (
                sym (ap (λ r. r >>= λ r. ok (answered (arrive (world v.track) id) id r)) h)
                ∙ n.done),
            wakes,
            subst (λ s. Pending s.woken id x s) state
                (Due-Pending (Queue.poll ww q id cx).0.woken id x (Queue.poll ww q id cx).0
                  ([], refl, inl there)),
          )

  -- No wakeup is lost. After any history a future is polled, and is not served; then come any events of the others, in
  -- which it is not polled again and not dropped. If a permit is available at the end and the future is at the head of
  -- the list, then the waker that it left at the poll, which is the one given or one that wakes the same task, has been
  -- called since.
  pub run-awake :
      (n : ℕ) (es later : List Event) (w w' : World) (s : State) (id : FutureId) (cx : Waker)
      → n ≤ usize_max
      → AllAllowed ww (begin n) es
      → run ww (begin n) es ≡ ok w
      → Semaphore.poll ww w.state id cx ≡ ok (s, pending)
      → AllAllowed ww (answered (arrive w id) id (s, pending)) later
      → All (Elsewhere id) later
      → run ww (answered (arrive w id) id (s, pending)) later ≡ ok w'
      → has_permits w'.state ≡ true
      → w'.state.head ≡ some id
      → Woken s.woken cx w'.state
  run-awake n es later w w' s id cx h a r p a' other r' free first =
      let (t, x, inv, same, wakes, there) = polled w id cx s (reached ww n es w h a r) p in
      let (v, end) =
        run-Pending s.woken id x t later w' inv (subst (λ w. AllAllowed ww w later) same a') other
          (subst (λ w. run ww w later ≡ ok w') same r')
          (subst (λ (w : World). Pending s.woken id x w.state) same there) in
      woken s.woken id cx x w' wakes v end free first
