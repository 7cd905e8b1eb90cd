-- ===== src/Semaphore/History.antt =====
-- Histories of the semaphore: what futures and permits do to it, one locked call after another.
use conjure_rust_runtime.Prelude.{
  ℕ, ◌+◌, ◌-◌, ◌≤◌, ◌<◌, List, [], ◌∷◌, ◌++◌, is_some, if◌then◌else◌,
}
use conjure_rust_runtime.Semaphore
use conjure_rust_runtime.Semaphore.{
  FutureId, Waker, State, Result, ok, err, ◌>>=◌, WillWake, Poll, ready, pending, usize_max, new,
  drop_acquire, drop_permit,
}

pub data Event : Type 0 where
  polls : FutureId → Waker → Event
  abandons : FutureId → Event
  returns : Event
  adds : ℕ → Event
  removes : ℕ → Event

-- The semaphore, the number of `Permit`s alive, and two logs: futures in the order of their first
-- poll, and futures in the order in which they got their permits.
pub record World : Type 0 where
  pub state : State
  pub live : ℕ
  pub arrivals : List FutureId
  pub grants : List FutureId

abbrev pub begin : ℕ → World
begin permits = record { state = new permits; live = 0; arrivals = []; grants = [] }

abbrev pub answered : World → FutureId → State × Poll → World
answered w id (s, ready) = record w { state = s; live = w.live + 1; grants = w.grants ++ id ∷ [] }
answered w id (s, pending) = record w { state = s }

-- A future arrives with its first poll: it has no node before.
abbrev pub arrive : World → FutureId → World
arrive w id = record w {
  arrivals = if is_some (w.state.nodes id) then w.arrivals else w.arrivals ++ id ∷ [];
}

abbrev pub settle : World → State → World
settle w s = record w { state = s }

unfoldable pub step : WillWake → World → Event → Result World
step ww w (polls id cx) = do r ← Semaphore.poll ww w.state id cx; ok (answered (arrive w id) id r)
step ww w (abandons id) = do s ← drop_acquire w.state id; ok (settle w s)
step ww w returns = do s ← drop_permit w.state; ok (record w { state = s; live = w.live - 1 })
step ww w (adds n) = do s ← Semaphore.add_permits w.state n; ok (settle w s)
step ww w (removes n) = do s ← Semaphore.remove_permits w.state n; ok (settle w s)

unfoldable pub run : WillWake → World → List Event → Result World
run ww w [] = ok w
run ww w (e ∷ es) = do w ← step ww w e; run ww w es

-- What callers keep to: a permit that is dropped exists, and the total stays a `usize`.
abbrev pub Allowed : World → Event → Type 0
Allowed w (polls id cx) = Unit {0}
Allowed w (abandons id) = Unit {0}
Allowed w returns = 0 < w.live
Allowed w (adds n) = w.state.total_permits + n ≤ usize_max
Allowed w (removes n) = n ≤ w.state.total_permits

abbrev pub after : World → Result World → World
after w (ok w') = w'
after w (err e) = w

abbrev pub AllAllowed : WillWake → World → List Event → Type 0
AllAllowed ww w [] = Unit {0}
AllAllowed ww w (e ∷ es) = Allowed w e × AllAllowed ww (after w (step ww w e)) es
