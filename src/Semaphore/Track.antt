-- ===== src/Semaphore/Track.antt =====
-- Histories with the abstract queue in the place of the linked list, and their invariant.

use conjure_rust_runtime.Prelude.{ℕ, ◌≡◌, List, [], ◌∷◌, ◌++◌}
use conjure_rust_runtime.Semaphore.{FutureId, Result, ok}
use conjure_rust_runtime.Semaphore.Queue.{Queue, Waiters, remove}
use conjure_rust_runtime.Semaphore.Queue.Laws.{ids, Awake}
use conjure_rust_runtime.Semaphore.Repr.{concrete}
use conjure_rust_runtime.Semaphore.Refinement.{IsValid}
use conjure_rust_runtime.Semaphore.History.{Event, polls, abandons, returns, adds, removes, World}

-- A relation on logs that survives an entry at the end of both.
abbrev pub Grows : (List FutureId → List FutureId → Type 0) → Type 0
Grows R = (xs ys : List FutureId) (id : FutureId) → R xs ys → R (xs ++ id ∷ []) (ys ++ id ∷ [])

-- A relation on logs that survives the departure of a waiter.
abbrev pub Drops : (List FutureId → List FutureId → Type 0) → Type 0
Drops R =
    (g : List FutureId) (xs : Waiters) (a : List FutureId) (id : FutureId)
    → R (g ++ ids xs) a
    → R (g ++ ids (remove id xs)) a

abbrev pub Suits : (List FutureId → List FutureId → Type 0) → Event → Type 0
Suits R (abandons id) = Drops R
Suits R (polls id cx) = Unit {0}
Suits R returns = Unit {0}
Suits R (adds n) = Unit {0}
Suits R (removes n) = Unit {0}

-- The world with the abstract queue in the place of the linked list.
pub record Track : Type 0 where
  pub queue : Queue
  pub live : ℕ
  pub arrivals : List FutureId
  pub grants : List FutureId

abbrev pub world : Track → World
world t = record {
  state = concrete t.queue;
  live = t.live;
  arrivals = t.arrivals;
  grants = t.grants;
}

pub record Inv (R : List FutureId → List FutureId → Type 0) (t : Track) : Type 0 where
  pub valid : IsValid t.queue
  pub awake : Awake t.queue
  pub counted : t.queue.outstanding ≡ t.live
  pub order : R (t.grants ++ ids t.queue.waiters) t.arrivals

-- A step that succeeds, to a track where the invariant holds.
pub record Steps (R : List FutureId → List FutureId → Type 0) (r : Result World) : Type 0 where
  pub track : Track
  pub done : r ≡ ok (world track)
  pub inv : Inv R track
