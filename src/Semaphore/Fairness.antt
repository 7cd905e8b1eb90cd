-- ===== src/Semaphore/Fairness.antt =====
-- What holds after every history of the semaphore.
use mathlib.Core.List.{Sublist}
use mathlib.Core.List.Sublist
use conjure_rust_runtime.Prelude.{ℕ, ◌≤◌, ◌≡◌, refl, ap, List, [], ◌∷◌, ◌++◌, subst, sym}
use conjure_rust_runtime.Semaphore.{FutureId, ok, WillWake, usize_max, new}
use conjure_rust_runtime.Semaphore.Queue.{Queue}
use conjure_rust_runtime.Semaphore.Queue.Laws.{ids, remove-Sublist}
use conjure_rust_runtime.Semaphore.Repr.{concrete}
use conjure_rust_runtime.Semaphore.History.{
  Event, polls, abandons, returns, adds, removes, World, begin, run, after, AllAllowed,
}
use conjure_rust_runtime.Semaphore.Track.{Grows, Suits, Track, world, Inv, Steps}
use conjure_rust_runtime.Semaphore.Invariant.{step-Inv}

abbrev pub AllSuit : (List FutureId → List FutureId → Type 0) → List Event → Type 0
AllSuit R [] = Unit {0}
AllSuit R (e ∷ es) = Suits R e × AllSuit R es

module _ (R : List FutureId → List FutureId → Type 0) (grows : Grows R) (ww : WillWake) where
  run-Inv :
      (t : Track) (es : List Event)
      → AllSuit R es
      → AllAllowed ww (world t) es
      → Inv R t
      → Steps R (run ww (world t) es)
  unfolding run
  run-Inv t [] fit a v = record { track = t; done = refl; inv = v }
  run-Inv t (e ∷ es) fit a v =
      let s = step-Inv R grows ww t e fit.0 a.0 v in
      rw s.done (
        run-Inv s.track es fit.1 (subst (λ r. AllAllowed ww (after (world t) r) es) s.done a.1)
          s.inv)

abbrev start : ℕ → Track
start n = record {
  queue = record { total = n; outstanding = 0; waiters = []; woken = [] };
  live = 0;
  arrivals = [];
  grants = [];
}

start-Inv :
    (R : List FutureId → List FutureId → Type 0) (n : ℕ) → R [] [] → n ≤ usize_max → Inv R (start n)
start-Inv R n nil h = record {
  valid = record { distinct = tt; bounded = h };
  awake = λ _. refl;
  counted = refl;
  order = nil;
}

start-begin : (n : ℕ) → world (start n) ≡ begin n
unfolding new
start-begin n = refl

-- What holds at the end of any history from a new semaphore.
history-Inv :
    (R : List FutureId → List FutureId → Type 0) (ww : WillWake) (n : ℕ) (es : List Event)
    → Grows R
    → R [] []
    → AllSuit R es
    → n ≤ usize_max
    → AllAllowed ww (begin n) es
    → Steps R (run ww (begin n) es)
history-Inv R ww n es grows nil fit h a =
    subst (λ w. Steps R (run ww w es)) (start-begin n)
      (run-Inv R grows ww (start n) es fit (subst (λ w. AllAllowed ww w es) (sym (start-begin n)) a)
        (start-Inv R n nil h))

pub Sublist-Grows : Grows Sublist
Sublist-Grows xs ys id h = Sublist.append h (Sublist.refl (id ∷ []))

pub Sublist-Suit : (es : List Event) → AllSuit Sublist es
Sublist-Suit [] = tt
Sublist-Suit (polls id cx ∷ es) = (tt, Sublist-Suit es)
Sublist-Suit (abandons id ∷ es) = (
  λ g xs a i h. Sublist.trans (Sublist.append (Sublist.refl g) (remove-Sublist i xs)) h,
  Sublist-Suit es,
)
Sublist-Suit (returns ∷ es) = (tt, Sublist-Suit es)
Sublist-Suit (adds n ∷ es) = (tt, Sublist-Suit es)
Sublist-Suit (removes n ∷ es) = (tt, Sublist-Suit es)

pub history :
    (ww : WillWake) (n : ℕ) (es : List Event)
    → n ≤ usize_max
    → AllAllowed ww (begin n) es
    → Steps Sublist (run ww (begin n) es)
history ww n es = history-Inv Sublist ww n es Sublist-Grows (Sublist.refl []) (Sublist-Suit es)

-- No history faults: whatever futures and permits do, and in whatever order, no dangling pointer
-- is read, no debug assertion fails and no counter over- or underflows, as long as the callers
-- drop only permits that they hold and keep the total within a `usize`.
pub run-ok :
    (ww : WillWake) (n : ℕ) (es : List Event)
    → n ≤ usize_max
    → AllAllowed ww (begin n) es
    → (w : World) × (run ww (begin n) es ≡ ok w)
run-ok ww n es h a = let s = history ww n es h a in (world s.track, s.done)

-- Permits are granted in the order in which futures were first polled: after any history, the
-- futures served so far, followed by those in the linked list from its head on, are a sublist of
-- the futures in their order of arrival.
pub run-Sublist :
    (ww : WillWake) (n : ℕ) (es : List Event)
    → n ≤ usize_max
    → AllAllowed ww (begin n) es
    → (w : World) × (q : Queue) × (run ww (begin n) es ≡ ok w)
      × (w.state ≡ concrete q)
      × Sublist (w.grants ++ ids q.waiters) w.arrivals
run-Sublist ww n es h a =
    let s = history ww n es h a in (world s.track, s.track.queue, s.done, refl, s.inv.order)

abbrev pub KeepsAll : List Event → Type 0
KeepsAll [] = Unit {0}
KeepsAll (polls id cx ∷ es) = KeepsAll es
KeepsAll (abandons id ∷ es) = ⊥
KeepsAll (returns ∷ es) = KeepsAll es
KeepsAll (adds n ∷ es) = KeepsAll es
KeepsAll (removes n ∷ es) = KeepsAll es

equal-Suit : (es : List Event) → KeepsAll es → AllSuit ◌≡◌ es
equal-Suit [] k = tt
equal-Suit (polls id cx ∷ es) k = (tt, equal-Suit es k)
equal-Suit (abandons id ∷ es) k = absurd k
equal-Suit (returns ∷ es) k = (tt, equal-Suit es k)
equal-Suit (adds n ∷ es) k = (tt, equal-Suit es k)
equal-Suit (removes n ∷ es) k = (tt, equal-Suit es k)

-- Absolute fairness: while no future is dropped, the futures served so
-- far, followed by those in the linked list, are exactly the futures in their order of arrival.
pub run-fair :
    (ww : WillWake) (n : ℕ) (es : List Event)
    → n ≤ usize_max
    → KeepsAll es
    → AllAllowed ww (begin n) es
    → (w : World) × (q : Queue) × (run ww (begin n) es ≡ ok w)
      × (w.state ≡ concrete q)
      × (w.grants ++ ids q.waiters ≡ w.arrivals)
run-fair ww n es h k a =
    let s =
      history-Inv ◌≡◌ ww n es (λ xs ys id e. ap (λ l. l ++ id ∷ []) e) refl (equal-Suit es k) h a in
    (world s.track, s.track.queue, s.done, refl, s.inv.order)
