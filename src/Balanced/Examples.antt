-- ===== src/Balanced/Examples.antt =====
-- Tests of the balanced selection, and its theorems at concrete nodes.
use conjure_rust_runtime.Prelude.{
  ℕ, ◌+◌, ◌/◌, ◌^◌, ◌≡◌, refl, Bool, true, some, List, [], ◌∷◌, map, leb, arith,
}
use conjure_rust_runtime.Errors.{ok}
use conjure_rust_runtime.Balanced.{
  Float, Reservoir, TrackedNode, Snapshot, new_reservoir, update, settle, decay_if_necessary,
  candidates, poll, snapshots, keep, score, poll_each, node_of, usize_max, begin_call, on_result,
  drop_guard,
}
use conjure_rust_runtime.Balanced.Kept.{Splits, candidates-Splits}
use conjure_rust_runtime.Balanced.Polled.{Best, score_of, poll-Best}
use conjure_rust_runtime.Balanced.Call.{after_acquire, after_response, drop_call}
use conjure_rust_runtime.Balanced.InFlight.{
  Event, makes, acquires, responds, drops, World, in_flight_of, step, run, run-active,
}

-- Natural numbers in place of `f64`: the factor halves, and a failure weighs 10.
abbrev halving : Float ℕ
halving = record {
  nil = 0;
  add = λ a b. a + b;
  mul = λ a b. a / b;
  powi = λ a n. a ^ n;
  round = λ a. a;
  decay_factor = 2;
  failure_weight = 10;
  client_error_weight = 0;
}

abbrev calm : Reservoir ℕ
calm = record { value = 0; last_decay_nanos = 0; decay_interval_nanos = 3_000_000_000 }

abbrev node : ℕ → ℕ → TrackedNode ℕ
node idx in_flight = record { idx = idx; in_flight = in_flight; recent_failures = calm }

-- One node with six requests in flight, one with thirteen.
abbrev busy : List (TrackedNode ℕ)
busy = node 1 13 ∷ node 0 6 ∷ []

candidates_test : candidates halving busy ≡ node 0 6 ∷ []
unfolding candidates snapshots keep score
candidates_test = refl

new_reservoir_test : new_reservoir halving 30_000_000_000 ≡ calm
unfolding new_reservoir
new_reservoir_test = refl

-- A failure, six seconds later.
update_test : (settle halving 6_000_000_000 (update halving 0 40 calm)).value ≡ 10
unfolding settle update decay_if_necessary
update_test = refl

-- A thread has read the clock, and another one has decayed the reservoir since: the elapsed time wraps around, and
-- the failures are forgotten.
overtaken_test :
    (decay_if_necessary halving 2_900_000_000 3_000_000_000 (record {
      value = 1_000_000;
      last_decay_nanos = 3_000_000_000;
      decay_interval_nanos = 2 ^ 60;
    })).value
    ≡ 1_000_000 / 2 ^ 15
unfolding decay_if_necessary
overtaken_test = refl

candidates-Splits_example :
    (first : Snapshot (TrackedNode ℕ)) × (kept : List (Snapshot (TrackedNode ℕ))) × (candidates
        halving busy
      ≡ map (node_of halving) (first ∷ kept))
    × Splits usize_max (snapshots halving busy) (first ∷ kept)
candidates-Splits_example = candidates-Splits halving (node 1 13) (node 0 6 ∷ [])

abbrev any_node : TrackedNode ℕ → Bool
any_node n = true

poll_test : poll halving any_node busy ≡ some (node 0 6)
unfolding poll snapshots poll_each score
poll_test = refl

poll-Best_example : Best any_node (score_of halving) (poll halving any_node busy) busy
poll-Best_example = poll-Best halving any_node busy

abbrev server_error : ℕ → Bool
server_error status = leb 500 status

abbrev client_error : ℕ → Bool
client_error status = leb 400 status

-- Two calls get the node; the first is answered, and the second is dropped while it waits; a third is in flight.
abbrev some_events : List Event
some_events =
    makes
    ∷ makes
    ∷ acquires 0
    ∷ acquires 1
    ∷ responds 0 5 (ok 503)
    ∷ makes
    ∷ drops 1
    ∷ acquires 2
    ∷ []

abbrev end_of_events : World ℕ
end_of_events =
    run halving server_error client_error (record { node = node 0 0; calls = [] }) some_events

in_flight_calls : Unit {0}
unfolding run step after_acquire after_response drop_call begin_call on_result drop_guard
in_flight_calls = tt

in_flight_test : end_of_events.node.in_flight ≡ 1
unfolding in_flight_calls
in_flight_test = refl

run-active_example : end_of_events.node.in_flight ≡ in_flight_of end_of_events.calls
unfolding step after_acquire after_response drop_call
run-active_example = run-active halving server_error client_error (node 0 0) some_events refl (
  omega arith,
  (
    omega arith,
    (omega arith, (omega arith, (omega arith, (omega arith, (omega arith, (omega arith, tt)))))),
  ),
)
