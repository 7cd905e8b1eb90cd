-- ===== src/Limiter/Examples.antt =====
-- Tests of the limiter, and its theorems at concrete limits.
use conjure_rust_runtime.Prelude.{
  ℕ, zero, suc, ◌++◌, ◌+◌, ◌*◌, ◌/◌, ◌≡◌, refl, Bool, ◌&&◌, none, some, List, [], ◌∷◌, min, max,
  ◌==◌, ==_iff, ==_refl, arith, leb,
}
use conjure_rust_runtime.Limiter.{
  Float, World, Event, acquires, drops, moves, success, dropped, adjust, new, new_limit, change,
  exchange, advance, move, reading, begin_drop, step, run, on_response, host_on_success,
  endpoint_on_success,
}
use conjure_rust_runtime.Limiter.Rules.{Rules}
use conjure_rust_runtime.Limiter.Totals.{Balanced, run-Balanced}
use conjure_rust_runtime.Limiter.Alone.{Settled, run-alone}

-- Numbers with two decimals.
abbrev cents : Float ℕ
cents = record {
  of_nat = λ n. n * 100;
  to_usize = λ x. x / 100;
  add = λ x y. x + y;
  mul = λ x y. x * y / 100;
  div = λ x y. x * 100 / y;
  fmin = min;
  fmax = max;
  floor = λ x. x / 100 * 100;
  backoff_ratio = 90;
  same_bits = ◌==◌;
}

cents-Rules : Rules cents
cents-Rules = record {
  to_usize-of_nat = λ n h. omega arith;
  fmin-below = λ n x h. omega arith;
  fmin-above = λ n x h. omega arith;
  fmax-above = λ n x h. omega arith;
  fmax-below = λ n x h. omega arith;
  add-div = λ x h. omega arith;
  floor-mul = λ x. omega arith;
  same_bits-eq = λ x y h. (==_iff x y).0 h;
  same_bits-refl = ==_refl;
}

abbrev runs : Unit {0}
unfolding run step move advance exchange change new_limit begin_drop adjust new on_response
    host_on_success endpoint_on_success
runs = tt

-- The second of two threads finds another limit than it has read, and tries again.
abbrev contended : List Event
contended =
    acquires
    ∷ acquires
    ∷ drops dropped 1
    ∷ drops dropped 2
    ∷ moves 0
    ∷ moves 1
    ∷ moves 0
    ∷ moves 1
    ∷ []

abbrev contended_world : World ℕ
contended_world = record {
  limiter = record { limit = 1800; in_flight = 0 };
  total = 18;
  updates = reading dropped 1 1800 ∷ [];
}

-- Decreases, one after the other.
abbrev failures : ℕ → List Event
failures zero = []
failures (suc n) = drops dropped 1 ∷ moves 0 ∷ moves 0 ∷ failures n

contended_runs : run cents (new cents) contended ≡ some contended_world
unfolding runs
contended_runs = refl

run-Balanced_example :
    Balanced cents cents-Rules contended_world.limiter contended_world.total contended_world.updates
run-Balanced_example = run-Balanced cents cents-Rules contended contended_world contended_runs

-- Two increases are not yet passed to the semaphore when two decreases are.
abbrev overtaken : List Event
overtaken =
    drops success 9
    ∷ moves 0
    ∷ drops success 9
    ∷ moves 0
    ∷ moves 0
    ∷ drops success 9
    ∷ moves 0
    ∷ moves 0
    ∷ drops success 9
    ∷ moves 0
    ∷ drops dropped 1
    ∷ moves 0
    ∷ drops dropped 1
    ∷ moves 0
    ∷ moves 0
    ∷ []

-- The last decrease takes a permit from a total of zero, and panics.
overtaken_panics : run cents (new cents) (failures 14 ++ overtaken ++ moves 0 ∷ []) ≡ none
unfolding runs
overtaken_panics = refl

-- Without it, the run goes on.
overtaken_runs :
    (w : World ℕ) × (run cents (new cents) (failures 14 ++ overtaken) ≡ some w) × (w.total ≡ 0)
unfolding runs
overtaken_runs = (_, refl, refl)

new-Settled : Settled cents cents-Rules (new cents)
unfolding runs
new-Settled = (refl, refl, (omega arith, omega arith))

run-alone_example :
    (v : World ℕ) × (run cents (new cents) (drops dropped 1 ∷ moves 0 ∷ moves 0 ∷ []) ≡ some v)
    × Settled cents cents-Rules v
run-alone_example = run-alone cents cents-Rules (new cents) dropped 1 new-Settled

abbrev server_error : ℕ → Bool
server_error status = leb 500 status && leb status 599
