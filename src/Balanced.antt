-- ===== src/Balanced.antt =====
-- conjure-runtime/src/service/node/selector/balanced/mod.rs and reservoir.rs: the node with the best score serves a
-- request.
--
-- `f64` is a parameter, as is the shuffle. A read of the clock, and each access to an atomic, is a step: what
-- `decay_if_necessary` does after its two reads is given what they gave.
use conjure_rust_runtime.Prelude.{
  ℕ, zero, suc, ◌+◌, ◌-◌, ◌*◌, ◌/◌, ◌%◌, ◌^◌, min, Bool, true, false, Option, none, some, List, [],
  ◌∷◌, map, ltb, leb, ◌==◌, if◌then◌else◌,
}
use conjure_rust_runtime.Errors.{Result, ok, err}
pub mod Sorted
pub mod Kept
pub mod Polled
pub mod Call
pub mod InFlight
pub mod Decays
mod Examples

-- The operations of `f64`; `round` is followed by the cast to `usize`, which saturates, and `powi` takes the 32 bits of its
-- exponent, an `i32` in two's complement.
pub record Float (F : Type 0) : Type 0 where
  pub nil : F
  pub add : F → F → F
  pub mul : F → F → F
  pub powi : F → ℕ → F
  pub round : F → ℕ
  -- `decay_factor()`, `FAILURE_WEIGHT` and a hundredth of it.
  pub decay_factor : F
  pub failure_weight : F
  pub client_error_weight : F

abbrev pub usize_max : ℕ
usize_max = 2 ^ 64 - 1

abbrev pub inflight_comparison_threshold : ℕ
inflight_comparison_threshold = 5

abbrev pub unhealthy_score_multiplier : ℕ
unhealthy_score_multiplier = 2

-- In nanoseconds.
abbrev pub failure_memory : ℕ
failure_memory = 30 * 1_000_000_000

abbrev pub decays_per_half_life : ℕ
decays_per_half_life = 10

pub record Reservoir (F : Type 0) : Type 0 where
  pub value : F
  pub last_decay_nanos : ℕ
  pub decay_interval_nanos : ℕ

pub record TrackedNode (F : Type 0) : Type 0 where
  pub idx : ℕ
  pub in_flight : ℕ
  pub recent_failures : Reservoir F

pub record Score : Type 0 where
  pub in_flight : ℕ
  pub score : ℕ

pub record Snapshot (A : Type 0) : Type 0 where
  pub node : A
  pub score : Score

-- `sort_by_key` is stable.
abbrev pub insert : {A : Type 0} → Snapshot A → List (Snapshot A) → List (Snapshot A)
insert s [] = s ∷ []
insert s (t ∷ ts) = if leb s.score.score t.score.score then s ∷ t ∷ ts else t ∷ insert s ts

abbrev pub sort_by_score : {A : Type 0} → List (Snapshot A) → List (Snapshot A)
sort_by_score [] = []
sort_by_score (s ∷ ss) = insert s (sort_by_score ss)

abbrev pub give_up_after : {A : Type 0} → ℕ → Snapshot A → ℕ
give_up_after threshold s =
    if ltb inflight_comparison_threshold s.score.in_flight
    then min (s.score.score * unhealthy_score_multiplier) usize_max
    else threshold

-- The loop of `acquire`.
unfoldable pub keep : {A : Type 0} → ℕ → List (Snapshot A) → List (Snapshot A)
keep threshold [] = []
keep threshold (s ∷ ss) =
    let skips : Bool = ltb threshold s.score.score in
    let rest = keep (if skips then threshold else give_up_after threshold s) ss in
    if skips then rest else s ∷ rest

-- The loop of `Acquire::poll`: `ready` says which nodes have a permit for the request.
unfoldable pub poll_each : {A : Type 0} → (A → Bool) → List (Snapshot A) → Option A
poll_each ready [] = none
poll_each ready (s ∷ ss) = if ready s.node then some s.node else poll_each ready ss

module _ {F : Type 0} (float : Float F) where
  unfoldable pub new_reservoir : ℕ → Reservoir F
  new_reservoir half_life = record {
    value = float.nil;
    last_decay_nanos = 0;
    decay_interval_nanos = half_life / decays_per_half_life;
  }

  abbrev pub decay : ℕ → Reservoir F → Reservoir F
  decay decays r = record r {
    value = float.mul r.value (float.powi float.decay_factor (decays % 2 ^ 32));
  }

  -- `nanos_since_last_decay / decay_interval_nanos`, of what the clock and `last_decay_nanos` were.
  abbrev pub decays_since : Reservoir F → ℕ → ℕ → ℕ
  decays_since r now snapshot = ((now + 2 ^ 64 - snapshot) % 2 ^ 64) / r.decay_interval_nanos

  -- The exchange, and the decay if it succeeds.
  abbrev pub exchange : ℕ → ℕ → Reservoir F → Reservoir F
  exchange snapshot decays r =
      if r.last_decay_nanos == snapshot
      then decay decays
          (record r { last_decay_nanos = (snapshot + decays * r.decay_interval_nanos) % 2 ^ 64 })
      else r

  unfoldable pub decay_if_necessary : ℕ → ℕ → Reservoir F → Reservoir F
  decay_if_necessary now snapshot r =
      let decays : ℕ = decays_since r now snapshot in
      if decays == 0 then r else exchange snapshot decays r

  -- Without another thread in between.
  unfoldable pub settle : ℕ → Reservoir F → Reservoir F
  settle now r = decay_if_necessary now r.last_decay_nanos r

  unfoldable pub update : ℕ → F → Reservoir F → Reservoir F
  update now updates r = let s = settle now r in record s { value = float.add s.value updates }

  unfoldable pub new_node : ℕ → TrackedNode F
  new_node idx = record { idx = idx; in_flight = 0; recent_failures = new_reservoir failure_memory }

  -- `get` settles the reservoir; the score is read after it.
  unfoldable pub settle_node : ℕ → TrackedNode F → TrackedNode F
  settle_node now n = record n { recent_failures = settle now n.recent_failures }

  unfoldable pub score : TrackedNode F → Score
  score n = record {
    in_flight = n.in_flight;
    score = min (n.in_flight + float.round n.recent_failures.value) usize_max;
  }

  abbrev pub snapshot_of : TrackedNode F → Snapshot (TrackedNode F)
  snapshot_of n = record { node = n; score = score n }

  -- The snapshots of `acquire`, in their order.
  unfoldable pub snapshots : List (TrackedNode F) → List (Snapshot (TrackedNode F))
  snapshots nodes = sort_by_score (map snapshot_of nodes)

  abbrev pub node_of : Snapshot (TrackedNode F) → TrackedNode F
  node_of s = s.node

  -- The nodes that `acquire` tries, which it shuffles before it polls them.
  unfoldable pub candidates : List (TrackedNode F) → List (TrackedNode F)
  candidates nodes = map node_of (keep usize_max (snapshots nodes))

  -- `Acquire::poll`; `none` is pending.
  unfoldable pub poll : (TrackedNode F → Bool) → List (TrackedNode F) → Option (TrackedNode F)
  poll ready nodes = poll_each ready (snapshots nodes)

  module _ (is_server_error is_client_error : ℕ → Bool) where
    -- What a result adds to the failures.
    unfoldable pub weigh : Result ℕ → Option F
    weigh (ok status) =
        if is_server_error status
        then some float.failure_weight
        else if is_client_error status
        then some float.client_error_weight
        else none
    weigh (err e) = some float.failure_weight

    abbrev pub update_by : ℕ → Option F → Reservoir F → Reservoir F
    update_by now none r = r
    update_by now (some w) r = update now w r

    -- What `call` does before the node is called, after the result, and when the guard is dropped.
    unfoldable pub begin_call : TrackedNode F → TrackedNode F
    begin_call n = record n { in_flight = (n.in_flight + 1) % 2 ^ 64 }

    unfoldable pub on_result : ℕ → Result ℕ → TrackedNode F → TrackedNode F
    on_result now result n = record n {
      recent_failures = update_by now (weigh result) n.recent_failures;
    }

    unfoldable pub drop_guard : TrackedNode F → TrackedNode F
    drop_guard n = record n { in_flight = (n.in_flight + 2 ^ 64 - 1) % 2 ^ 64 }
