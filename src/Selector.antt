-- ===== src/Selector.antt =====
-- conjure-runtime/src/service/node/selector: which node a request goes to. This file is mod.rs and
-- pin_until_error.rs.
--
-- The clock, the random order and the answers of the nodes are arguments. The pin and the time of the
-- next shuffle are atomics: a thread reads them in one step and exchanges them in another.
use conjure_rust_runtime.Prelude.{
  ℕ, zero, suc, ◌+◌, ◌-◌, ◌*◌, ◌%◌, ◌^◌, Bool, true, false, Option, none, some, ◌>>=◌, List, [],
  ◌∷◌, ◌++◌, length, get_elem?, ltb, ◌==◌, if◌then◌else◌,
}
use conjure_rust_runtime.Errors.{Result, ok, err}
pub mod Shuffles
pub mod Pins
mod Examples

pub data NodeSelectionStrategy : Type 0 where
  pin_until_error pin_until_error_without_reshuffle balanced : NodeSelectionStrategy

pub data NodeSelectorLayer (T : Type 0) : Type 0 where
  empty_selector : NodeSelectorLayer T
  single_selector : T → NodeSelectorLayer T
  reshuffling_selector fixed_selector balanced_selector : List T → NodeSelectorLayer T

abbrev pub for_many : {T : Type 0} → NodeSelectionStrategy → List T → NodeSelectorLayer T
for_many pin_until_error nodes = reshuffling_selector nodes
for_many pin_until_error_without_reshuffle nodes = fixed_selector nodes
for_many balanced nodes = balanced_selector nodes

-- `NodeSelectorLayer::new`, given the nodes.
unfoldable pub new_layer : {T : Type 0} → NodeSelectionStrategy → List T → NodeSelectorLayer T
new_layer strategy [] = empty_selector
new_layer strategy (n ∷ []) = single_selector n
new_layer strategy (n ∷ m ∷ nodes) = for_many strategy (n ∷ m ∷ nodes)

abbrev pub u64_mod : ℕ
u64_mod = 2 ^ 64

-- `(0..n).collect()`, from `i` on.
abbrev pub range : ℕ → ℕ → List ℕ
range i zero = []
range i (suc n) = i ∷ range (suc i) n

-- Times in nanoseconds.
abbrev pub reshuffle_every : ℕ
reshuffle_every = 570 * 1_000_000_000

abbrev pub reshuffle_jitter : ℕ
reshuffle_jitter = 60 * 1_000_000_000

pub record ReshufflingNodes (T : Type 0) : Type 0 where
  pub nodes : List T
  pub shuffle : List ℕ
  pub start : ℕ
  pub interval_with_jitter : ℕ
  pub next_reshuffle_nanos : ℕ

-- `Entropy::shuffle`.
abbrev pub Shuffle : Type 0
Shuffle = List ℕ → List ℕ

module _ {T : Type 0} where
  -- `gen_range(0, RESHUFFLE_JITTER)` drew `jitter`.
  unfoldable pub with_entropy : List T → Shuffle → ℕ → ℕ → ReshufflingNodes T
  with_entropy nodes entropy jitter now = record {
    nodes = nodes;
    shuffle = entropy (range 0 (length nodes));
    start = now;
    interval_with_jitter = reshuffle_every + jitter;
    next_reshuffle_nanos = (reshuffle_every + jitter) % u64_mod;
  }

  -- `loaded`: what the thread read of `next_reshuffle_nanos`.
  unfoldable pub reshuffle_if_necessary : ReshufflingNodes T → Shuffle → ℕ → ℕ → ReshufflingNodes T
  reshuffle_if_necessary s entropy now loaded =
      if ltb now (s.start + loaded)
      then s
      else if loaded == s.next_reshuffle_nanos
      then record s {
        next_reshuffle_nanos = (now + s.interval_with_jitter - s.start) % u64_mod;
        shuffle = entropy s.shuffle;
      }
      else s

  -- `Nodes::get`, which panics out of range.
  unfoldable pub get : ReshufflingNodes T → Shuffle → ℕ → ℕ → ℕ → ReshufflingNodes T × Option T
  get s entropy now loaded idx =
      let s = reshuffle_if_necessary s entropy now loaded in
      (s, do shuffled_idx ← get_elem? s.shuffle idx; get_elem? s.nodes shuffled_idx)

-- The selector with the pins that the requests in flight have read.
pub record PinUntilError (T : Type 0) : Type 0 where
  pub nodes : ReshufflingNodes T
  pub current_pin : ℕ
  pub in_flight : List ℕ

-- `PinUntilErrorNodeSelectorLayer::layer`.
unfoldable pub pin_first : {T : Type 0} → ReshufflingNodes T → PinUntilError T
pin_first nodes = record { nodes = nodes; current_pin = 0; in_flight = [] }

-- `in_flight` less the request that was answered.
abbrev pub without : ℕ → List ℕ → List ℕ
without n [] = []
without zero (p ∷ ps) = ps
without (suc n) (p ∷ ps) = p ∷ without n ps

-- `call` up to the answer: the node that the request goes to.
unfoldable pub begin_call :
    {T : Type 0} → PinUntilError T → Shuffle → ℕ → ℕ → PinUntilError T × Option T
begin_call s entropy now loaded =
    let (nodes, node) = get s.nodes entropy now loaded s.current_pin in
    (
      record {
        nodes = nodes;
        current_pin = s.current_pin;
        in_flight = s.current_pin ∷ s.in_flight;
      },
      node,
    )

module _ (is_server_error : ℕ → Bool) where
  unfoldable pub increment_host : Result ℕ → Bool
  increment_host (ok status) = is_server_error status
  increment_host (err e) = true

  -- What the selector does when the answer is there: `pin` is the pin of the request.
  unfoldable pub rotate : ℕ → ℕ → Result ℕ → ℕ → ℕ
  rotate len pin result current =
      if increment_host result then if pin == current then (pin + 1) % len else current else current

  -- The pin after the answers to requests that were sent while it was `pin`.
  abbrev pub rotate_all : ℕ → ℕ → List (Result ℕ) → ℕ → ℕ
  rotate_all len pin [] current = current
  rotate_all len pin (r ∷ rs) current = rotate_all len pin rs (rotate len pin r current)

  -- `call` from the answer to the request number `i` on.
  unfoldable pub end_call : {T : Type 0} → PinUntilError T → ℕ → Result ℕ → PinUntilError T
  end_call s i result = elim (get_elem? s.in_flight i) [
    | none ↦ s
    | some pin ↦ record s {
      current_pin = rotate (length s.nodes.nodes) pin result s.current_pin;
      in_flight = without i s.in_flight;
    }
  ]
