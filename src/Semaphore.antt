-- ===== src/Semaphore.antt =====
-- conjure-runtime/src/service/node/limiter/deficit_semaphore.rs: the semaphore with its intrusive
-- list of waiters. Every method runs under the mutex, so each is one step here.
--
-- A waiter's `Node` lives inside its pinned `Acquire` future, so the future's identity is the
-- node's address: `nodes id` is the field `Acquire::node` of the future `id`. A read through a
-- pointer to a future without a node, a failed `debug_assert`, and a panic of the arithmetic are
-- faults.
pub mod Queue
pub mod Layout
pub mod Repr
pub mod Links
pub mod Dequeue
pub mod Waiting
pub mod Serve
pub mod Refinement
pub mod History
pub mod Track
pub mod Invariant
pub mod Fairness
pub mod Reached
pub mod Wakeups
pub mod Called
pub mod Limits
mod Examples
use conjure_rust_runtime.Prelude.{
  ℕ, ◌+◌, ◌-◌, ◌^◌, Bool, true, false, ◌&&◌, Option, none, some, List, [], ◌∷◌, ltb, leb, ◌==◌,
  if◌then◌else◌, is_none, opt_eq,
}

abbrev pub FutureId : Type 0
FutureId = ℕ

abbrev pub Waker : Type 0
Waker = ℕ

-- `usize` on a 64-bit target.
abbrev pub usize_max : ℕ
usize_max = 2 ^ 64 - 1

pub data Fault : Type 0 where
  dangling assertion overflow underflow : Fault

pub data Result {ℓ} (A : Type ℓ) : Type ℓ where
  ok : A → Result A
  err : Fault → Result A

abbrev pub guard : Bool → Fault → Result (Unit {0})
guard holds fault = if holds then ok tt else err fault

pub record Node : Type 0 where
  pub waker : Option Waker
  pub next : Option FutureId
  pub prev : Option FutureId

-- `woken` logs the calls of `Waker::wake`, the latest first.
pub record State : Type 0 where
  pub total_permits : ℕ
  pub outstanding_permits : ℕ
  pub head : Option FutureId
  pub tail : Option FutureId
  pub nodes : FutureId → Option Node
  pub woken : List Waker

pub data Poll : Type 0 where
  ready pending : Poll

infixl 5 ◌>>=◌
abbrev pub ◌>>=◌ {ℓ κ} : {S : Type ℓ} {T : Type κ} → Result S → (S → Result T) → Result T
err fault >>= next_step = err fault
ok s >>= next_step = next_step s

infixl 5 ◌>>◌
abbrev pub ◌>>◌ {κ} : {T : Type κ} → Result (Unit {0}) → Result T → Result T
check >> next_step = check >>= λ done. next_step

abbrev pub read : State → FutureId → Result Node
read s id = elim (s.nodes id) [ none ↦ err dangling | some n ↦ ok n ]

abbrev pub update : (FutureId → Option Node) → FutureId → Option Node → FutureId → Option Node
update h id n j = if j == id then n else h j

abbrev pub write : State → FutureId → Option Node → State
write s id n = record s { nodes = update s.nodes id n }

unfoldable pub new : ℕ → State
new permits = record {
  total_permits = permits;
  outstanding_permits = 0;
  head = none;
  tail = none;
  nodes = λ _. none;
  woken = [];
}

unfoldable pub has_permits : State → Bool
has_permits s = ltb s.outstanding_permits s.total_permits

-- `if let Some(waker) = head.waker.take() { waker.wake() }`
pub wake_node : State → FutureId → Node → State
wake_node s id n = elim n.waker [
  | none ↦ s
  | some w ↦ record (write s id (some (record n { waker = none }))) { woken = w ∷ s.woken }
]

unfoldable pub maybe_wake : State → Result State
unfolding has_permits wake_node
maybe_wake s =
    if has_permits s
    then elim s.head [ none ↦ ok s | some id ↦ do n ← read s id; ok (wake_node s id n) ]
    else ok s

-- The first half of `Node::dequeue`: what pointed forward to the node skips it.
pub skip_forward : State → FutureId → Node → Result State
skip_forward s id n = elim n.prev [
  | some p ↦ do
    pn ← read s p
    guard (opt_eq pn.next (some id)) assertion
    ok (write s p (some (record pn { next = n.next })))
  | none ↦ do guard (opt_eq s.head (some id)) assertion; ok (record s { head = n.next })
]

-- The second half: what pointed back to the node skips it.
pub skip_back : State → FutureId → Node → Result State
skip_back s id n = elim n.next [
  | some q ↦ do
    qn ← read s q
    guard (opt_eq qn.prev (some id)) assertion
    ok (write s q (some (record qn { prev = n.prev })))
  | none ↦ do guard (opt_eq s.tail (some id)) assertion; ok (record s { tail = n.prev })
]

unfoldable pub dequeue : State → FutureId → Result State
unfolding skip_forward skip_back
dequeue s id = do
  n ← read s id
  s ← skip_forward s id n
  n ← read s id
  s ← skip_back s id n
  n ← read s id
  ok (write s id (some (record n { prev = none; next = none })))

unfoldable pub push_back : State → FutureId → Result State
push_back s id = do
  n ← read s id
  guard (is_none n.next) assertion
  guard (is_none n.prev) assertion
  s ← elim s.tail [
    | some t ↦ do
      tn ← read s t
      guard (is_none tn.next) assertion
      let s = write s t (some (record tn { next = some id }))
      n ← read s id
      ok (write s id (some (record n { prev = s.tail })))
    | none ↦ ok (record s { head = some id })
  ]
  ok (record s { tail = some id })

-- `outstanding_permits += 1`, with the overflow check of a debug build.
pub take_permit : State → Result State
take_permit s = do
  guard (ltb s.outstanding_permits usize_max) overflow
  ok (record s { outstanding_permits = s.outstanding_permits + 1 })

pub fresh_node : Node
fresh_node = record { waker = none; next = none; prev = none }

-- The waiter's node, queued at its first poll.
pub enqueue : State → FutureId → Result State
unfolding fresh_node
enqueue s id = elim (s.nodes id) [
  | some n ↦ ok s
  | none ↦ push_back (write s id (some fresh_node)) id
]

-- The head of the queue takes its permit.
pub grant : State → FutureId → Result (State × Poll)
grant s id = do s ← dequeue s id; s ← take_permit (write s id none); s ← maybe_wake s; ok (s, ready)

-- `Waker::will_wake` is the standard library's.
abbrev pub WillWake : Type 0
WillWake = Waker → Waker → Bool

pub set_waker : WillWake → Waker → Node → Node
set_waker will_wake cx n = elim n.waker [
  | none ↦ record n { waker = some cx }
  | some w ↦ if will_wake w cx then n else record n { waker = some cx }
]

-- Only the waiter at the head of the queue can take a permit; any other leaves its waker.
pub serve : WillWake → State → FutureId → Waker → Result (State × Poll)
unfolding has_permits
serve will_wake s id cx = do
  n ← read s id
  if is_none n.prev && has_permits s
      then grant s id
      else ok (write s id (some (set_waker will_wake cx n)), pending)

unfoldable pub poll : WillWake → State → FutureId → Waker → Result (State × Poll)
unfolding has_permits
poll will_wake s id cx =
    if is_none s.head && has_permits s
    then (do s ← take_permit s; ok (s, ready))
    else (do s ← enqueue s id; serve will_wake s id cx)

-- `PinnedDrop for Acquire`: the node goes with the future.
unfoldable pub drop_acquire : State → FutureId → Result State
drop_acquire s id = elim (s.nodes id) [
  | none ↦ ok s
  | some n ↦ do
    let is_head = is_none n.prev
    s ← dequeue s id
    let s = write s id none
    if is_head then maybe_wake s else ok s
]

unfoldable pub drop_permit : State → Result State
drop_permit s = do
  guard (ltb 0 s.outstanding_permits) underflow
  maybe_wake (record s { outstanding_permits = s.outstanding_permits - 1 })

unfoldable pub add_permits : State → ℕ → Result State
add_permits s permits = do
  guard (leb (s.total_permits + permits) usize_max) overflow
  maybe_wake (record s { total_permits = s.total_permits + permits })

unfoldable pub remove_permits : State → ℕ → Result State
remove_permits s permits = do
  guard (leb permits s.total_permits) underflow
  ok (record s { total_permits = s.total_permits - permits })
