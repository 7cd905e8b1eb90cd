-- ===== src/Balanced/InFlight.antt =====
-- A node's count of the requests in flight.
use conjure_rust_runtime.Prelude.{
  ℕ, zero, suc, ◌+◌, ◌-◌, ◌^◌, ◌%◌, ◌<◌, ◌≡◌, refl, Bool, Option, none, some, List, [], ◌∷◌, ◌++◌,
  All, All-get_elem?, All-replace_at, get_elem?, replace_at, arith,
}
use conjure_rust_runtime.Errors.{Result}
use conjure_rust_runtime.Balanced.{Float, TrackedNode, begin_call, on_result, drop_guard}
use conjure_rust_runtime.Balanced.Call.{
  InFlightGuard, in_flight_guard, Call, acquiring, sending, returned, after_acquire, after_response,
  drop_call,
}

-- What happens to the calls that a node serves: one is made; one gets the node; the inner service of one answers, at a
-- time; and one is dropped, at any point.
pub data Event : Type 0 where
  makes : Event
  acquires : ℕ → Event
  responds : ℕ → ℕ → Result ℕ → Event
  drops : ℕ → Event

pub record World (F : Type 0) : Type 0 where
  pub node : TrackedNode F
  pub calls : List Call

abbrev pub is_sending : Call → ℕ
is_sending acquiring = 0
is_sending (sending guard) = 1
is_sending returned = 0

-- The calls that wait for the inner service.
abbrev pub in_flight_of : List Call → ℕ
in_flight_of [] = 0
in_flight_of (c ∷ cs) = is_sending c + in_flight_of cs

module _ {F : Type 0} where
  abbrev pub put : ℕ → World F → TrackedNode F × Call → World F
  put i w (n, c) = record { node = n; calls = replace_at i c w.calls }

module _ {F : Type 0} (float : Float F) (is_server_error is_client_error : ℕ → Bool) where
  abbrev pub acquire_at : ℕ → World F → Option Call → World F
  acquire_at i w none = w
  acquire_at i w (some acquiring) =
      put i w (after_acquire float is_server_error is_client_error w.node)
  acquire_at i w (some (sending guard)) = w
  acquire_at i w (some returned) = w

  abbrev pub respond_at : ℕ → ℕ → Result ℕ → World F → Option Call → World F
  respond_at i now result w none = w
  respond_at i now result w (some acquiring) = w
  respond_at i now result w (some (sending guard)) =
      put i w (after_response float is_server_error is_client_error now result guard w.node)
  respond_at i now result w (some returned) = w

  abbrev pub drop_at : ℕ → World F → Option Call → World F
  drop_at i w none = w
  drop_at i w (some c) = put i w (drop_call float is_server_error is_client_error c w.node)

  unfoldable pub step : World F → Event → World F
  step w makes = record w { calls = w.calls ++ acquiring ∷ [] }
  step w (acquires i) = acquire_at i w (get_elem? w.calls i)
  step w (responds i now result) = respond_at i now result w (get_elem? w.calls i)
  step w (drops i) = drop_at i w (get_elem? w.calls i)

  unfoldable pub run : World F → List Event → World F
  run w [] = w
  run w (e ∷ es) = run (step w e) es

  -- There are never 2^64 calls in flight at once.
  abbrev pub Room : World F → List Event → Type 0
  Room w [] = Unit {0}
  Room w (e ∷ es) = (in_flight_of w.calls + 1 < 2 ^ 64) × Room (step w e) es

-- A call that waits for the inner service holds a guard.
abbrev Guarded : Call → Type 0
Guarded acquiring = Unit {0}
Guarded (sending none) = ⊥
Guarded (sending (some g)) = Unit {0}
Guarded returned = Unit {0}

abbrev Counted : {F : Type 0} → World F → Type 0
Counted w = (w.node.in_flight ≡ in_flight_of w.calls) × All Guarded w.calls

in_flight_of-make : (cs : List Call) → in_flight_of (cs ++ acquiring ∷ []) ≡ in_flight_of cs
in_flight_of-make [] = refl
in_flight_of-make (c ∷ cs) = omega (arith, in_flight_of-make cs)

Guarded-make : (cs : List Call) → All Guarded cs → All Guarded (cs ++ acquiring ∷ [])
Guarded-make [] h = (tt, tt)
Guarded-make (c ∷ cs) (g, h) = (g, Guarded-make cs h)

same_call : {a b : Call} → some a ≡ some b → is_sending a ≡ is_sending b
same_call e = cc

in_flight_of-replace_at :
    (cs : List Call) (i : ℕ) (c d : Call)
    → get_elem? cs i ≡ some c
    → in_flight_of (replace_at i d cs) + is_sending c ≡ in_flight_of cs + is_sending d
in_flight_of-replace_at [] i c d e = cc
in_flight_of-replace_at (b ∷ cs) zero c d e = omega (arith, same_call e)
in_flight_of-replace_at (b ∷ cs) (suc i) c d e = omega (arith, in_flight_of-replace_at cs i c d e)

module _ {F : Type 0} (float : Float F) (is_server_error is_client_error : ℕ → Bool) where
  acquire-Counted :
      (i : ℕ) (w : World F) (o : Option Call)
      → get_elem? w.calls i ≡ o
      → in_flight_of w.calls + 1 < 2 ^ 64
      → Counted w
      → Counted (acquire_at float is_server_error is_client_error i w o)
  unfolding after_acquire begin_call
  acquire-Counted i w none e room h = h
  acquire-Counted i w (some acquiring) e room (n, g) = (
    omega (
      arith,
      n,
      room,
      in_flight_of-replace_at w.calls i acquiring (sending (some in_flight_guard)) e,
    ),
    All-replace_at Guarded i (sending (some in_flight_guard)) w.calls tt g,
  )
  acquire-Counted i w (some (sending guard)) e room h = h
  acquire-Counted i w (some returned) e room h = h

  -- A call that holds a guard ends.
  guard-Counted :
      (i k : ℕ) (guard : InFlightGuard) (cs : List Call)
      → get_elem? cs i ≡ some (sending (some guard))
      → in_flight_of cs + 1 < 2 ^ 64
      → k ≡ in_flight_of cs
      → (k + 2 ^ 64 - 1) % 2 ^ 64 ≡ in_flight_of (replace_at i returned cs)
  guard-Counted i k guard cs e room n =
      omega (arith, n, room, in_flight_of-replace_at cs i (sending (some guard)) returned e)

  respond-Counted :
      (i now : ℕ) (result : Result ℕ) (w : World F) (o : Option Call)
      → get_elem? w.calls i ≡ o
      → in_flight_of w.calls + 1 < 2 ^ 64
      → Counted w
      → Counted (respond_at float is_server_error is_client_error i now result w o)
  unfolding after_response on_result drop_guard
  respond-Counted i now result w none e room h = h
  respond-Counted i now result w (some acquiring) e room h = h
  respond-Counted i now result w (some (sending none)) e room (n, g) =
      absurd (All-get_elem? Guarded w.calls i (sending none) g e)
  respond-Counted i now result w (some (sending (some in_flight_guard))) e room (n, g) = (
    guard-Counted i w.node.in_flight in_flight_guard w.calls e room n,
    All-replace_at Guarded i returned w.calls tt g,
  )
  respond-Counted i now result w (some returned) e room h = h

  drop-Counted :
      (i : ℕ) (w : World F) (o : Option Call)
      → get_elem? w.calls i ≡ o
      → in_flight_of w.calls + 1 < 2 ^ 64
      → Counted w
      → Counted (drop_at float is_server_error is_client_error i w o)
  unfolding drop_call drop_guard
  drop-Counted i w none e room h = h
  drop-Counted i w (some acquiring) e room (n, g) = (
    omega (arith, n, in_flight_of-replace_at w.calls i acquiring returned e),
    All-replace_at Guarded i returned w.calls tt g,
  )
  drop-Counted i w (some (sending none)) e room (n, g) =
      absurd (All-get_elem? Guarded w.calls i (sending none) g e)
  drop-Counted i w (some (sending (some in_flight_guard))) e room (n, g) = (
    guard-Counted i w.node.in_flight in_flight_guard w.calls e room n,
    All-replace_at Guarded i returned w.calls tt g,
  )
  drop-Counted i w (some returned) e room (n, g) = (
    omega (arith, n, in_flight_of-replace_at w.calls i returned returned e),
    All-replace_at Guarded i returned w.calls tt g,
  )

  step-Counted :
      (w : World F) (e : Event)
      → in_flight_of w.calls + 1 < 2 ^ 64
      → Counted w
      → Counted (step float is_server_error is_client_error w e)
  unfolding step
  step-Counted w makes room (n, g) =
      (omega (arith, n, in_flight_of-make w.calls), Guarded-make w.calls g)
  step-Counted w (acquires i) room h = acquire-Counted i w (get_elem? w.calls i) refl room h
  step-Counted w (responds i now result) room h =
      respond-Counted i now result w (get_elem? w.calls i) refl room h
  step-Counted w (drops i) room h = drop-Counted i w (get_elem? w.calls i) refl room h

  run-Counted :
      (w : World F) (es : List Event)
      → Room float is_server_error is_client_error w es
      → Counted w
      → Counted (run float is_server_error is_client_error w es)
  unfolding run
  run-Counted w [] room h = h
  run-Counted w (e ∷ es) (here, later) h =
      run-Counted (step float is_server_error is_client_error w e) es later
        (step-Counted w e here h)

  -- From a node without calls, whatever calls are made, answered with any result, and dropped at any point, and as long
  -- as fewer than 2^64 of them are in flight at once: the node's count is the number of the calls that wait for the
  -- inner service.
  pub run-active :
      (n : TrackedNode F) (es : List Event)
      → n.in_flight ≡ 0
      → Room float is_server_error is_client_error (record { node = n; calls = [] }) es
      → let w = run float is_server_error is_client_error (record { node = n; calls = [] }) es in
        w.node.in_flight ≡ in_flight_of w.calls
  run-active n es none_yet room =
      (run-Counted (record { node = n; calls = [] }) es room (none_yet, tt)).0
