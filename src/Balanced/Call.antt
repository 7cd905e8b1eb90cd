-- ===== src/Balanced/Call.antt =====
-- conjure-runtime/src/service/node/selector/balanced/mod.rs: the future of `call`, between its polls.
--
-- It is at one of its two `await`s, or it has returned. What it holds there is dropped when it goes on to its end, and when
-- it is dropped itself.
use conjure_rust_runtime.Prelude.{ℕ, Bool, Option, none, some}
use conjure_rust_runtime.Errors.{Result}
use conjure_rust_runtime.Balanced.{Float, TrackedNode, begin_call, on_result, drop_guard}

pub data InFlightGuard : Type 0 where
  in_flight_guard : InFlightGuard

-- Between polls: waiting for a node, or for the inner service with the guard if there is one.
pub data Call : Type 0 where
  acquiring : Call
  sending : Option InFlightGuard → Call
  returned : Call

module _ {F : Type 0} (float : Float F) (is_server_error is_client_error : ℕ → Bool) where
  abbrev pub drop_locals : Option InFlightGuard → TrackedNode F → TrackedNode F
  drop_locals none n = n
  drop_locals (some in_flight_guard) n = drop_guard float is_server_error is_client_error n

  -- From the node that `acquire` has given to the `await` of the inner service.
  unfoldable pub after_acquire : TrackedNode F → TrackedNode F × Call
  after_acquire n =
      (begin_call float is_server_error is_client_error n, sending (some in_flight_guard))

  -- From the result of the inner service to the end.
  unfoldable pub after_response :
      ℕ → Result ℕ → Option InFlightGuard → TrackedNode F → TrackedNode F × Call
  after_response now result guard n =
      (drop_locals guard (on_result float is_server_error is_client_error now result n), returned)

  unfoldable pub drop_call : Call → TrackedNode F → TrackedNode F × Call
  drop_call acquiring n = (n, returned)
  drop_call (sending guard) n = (drop_locals guard n, returned)
  drop_call returned n = (n, returned)
