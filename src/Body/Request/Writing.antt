-- ===== src/Body/Request/Writing.antt =====
-- conjure-runtime/src/service/raw/body.rs, `Writer::write`: the code that writes the body is run once the HTTP client
-- polls it.
--
-- That code is a parameter: the calls it makes, up to the first that fails, and whether it fails by itself after
-- them.
use conjure_rust_runtime.Prelude.{Bool, true, false, List}
use conjure_rust_runtime.Body.{Bytes, Answer, Poll, failed, pending, ready, BodyWriter, new, finish}
use conjure_rust_runtime.Body.Request.{Writer, nop, streaming}
use conjure_rust_runtime.Body.Written.{Write, run}

-- `dropped`: the future ends before it is ready.
pub data Outcome : Type 0 where
  written not_polled write_error finish_error dropped : Outcome

abbrev pub finished : BodyWriter × Poll → BodyWriter × Outcome
finished (w, ready) = (w, written)
finished (w, failed) = (w, finish_error)
finished (w, pending) = (w, dropped)

abbrev pub after_body : Bool → Answer → Answer → BodyWriter × Poll × Bytes → BodyWriter × Outcome
after_body false a b (w, ready, bytes) = finished (finish w a b)
after_body true a b (w, ready, bytes) = (w, write_error)
after_body fails a b (w, failed, bytes) = (w, write_error)
after_body fails a b (w, pending, bytes) = (w, dropped)

unfoldable pub write : Writer → Bool → List Write → Bool → Answer → Answer → BodyWriter × Outcome
write nop polled cs fails a b = (new, written)
write streaming false cs fails a b = (new, not_polled)
write streaming true cs fails a b = after_body fails a b (run cs new)
