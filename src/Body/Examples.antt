-- ===== src/Body/Examples.antt =====
-- Tests of the bodies, and the theorems at concrete inputs.
use conjure_rust_runtime.Prelude.{
  ℕ, ◌≡◌, refl, true, false, none, some, List, [], ◌∷◌, ◌++◌, map, arith,
}
use conjure_rust_runtime.Body.{
  data_frame, trailers, RequestBodyPart, frame, done, Answer, full, accepted, BodyWriter, new,
  poll_flush, flush_buf, send_buf, poll_write, finish, write_bytes,
}
use conjure_rust_runtime.Body.Request.{
  stream, Received, part, closed, waiting, poll_frame, complete, collect, is_end_stream, size_hint,
  single,
}
use conjure_rust_runtime.Body.Request.Writing.{write}
use conjure_rust_runtime.Body.Written.{Write, writes, flushes, writes_bytes, step, run, contents}
use conjure_rust_runtime.Body.Delivered.{Delivers, waits, next, last, data_in, write-collect}
use conjure_rust_runtime.Body.Response
use conjure_rust_runtime.Body.Reads
use conjure_rust_runtime.Body.Blocking
use conjure_rust_runtime.Body.Blocking.Shim.{received, relay-stream_write}
use conjure_rust_runtime.Body.Blocking.Unsent.{run-unsent, write_each}

abbrev some_writes : List Write
some_writes = writes (1 ∷ 2 ∷ []) full ∷ flushes full ∷ writes_bytes (3 ∷ []) accepted accepted ∷ []

abbrev some_parts : List RequestBodyPart
some_parts = frame (data_frame (1 ∷ 2 ∷ [])) ∷ frame (data_frame (3 ∷ [])) ∷ done ∷ []

abbrev some_polls : List Received
some_polls =
    waiting
    ∷ part (frame (data_frame (1 ∷ 2 ∷ [])))
    ∷ part (frame (data_frame (3 ∷ [])))
    ∷ waiting
    ∷ part done
    ∷ closed
    ∷ []

some_delivery : Delivers some_parts some_polls
some_delivery =
    waits some_parts _ (next _ _ _ (next _ _ _ (waits (done ∷ []) _ (next done [] _ (last [])))))

write-collect_example :
    (collect (stream true) some_polls).1 ≡ complete
    × (data_in (collect (stream true) some_polls).0 ≡ 1 ∷ 2 ∷ 3 ∷ [])
unfolding write finish new run step poll_write poll_flush flush_buf send_buf write_bytes
write-collect_example =
    write-collect true some_writes false accepted accepted some_polls some_delivery

is_end_stream_test : is_end_stream (poll_frame (single trailers) closed).0 ≡ true
unfolding is_end_stream poll_frame
is_end_stream_test = refl

size_hint_test : size_hint (single (data_frame (1 ∷ 2 ∷ []))) ≡ some 2
unfolding size_hint
size_hint_test = refl

abbrev some_inner : List Response.Inner
some_inner =
    Response.inner_frame (data_frame (1 ∷ 2 ∷ 3 ∷ []))
    ∷ Response.inner_pending
    ∷ Response.inner_frame trailers
    ∷ Response.inner_end
    ∷ []

abbrev some_reads : List Reads.Read
some_reads = Reads.into 2 ∷ Reads.next ∷ Reads.next ∷ Reads.into 4 ∷ []

abbrev at_end : Response.ResponseBody
at_end = record { done = true; inner = []; cur = [] }

some_run : Reads.read_all some_reads (Response.new some_inner) ≡ some (at_end, 1 ∷ 2 ∷ 3 ∷ [])
unfolding Reads.read_all Response.new Response.poll_read Response.poll_next Response.poll_fill_buf
    Response.next_bytes Response.fill_from Response.fill Response.next_data Response.consume
some_run = refl

read_all-payload_example : (1 ∷ 2 ∷ 3 ∷ []) ≡ Reads.payload some_inner
read_all-payload_example =
    Reads.read_all-payload some_reads some_inner at_end (1 ∷ 2 ∷ 3 ∷ []) some_run (refl, refl)

abbrev some_body : Blocking.WriteBody ℕ
some_body = record {
  calls = Blocking.writes (1 ∷ []) true ∷ Blocking.writes_bytes (2 ∷ []) true true ∷ [];
  own_error = none;
  call_error = 0;
}

abbrev some_sent : List (Blocking.BodyPart ℕ × Answer × Answer)
some_sent =
    (Blocking.data_part (1 ∷ []), accepted, accepted)
    ∷ (Blocking.data_part (2 ∷ []), accepted, accepted)
    ∷ (Blocking.done, accepted, accepted)
    ∷ []

abbrev some_relayed : BodyWriter
some_relayed = record {
  sent = frame (data_frame (1 ∷ [])) ∷ frame (data_frame (2 ∷ [])) ∷ [];
  buf = [];
}

blocking_calls : Unit {0}
unfolding Blocking.stream_write Blocking.new Blocking.run Blocking.step Blocking.write
    Blocking.flush Blocking.flush_buf Blocking.send Blocking.write_bytes Blocking.finish
    Blocking.relay write_bytes new poll_flush flush_buf
blocking_calls = tt

some_streamed : map received some_sent ≡ (Blocking.stream_write some_body true true).0.sent
unfolding blocking_calls
some_streamed = refl

some_relay : Blocking.relay some_sent new ≡ (some_relayed, Blocking.ok)
unfolding blocking_calls
some_relay = refl

relay-stream_write_example :
    ((Blocking.run {E = ℕ} some_body.calls Blocking.new).1 ≡ true)
    × (some_body.own_error ≡ none)
    × (contents some_relayed
        ≡ contents new ++ (Blocking.run {E = ℕ} some_body.calls Blocking.new).2)
unfolding new
relay-stream_write_example =
    relay-stream_write some_body true true some_sent new some_relayed tt some_streamed some_relay

-- The channel is gone, and the writes succeed.
run-unsent_example :
    Blocking.run
      (map write_each ((1 ∷ 2 ∷ [], false) ∷ (3 ∷ [], false) ∷ []))
      (Blocking.new {E = ℕ})
    ≡ (record { sent = []; buf = 1 ∷ 2 ∷ 3 ∷ [] }, true, 1 ∷ 2 ∷ 3 ∷ [])
unfolding Blocking.new
run-unsent_example =
    run-unsent ((1 ∷ 2 ∷ [], false) ∷ (3 ∷ [], false) ∷ []) Blocking.new
      (omega arith, (omega arith, tt))
