-- ===== src/Nodes/Examples.antt =====
-- Tests of the nodes and the gauge.
use conjure_rust_runtime.Prelude.{
  ℕ, ◌≡◌, refl, Bool, Option, none, some, [], ◌∷◌, leb, ◌==◌, if◌then◌else◌,
}
use conjure_rust_runtime.Config.{enabled}
use conjure_rust_runtime.Errors.{ok}
use conjure_rust_runtime.Limiter.{dropped, ignore, on_response}
use conjure_rust_runtime.Nodes.{
  Endpoint, Node, LimitedNode, limiter_for, endpoint_limiter, acquire, wrap_acquired, wrap,
  acquires_endpoint, acquires_host, calls_with, reports, node_uri,
}
use conjure_rust_runtime.Nodes.Gauge.{in_flight_reducer, reduce_all, value, push}

abbrev server_error : ℕ → Bool
server_error status = leb 500 status

abbrev a_node : Node
a_node = record { idx = 0; url = 104 ∷ 47 ∷ [] }

abbrev limited : LimitedNode
limited = record { node = a_node; limiter = limiter_for enabled }

abbrev an_endpoint : Endpoint
an_endpoint = record { method = 1; pattern = 2 }

wrap_calls : Unit {0}
unfolding limiter_for endpoint_limiter acquire wrap_acquired wrap on_response
wrap_calls = tt

-- A 429 lowers the limit of the endpoint, and not that of the host.
wrap_test :
    (wrap server_error limited an_endpoint (ok 429)).1
    ≡ acquires_endpoint 0 ∷ acquires_host ∷ calls_with a_node ∷ reports dropped ignore ∷ []
unfolding wrap_calls
wrap_test = refl

-- The second call of the endpoint has the limiter of the first.
same_limiter_test :
    (wrap server_error (wrap server_error limited an_endpoint (ok 200)).0 an_endpoint (ok 429)).1
    ≡ acquires_endpoint 0 ∷ acquires_host ∷ calls_with a_node ∷ reports dropped ignore ∷ []
unfolding wrap_calls
same_limiter_test = refl

node_uri_test : node_uri a_node.url (47 ∷ 97 ∷ []) ≡ 104 ∷ 47 ∷ 97 ∷ []
unfolding node_uri
node_uri_test = refl

-- The entry 1 is gone.
abbrev upgrade : ℕ → Option ℕ
upgrade e = if e == 1 then none else some e

value_test :
    value in_flight_reducer upgrade (push in_flight_reducer upgrade 4 (3 ∷ 1 ∷ []))
    ≡ (3 ∷ 4 ∷ [], 7)
unfolding value reduce_all
value_test = refl
