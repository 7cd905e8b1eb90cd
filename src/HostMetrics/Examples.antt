-- ===== src/HostMetrics/Examples.antt =====
-- Tests of the metrics of a host.
use conjure_rust_runtime.Prelude.{arith, ◌+◌, ◌≡◌, refl, List, [], ◌∷◌, length}
use conjure_rust_runtime.HostMetrics.Registry
use conjure_rust_runtime.HostMetrics.Registry.Live.{get-same}
use conjure_rust_runtime.HostMetrics.{new, update, update_io_error}
use conjure_rust_runtime.HostMetrics.Timers.{
  Event, responds, fails, run, responses, answered, qos, failures, run-counts,
}

abbrev traffic : List Event
traffic = responds 1 200 10 ∷ responds 2 503 20 ∷ fails 3 ∷ responds 4 600 30 ∷ []

traffic_qos : (run (new 0) traffic).response_qos ≡ 20 ∷ []
unfolding new update update_io_error
traffic_qos = refl

run-counts_example :
    (responses (run (new 0) traffic) ≡ answered traffic + responses (new 0))
    × (length (run (new 0) traffic).response_qos ≡ qos traffic + length (new 0).response_qos)
    × ((run (new 0) traffic).io_error ≡ failures traffic + (new 0).io_error)
run-counts_example = run-counts (new 0) traffic

-- The metrics of the host 8 are not used any more when the snapshot is taken; those of the host 7 are.
abbrev some_events : List Registry.Event
some_events =
    Registry.gets 8 ∷ Registry.drops 1 ∷ Registry.takes_hosts ∷ Registry.drops_hosts 0 ∷ []

registry_calls : Unit {0}
unfolding Registry.run Registry.step Registry.get Registry.hosts Registry.new
registry_calls = tt

hosts_test : (Registry.run (Registry.get Registry.new 7).0 some_events).map ≡ (7, 0) ∷ []
unfolding registry_calls
hosts_test = refl

-- While a snapshot is alive, it keeps all the metrics in it in use.
snapshot_test :
    (Registry.run Registry.new
      (Registry.gets 7 ∷ Registry.takes_hosts ∷ Registry.drops 0 ∷ Registry.takes_hosts ∷ [])).map
    ≡ (7, 0) ∷ []
unfolding registry_calls
snapshot_test = refl

get-same_example :
    (Registry.get (Registry.run (Registry.get Registry.new 7).0 some_events) 7).1
    ≡ (Registry.get Registry.new 7).1
unfolding registry_calls
get-same_example =
    get-same Registry.new 7 some_events
      (omega arith, (omega arith, (omega arith, (omega arith, tt))))
