-- ===== src/HostMetrics.antt =====
-- conjure-runtime/src/host_metrics.rs: what is counted for a host.
--
-- Timers and meters are the metrics library's; here a timer is the list of the durations given to it, the
-- latest first, and a meter the number of its marks. Registry is the registry of the hosts.
use conjure_rust_runtime.Prelude.{
  ℕ, ◌+◌, Bool, true, false, ◌&&◌, ◌||◌, List, [], ◌∷◌, leb, ◌==◌, if◌then◌else◌,
}
use conjure_rust_runtime.Errors.{Duration}
pub mod Timers
pub mod Registry
mod Examples

pub record HostMetrics : Type 0 where
  pub last_update : ℕ
  pub response_1xx : List Duration
  pub response_2xx : List Duration
  pub response_3xx : List Duration
  pub response_4xx : List Duration
  pub response_5xx : List Duration
  pub response_qos : List Duration
  pub response_other : List Duration
  pub io_error : ℕ

unfoldable pub new : ℕ → HostMetrics
new now = record {
  last_update = now;
  response_1xx = [];
  response_2xx = [];
  response_3xx = [];
  response_4xx = [];
  response_5xx = [];
  response_qos = [];
  response_other = [];
  io_error = 0;
}

abbrev pub between : ℕ → ℕ → ℕ → Bool
between low high n = leb low n && leb n high

-- The arms of the match are tried in order, since the ranges overlap.
unfoldable pub update : HostMetrics → ℕ → ℕ → Duration → HostMetrics
update m now status d =
    let m = record m { last_update = now } in
    if status == 429 || status == 503
    then record m { response_qos = d ∷ m.response_qos }
    else if between 100 199 status
    then record m { response_1xx = d ∷ m.response_1xx }
    else if between 200 299 status
    then record m { response_2xx = d ∷ m.response_2xx }
    else if between 300 399 status
    then record m { response_3xx = d ∷ m.response_3xx }
    else if between 400 499 status
    then record m { response_4xx = d ∷ m.response_4xx }
    else if between 500 599 status
    then record m { response_5xx = d ∷ m.response_5xx }
    else record m { response_other = d ∷ m.response_other }

unfoldable pub update_io_error : HostMetrics → ℕ → HostMetrics
update_io_error m now = record m { last_update = now; io_error = m.io_error + 1 }
