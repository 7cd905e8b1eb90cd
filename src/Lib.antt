-- ===== src/Lib.antt =====
-- Conjure runtime, the HTTP client: a request goes through a stack of layers, each with the
-- next one inside (conjure-runtime/src/client.rs). From the outside: the retry layer sends a request
-- again when its error allows it; the layer for HTTP errors makes errors of the responses that
-- report a failure; the layer for nodes picks a host, and its limiter holds the request back
-- until the host and the endpoint have room; the layer around the raw client marks its failures.
--
-- Files, with the sources under conjure-runtime/src:
--   Errors: errors.rs and service/map_error.rs, what the layers know of an error.
--   Retry: service/retry.rs with Writer::write of service/raw/body.rs. Request, Send, Backoff
--     and Loop hold the code, Classified, Jitter, Round, Sent, Trace and Overflow the proofs.
--   HttpError: service/http_error.rs. RetryAfter, Table, Retries and Body hold the proofs.
--   Semaphore: service/node/limiter/deficit_semaphore.rs, with its linked list of waiters in a
--     heap. Queue is the abstract queue; Layout, Repr, Links, Dequeue, Waiting, Serve and
--     Refinement show that the list implements it; History, Track, Invariant, Fairness, Reached,
--     Wakeups, Called and Limits are about any sequence of calls.
--   Limiter: service/node/limiter/ciad.rs and on_response of service/node/limiter/mod.rs. Modes,
--     Rules, Counts, Totals and Alone hold the proofs.
--   WeakCache: weak_cache.rs. Entries has the map that it is built on, Insert, Invariant,
--     Handles, Made, Steps and Lookup the proofs.
--   Selector: service/node/selector/mod.rs (which selector serves how many nodes) and
--     pin_until_error.rs. Shuffles and Pins hold the proofs.
--   Config: the settings of conjure-runtime-config/src/lib.rs, and builder.rs, which applies them.
--     Merged holds the proofs.
--   HostMetrics: host_metrics.rs, what is counted for a host. Timers holds the proofs.
--     Registry is HostMetricsRegistry; its Live holds the proofs.
--   Body: body.rs (BodyWriter; Response is ResponseBody, whose inner body is the list of what it answers),
--     service/raw/body.rs (Request is RawRequestBody, and Request.Writing is Writer::write) and blocking/body.rs
--     (Blocking). A channel is what it answers to each call. Written, Delivered, Reads, Buffered, Blocking.Relayed,
--     Blocking.Shim and Blocking.Unsent hold the proofs.
--   Balanced: service/node/selector/balanced/mod.rs and reservoir.rs. Call is the future of a
--     call between its polls. Sorted, Kept, Polled, InFlight and Decays hold the proofs.
--   Factory: client_factory.rs (setters, caches and the builder of a client's state) and
--     per_host_clients.rs (Hosts). Keys, Followed, Reloaded, Sound, Keyed, Visits,
--     Rounds and Served hold the proofs.
--   Gzip: service/gzip/hyper.rs. Decoded says what a reader should get, and Finished and Collected
--     hold the proofs. Config.HostPort is HostAndPort, with its proofs in Digits and RoundTrip.
--   Proxy: service/proxy/hyper. Credentials holds the proofs.
--   Raw: service/raw/hyper.rs, the TLS setup. Pinned holds the proofs.
--   Nodes: service/node/mod.rs, limiter/mod.rs and uri.rs; Gauge is util/weak_reducing_gauge.rs.
--   UserAgent: user_agent.rs, service/user_agent.rs and service/error_parameter_format.rs. Distinct
--     holds the proofs.
--   Prelude: the library's names, Boolean tests on numbers, lists and options.
--
-- How the code is read. State is a record, and a method is a function from the state to the
-- new state and the answer. A method that holds a lock is one step; where the code works without
-- one, as the limiter does, each atomic access is a step, and the theorems hold for every order of
-- steps. Panics, failed assertions and dangling pointers are values of a result type. Futures are
-- functions called once for each poll. Times are nanoseconds.
--
-- Bounds and fuel. The retry loop, the loop that shrinks the cache and the reader of a compressed body
-- run on fuel, and theorems show that more fuel than retries, as much fuel as there are entries, and two
-- polls more than the body has answers, are enough. A `u16` is printed with at most five digits. `usize` has 64 bits.
-- `u32` and `usize` arithmetic says what happens at the bounds, by a panic or by wrapping.
--
-- Parameters: f64, the linked hash map, the deserializers and the predicates on HTTP statuses,
-- random numbers, the inner services, the wakers, channels, the decoder of flate2, refreshable values,
-- the parser of URIs, regular expressions, files, PEM and rustls. What is relied on of them stands in records named
-- Rules and Laws, or in the hypotheses of a theorem.
--
-- Not modelled: connections and their timeouts, the blocking client and its readers, other metrics,
-- tracing, runtimes, and the code generators for tests.
pub mod Prelude
pub mod Semaphore
pub mod Errors
pub mod Factory
pub mod Gzip
pub mod Nodes
pub mod Proxy
pub mod Raw
pub mod Retry
pub mod HttpError
pub mod Limiter
pub mod UserAgent
pub mod WeakCache
pub mod Selector
pub mod Config
pub mod HostMetrics
pub mod Balanced
pub mod Body
