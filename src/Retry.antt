-- ===== src/Retry.antt =====
-- conjure-runtime/src/service/retry.rs: the layer that retries failed requests.
--
-- What the layer cannot know is an argument: for each attempt the answer of the inner service, what
-- happens to the request body, and the random jitter (`Attempt`). Both build profiles are covered:
-- `overflow_checks` says whether arithmetic panics on overflow or wraps. Spans and log lines are
-- left out.
pub mod Request
pub mod Send
pub mod Backoff
pub mod Loop
pub mod Classified
pub mod Jitter
pub mod Round
pub mod Sent
pub mod Trace
pub mod Overflow
mod Examples
