-- ===== src/Limiter/Modes.antt =====
-- Which of the two limits a response lowers.
use conjure_rust_runtime.Prelude.{ℕ, ◌≡◌, ◌≢◌, Bool, true, false, ◌⊎◌}
use conjure_rust_runtime.Errors.{Cause, raw_client_error, Error, Result, ok, err}
use conjure_rust_runtime.Limiter.{Mode, ignore, success, dropped}

-- The endpoint is to blame for a 500 and a 429, the host for any other server error, and for a failure
-- of the connection.
pub data Blame (is_server_error : ℕ → Bool) : Result ℕ → Mode × Mode → Type 0 where
  endpoint :
      (status : ℕ)
      → (status ≡ 500) ⊎ (status ≡ 429)
      → Blame is_server_error (ok status) (dropped, ignore)
  host :
      (status : ℕ)
      → status ≢ 500
      → status ≢ 429
      → is_server_error status ≡ true
      → Blame is_server_error (ok status) (ignore, dropped)
  nobody :
      (status : ℕ)
      → status ≢ 500
      → status ≢ 429
      → is_server_error status ≡ false
      → Blame is_server_error (ok status) (success, success)
  connection :
      (e : Error) (c : Cause)
      → e.cause ≡ raw_client_error c
      → Blame is_server_error (err e) (ignore, dropped)
  unknown :
      (e : Error)
      → ((c : Cause) → e.cause ≢ raw_client_error c)
      → Blame is_server_error (err e) (ignore, ignore)
