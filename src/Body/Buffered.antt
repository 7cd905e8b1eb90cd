-- ===== src/Body/Buffered.antt =====
-- What the asynchronous writer keeps in its buffer.
use conjure_rust_runtime.Prelude.{
  ◌+◌, ◌≤◌, ◌≡◌, refl, Bool, true, false, [], ◌∷◌, length, length-append, ltb, ltb→ge,
  if◌then◌else◌, arith,
}
use conjure_rust_runtime.Body.{
  Bytes, Answer, full, disconnected, refused, accepted, Poll, pending, failed, ready, BodyWriter,
  poll_flush, flush_buf, send_buf, poll_write, extend, write_limit,
}

-- A flush that is ready leaves nothing.
abbrev Emptied : BodyWriter × Poll → Type 0
Emptied (v, ready) = v.buf ≡ []
Emptied (v, pending) = Unit {0}
Emptied (v, failed) = Unit {0}

flush-Emptied : (w : BodyWriter) (a : Answer) → Emptied (poll_flush w a)
unfolding poll_flush flush_buf send_buf
flush-Emptied w a = go w.buf refl a
  where
    go : (b : Bytes) → w.buf ≡ b → (a : Answer) → Emptied (flush_buf w b a)
    go [] e a = e
    go (b ∷ bs) e full = tt
    go (b ∷ bs) e disconnected = tt
    go (b ∷ bs) e refused = tt
    go (b ∷ bs) e accepted = refl

-- A write that is ready leaves at most the limit and the bytes of this write in the buffer.
abbrev pub Bounded : Bytes → BodyWriter × Poll → Type 0
Bounded bytes (v, ready) = length v.buf ≤ write_limit + length bytes
Bounded bytes (v, pending) = Unit {0}
Bounded bytes (v, failed) = Unit {0}

Emptied-Bounded :
    (bytes : Bytes) (r : BodyWriter × Poll) → Emptied r → Bounded bytes (extend bytes r)
Emptied-Bounded bytes (v, ready) e = rw (e) (omega arith)
Emptied-Bounded bytes (v, pending) e = tt
Emptied-Bounded bytes (v, failed) e = tt

-- When `poll_write` is ready, the buffer holds at most 4,096 bytes besides those of this write.
write-Bounded : (w : BodyWriter) (bytes : Bytes) (a : Answer) → Bounded bytes (poll_write w bytes a)
unfolding poll_write
write-Bounded w bytes a = go (ltb write_limit (length w.buf)) refl
  where
    go :
        (b : Bool)
        → ltb write_limit (length w.buf) ≡ b
        → Bounded bytes (extend bytes (if b then poll_flush w a else (w, ready)))
    go true e = Emptied-Bounded bytes (poll_flush w a) (flush-Emptied w a)
    go false e = omega (arith, length-append w.buf bytes, ltb→ge write_limit (length w.buf) e)
