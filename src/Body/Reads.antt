-- ===== src/Body/Reads.antt =====
-- However a response's body is read, its bytes come out in order, once, and without a panic.
use conjure_rust_runtime.Prelude.{
  ℕ, zero, suc, ◌≤◌, ◌≡◌, refl, sym, ap, ◌∙◌, Bool, true, false, Option, none, some, List, [], ◌∷◌,
  ◌++◌, append_assoc, append-nil, subst, ◌>>=◌, length, le→leb, min, arith,
}
use conjure_rust_runtime.Body.{Bytes, data_frame, trailers}
use conjure_rust_runtime.Body.Response.{
  Inner, inner_frame, inner_error, inner_end, inner_pending, take, drop, ResponseBody, new, Polled,
  item, finished, failed, pending, next_data, next_bytes, poll_next, fill, at_hand, fill_from,
  poll_fill_buf, consume, copy, poll_read,
}

-- The data of the frames, up to the end.
abbrev pub payload : List Inner → Bytes
payload [] = []
payload (inner_frame (data_frame b) ∷ is) = b ++ payload is
payload (inner_frame trailers ∷ is) = payload is
payload (inner_error ∷ is) = payload is
payload (inner_end ∷ is) = []
payload (inner_pending ∷ is) = payload is

abbrev pub unread : Bool → List Inner → Bytes
unread true is = []
unread false is = payload is

-- What is still to be read.
abbrev pub remaining : ResponseBody → Bytes
remaining r = r.cur ++ unread r.done r.inner

abbrev pub got : Polled Bytes → Bytes
got (item b) = b
got finished = []
got failed = []
got pending = []

take-drop : (n : ℕ) (bs : Bytes) → take n bs ++ drop n bs ≡ bs
take-drop zero bs = refl
take-drop (suc n) [] = refl
take-drop (suc n) (b ∷ bs) = ap (λ c. b ∷ c) (take-drop n bs)

next_data-unread :
    (d : Bool) (is : List Inner)
    → got (next_data d is).2 ++ unread (next_data d is).0 (next_data d is).1 ≡ unread d is
unfolding next_data
next_data-unread true is = refl
next_data-unread false [] = refl
next_data-unread false (inner_frame (data_frame b) ∷ is) = refl
next_data-unread false (inner_frame trailers ∷ is) = next_data-unread false is
next_data-unread false (inner_error ∷ is) = refl
next_data-unread false (inner_end ∷ is) = refl
next_data-unread false (inner_pending ∷ is) = refl

pub poll_next-remaining :
    (r : ResponseBody) → got (poll_next r).1 ++ remaining (poll_next r).0 ≡ remaining r
unfolding poll_next next_bytes
poll_next-remaining r = go r.cur refl
  where
    go :
        (c : Bytes)
        → r.cur ≡ c
        → got (next_bytes r c).1 ++ remaining (next_bytes r c).0 ≡ remaining r
    go [] e = next_data-unread r.done r.inner ∙ ap (λ c. c ++ unread r.done r.inner) (sym e)
    go (b ∷ bs) e = ap (λ c. c ++ unread r.done r.inner) (sym e)

fill-unread :
    (d : Bool) (is : List Inner)
    → got (fill d is).2 ++ unread (fill d is).0 (fill d is).1 ≡ unread d is
unfolding fill
fill-unread true is = refl
fill-unread false [] = refl
fill-unread false (inner_frame (data_frame []) ∷ is) = fill-unread false is
fill-unread false (inner_frame (data_frame (b ∷ bs)) ∷ is) = refl
fill-unread false (inner_frame trailers ∷ is) = fill-unread false is
fill-unread false (inner_error ∷ is) = refl
fill-unread false (inner_end ∷ is) = refl
fill-unread false (inner_pending ∷ is) = refl

-- What `poll_fill_buf` shows is what is at hand, and it reads nothing.
abbrev Shows : ResponseBody → ResponseBody × Polled Bytes → Type 0
Shows r (v, item b) = (remaining v ≡ remaining r) × (v.cur ≡ b)
Shows r (v, finished) = remaining v ≡ remaining r
Shows r (v, failed) = remaining v ≡ remaining r
Shows r (v, pending) = remaining v ≡ remaining r

at_hand-Shows :
    (r : ResponseBody) (f : Bool × List Inner × Polled Bytes)
    → got f.2 ++ unread f.0 f.1 ≡ remaining r
    → Shows r (at_hand f)
at_hand-Shows r (d, is, item b) e = (e, refl)
at_hand-Shows r (d, is, finished) e = e
at_hand-Shows r (d, is, failed) e = e
at_hand-Shows r (d, is, pending) e = e

fill_buf-Shows : (r : ResponseBody) → Shows r (poll_fill_buf r)
unfolding poll_fill_buf fill_from
fill_buf-Shows r = go r.cur refl
  where
    go : (c : Bytes) → r.cur ≡ c → Shows r (fill_from r c)
    go [] e =
        at_hand-Shows r (fill r.done r.inner)
          (fill-unread r.done r.inner ∙ ap (λ c. c ++ unread r.done r.inner) (sym e))
    go (b ∷ bs) e = (refl, e)

-- Consuming what is at hand, or less, does not panic and drops it from what remains.
pub consume-remaining :
    (r : ResponseBody) (amt : ℕ)
    → amt ≤ length r.cur
    → (v : ResponseBody) × (consume r amt ≡ some v) × (take amt r.cur ++ remaining v ≡ remaining r)
unfolding consume
consume-remaining r amt le = (
  record r { cur = drop amt r.cur },
  rw (le→leb amt (length r.cur) le),
  sym (append_assoc (take amt r.cur) (drop amt r.cur) (unread r.done r.inner))
      ∙ ap (λ c. c ++ unread r.done r.inner) (take-drop amt r.cur),
)

-- A read returns, and what it copied and what remains is what remained.
abbrev pub Reads : ResponseBody → Option (ResponseBody × Polled Bytes) → Type 0
Reads r none = ⊥
Reads r (some (v, p)) = got p ++ remaining v ≡ remaining r

copy-Reads :
    (room : ℕ) (r : ResponseBody) (f : ResponseBody × Polled Bytes)
    → Shows r f
    → Reads r (copy room f.0 f.1)
copy-Reads room r (v, item b) (e, c) =
    let n : ℕ = min (length b) room in
    let le : n ≤ length v.cur = subst (λ z. n ≤ length z) (sym c) (ground arith) in
    let (u, s, h) = consume-remaining v n le in
    rw (s, Reads, copy) (ap (λ z. take n z ++ remaining u) (sym c) ∙ h ∙ e)
copy-Reads room r (v, finished) e = e
copy-Reads room r (v, failed) e = e
copy-Reads room r (v, pending) e = e

pub poll_read-Reads : (r : ResponseBody) (room : ℕ) → Reads r (poll_read r room)
unfolding poll_read
poll_read-Reads r room = copy-Reads room r (poll_fill_buf r) (fill_buf-Shows r)

-- A reader's calls: `Stream::poll_next`, or `AsyncRead::poll_read` into a buffer with room for so much.
pub data Read : Type 0 where
  next : Read
  into : ℕ → Read

abbrev pub read : Read → ResponseBody → Option (ResponseBody × Polled Bytes)
read next r = some (poll_next r)
read (into room) r = poll_read r room

read-Reads : (c : Read) (r : ResponseBody) → Reads r (read c r)
read-Reads next r = poll_next-remaining r
read-Reads (into room) r = poll_read-Reads r room

-- The bytes of all the calls, whatever they answer.
unfoldable pub read_all : List Read → ResponseBody → Option (ResponseBody × Bytes)
read_all [] r = some (r, [])
read_all (c ∷ cs) r =
    read c r >>= λ (v, p). read_all cs v >>= λ (u, bytes). some (u, got p ++ bytes)

abbrev pub ReadAll : ResponseBody → Option (ResponseBody × Bytes) → Type 0
ReadAll r none = ⊥
ReadAll r (some (v, bytes)) = bytes ++ remaining v ≡ remaining r

ReadAll-after :
    (r v : ResponseBody) (p : Bytes) (o : Option (ResponseBody × Bytes))
    → p ++ remaining v ≡ remaining r
    → ReadAll v o
    → ReadAll r (o >>= λ (u, bytes). some (u, p ++ bytes))
ReadAll-after r v p none e f = f
ReadAll-after r v p (some (u, bytes)) e f =
    append_assoc p bytes (remaining u) ∙ ap (λ c. p ++ c) f ∙ e

-- A mixture of reads does not panic, and gives the bytes in order.
pub read_all-ReadAll : (cs : List Read) (r : ResponseBody) → ReadAll r (read_all cs r)
unfolding read_all
read_all-ReadAll [] r = refl
read_all-ReadAll (c ∷ cs) r = go (read c r) (read-Reads c r) (λ v. read_all-ReadAll cs v)
  where
    go :
        (o : Option (ResponseBody × Polled Bytes))
        → Reads r o
        → ((v : ResponseBody) → ReadAll v (read_all cs v))
        → ReadAll r (o >>= λ (v, p). read_all cs v >>= λ (u, bytes). some (u, got p ++ bytes))
    go none e later = e
    go (some (v, p)) e later = ReadAll-after r v (got p) (read_all cs v) e (later v)

-- The end of the body is reached.
abbrev pub AtEnd : ResponseBody → Type 0
AtEnd r = (r.done ≡ true) × (r.cur ≡ [])

AtEnd-remaining : (r : ResponseBody) → AtEnd r → remaining r ≡ []
AtEnd-remaining r (d, c) = ap (λ z. z ++ unread r.done r.inner) c ∙ ap (λ z. unread z r.inner) d

-- Reads of any kind and size that reach the end of a body have given the data of its frames.
pub read_all-payload :
    (cs : List Read) (inner : List Inner) (v : ResponseBody) (bytes : Bytes)
    → read_all cs (new inner) ≡ some (v, bytes)
    → AtEnd v
    → bytes ≡ payload inner
unfolding new
read_all-payload cs inner v bytes h e =
    sym (append-nil bytes)
    ∙ ap (λ c. bytes ++ c) (sym (AtEnd-remaining v e))
    ∙ subst (ReadAll (new inner)) h (read_all-ReadAll cs (new inner))
