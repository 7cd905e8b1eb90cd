-- ===== src/HttpError/Body.antt =====
-- How much of the body of an error response is read.
use conjure_rust_runtime.Prelude.{
  ℕ, ◌+◌, ◌≤◌, ◌<◌, ◌≡◌, refl, sym, Bool-cases, List, [], ◌∷◌, ◌++◌, length, length-append,
  append_assoc, ltb, ltb→lt, ltb→ge, arith, ◌⊎◌, inl, inr,
}
use conjure_rust_runtime.HttpError.{Chunk, data_chunk, read_error, read_body, body_limit}

-- The chunks before the first failure, in a row.
abbrev pub contents : List Chunk → List ℕ
contents [] = []
contents (read_error ∷ chunks) = []
contents (data_chunk c ∷ chunks) = c ++ contents chunks

-- No chunk is longer than `n`.
abbrev pub AllShort : ℕ → List Chunk → Type 0
AllShort n [] = Unit {0}
AllShort n (read_error ∷ chunks) = AllShort n chunks
AllShort n (data_chunk c ∷ chunks) = (length c ≤ n) × AllShort n chunks

-- What is read of a body with these contents, up to chunks of `n` bytes.
abbrev pub ReadsUpTo : ℕ → List ℕ → List ℕ → Type 0
ReadsUpTo n whole bytes =
    (length bytes ≤ body_limit + n)
    × (rest : List ℕ) × (whole ≡ bytes ++ rest)
    × ((rest ≡ []) ⊎ (body_limit < length bytes))

read_from :
    (n : ℕ) (read : List ℕ) (chunks : List Chunk)
    → length read ≤ body_limit
    → AllShort n chunks
    → ReadsUpTo n (read ++ contents chunks) (read_body read chunks)
unfolding read_body
read_from n read [] h short = (omega arith, [], refl, inl refl)
read_from n read (read_error ∷ chunks) h short = (omega arith, [], refl, inl refl)
read_from n read (data_chunk c ∷ chunks) h (now, later) =
    elim (Bool-cases (ltb body_limit (length (read ++ c)))) [
      | inl e ↦ rw e (
        omega (arith, length-append read c),
        contents chunks,
        sym (append_assoc read c (contents chunks)),
        inr (ltb→lt body_limit (length (read ++ c)) e),
      )
      | inr e ↦
          rw (e, sym (append_assoc read c (contents chunks)))
            (read_from n (read ++ c) chunks (ltb→ge body_limit (length (read ++ c)) e) later)
    ]

-- What is read of the body is a prefix of what arrives before a failure, all of it or more than
-- 500 KiB, and at most one chunk above 500 KiB.
pub read_body_lem :
    (n : ℕ) (chunks : List Chunk)
    → AllShort n chunks
    → ReadsUpTo n (contents chunks) (read_body [] chunks)
read_body_lem n chunks short = read_from n [] chunks (omega arith) short
