-- ===== src/Gzip/Examples.antt =====
-- Tests of the decompression, and its theorem for a concrete decoder.
use conjure_rust_runtime.Prelude.{
  ◌≡◌, refl, sym, ap, ◌∙◌, true, false, none, some, some-injective, List, [], ◌∷◌, ◌++◌,
  append_assoc, append-nil,
}
use conjure_rust_runtime.Body.{Bytes}
use conjure_rust_runtime.Body.Delivered.{data_in}
use conjure_rust_runtime.Gzip.{
  Decoder, Inner, chunk, trailers_frame, not_ready, decompressing, done, accept_encoding, respond,
  poll_frame, decompress, finish, collect, gzip,
}
use conjure_rust_runtime.Gzip.Decoded.{Laws, Fails, last_is_trailers}
use conjure_rust_runtime.Gzip.Collected.{collect-Reads}

-- Each byte means itself.
abbrev stored : Decoder Bytes
stored = record {
  new = [];
  write_all = λ d b. some (d ++ b);
  flush = λ d. some d;
  try_finish = λ d. some d;
  output = λ d. d;
  split = λ d. [];
}

stored_laws : Laws stored
stored_laws = record {
  decoded = λ i. some i;
  Fed = λ d i o. i ≡ o ++ d;
  new_lem = refl;
  write_all_lem = λ d e i o b f g.
      ap (λ c. c ++ b) f ∙ append_assoc o d b ∙ ap (λ c. o ++ c) (some-injective g);
  flush_lem = λ d e i o f g. f ∙ ap (λ c. o ++ c) (some-injective g);
  split_lem = λ d i o f. f ∙ sym (append-nil (o ++ d));
  try_finish_lem = λ d e i o f g. ap some (f ∙ ap (λ c. o ++ c) (some-injective g));
}

abbrev some_body : List Inner
some_body =
    chunk [] false
    ∷ chunk (1 ∷ 2 ∷ []) false
    ∷ not_ready
    ∷ chunk (3 ∷ []) false
    ∷ trailers_frame
    ∷ []

gzip_calls : Unit {0}
unfolding accept_encoding respond poll_frame decompress finish collect
gzip_calls = tt

headers_test :
    respond stored (record { content_encoding = some gzip; content_length = some 7 })
    ≡ (record { content_encoding = none; content_length = none }, decompressing [])
unfolding gzip_calls
headers_test = refl

other_encoding_test : (accept_encoding (some 4) ≡ some 4) × (accept_encoding none ≡ some gzip)
unfolding gzip_calls
other_encoding_test = (refl, refl)

-- After an error the rest of the body comes as it is.
error_test : (poll_frame stored done (chunk (9 ∷ []) false ∷ [])).0 ≡ done
unfolding gzip_calls
error_test = refl

collect-Reads_example :
    (some (1 ∷ 2 ∷ 3 ∷ []) ≡ some (data_in (collect stored 7 (decompressing []) some_body).0))
    × (last_is_trailers (collect stored 7 (decompressing []) some_body).0 ≡ true)
    × (¬ Fails some_body)
unfolding gzip_calls stored_laws
collect-Reads_example = collect-Reads stored stored_laws some_body refl
