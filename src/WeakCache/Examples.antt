-- ===== src/WeakCache/Examples.antt =====
-- Tests of the cache, with a list for the linked hash map, and its theorems at concrete calls.
use conjure_rust_runtime.Prelude.{ℕ, ◌≡◌, refl, List, [], ◌∷◌, length, arith}
use conjure_rust_runtime.Errors.{internal, other_error, ok, err}
use conjure_rust_runtime.WeakCache.{
  LinkedHashMap, CachedValue, Inner, Event, gets, clones, drops, evicts, new, get, insert_new,
  answer, upgrade, shrink, clone, retain, drop_handle, release, drop_evictor, step, run,
}
use conjure_rust_runtime.WeakCache.Entries.{Laws, find, delete, put_back, refresh, tail}
use conjure_rust_runtime.WeakCache.Invariant.{Inv}
use conjure_rust_runtime.WeakCache.Steps.{run-Inv}
use conjure_rust_runtime.WeakCache.Lookup.{Got, get-Got}

abbrev Entries : Type 0
Entries = List (ℕ × CachedValue)

abbrev list_map : LinkedHashMap Entries CachedValue
list_map = record {
  new = [];
  len = length;
  get = find;
  get_refresh = λ k xs. (refresh k xs (find k xs), find k xs);
  insert = put_back;
  remove = delete;
  pop_front = tail;
}

list_map-Laws : Laws list_map
list_map-Laws = record {
  entries = λ xs. xs;
  entries-new = refl;
  len_lem = λ m. refl;
  get_lem = λ k m. refl;
  get_refresh_lem = λ k m. refl;
  entries-get_refresh = λ k m. refl;
  entries-insert = λ k a m. refl;
  entries-remove = λ k m. refl;
  entries-pop_front = λ m. refl;
}

abbrev runs : Unit {0}
unfolding run step get answer insert_new upgrade shrink clone retain drop_handle release
    drop_evictor new
runs = tt

-- Of three keys the first is evicted, for it was not used again.
abbrev full : List (Event ℕ)
full = gets 10 (ok 1) ∷ gets 11 (ok 2) ∷ gets 10 (ok 3) ∷ gets 12 (ok 4) ∷ []

abbrev keys : Entries → List ℕ
keys [] = []
keys ((k, c) ∷ xs) = k ∷ keys xs

full-keys : keys (run list_map (new list_map 2) full).cache ≡ 10 ∷ 12 ∷ []
unfolding runs
full-keys = refl

-- A value is made again between the last drop of the old one and its evictor, which leaves the new
-- one alone.
abbrev overlapping : List (Event ℕ)
overlapping = gets 10 (ok 1) ∷ drops 0 ∷ gets 10 (ok 2) ∷ evicts 0 ∷ []

overlapping_entry :
    (run list_map (new list_map 2) overlapping).cache ≡ (10, record { value = 1; id = 1 }) ∷ []
unfolding runs
overlapping_entry = refl

-- The entry goes with the last handle.
abbrev used_twice : List (Event ℕ)
used_twice = gets 10 (ok 1) ∷ clones 0 ∷ drops 0 ∷ drops 0 ∷ evicts 0 ∷ []

cleaned : (run list_map (new list_map 2) used_twice).cache ≡ []
unfolding runs
cleaned = refl

run-Inv_example : Inv list_map-Laws 4 (run list_map (new list_map 2) overlapping)
run-Inv_example = run-Inv list_map-Laws 2 overlapping (omega arith)

abbrev one_client : Inner Entries ℕ
one_client = run list_map (new list_map 2) (gets 10 (ok 1) ∷ [])

get-Got_example :
    Got list_map-Laws one_client 10
      (err (internal other_error))
      (get list_map one_client 10 (err (internal other_error)))
get-Got_example = get-Got list_map-Laws one_client 10 (err (internal other_error))
