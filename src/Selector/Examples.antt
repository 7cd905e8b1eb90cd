-- ===== src/Selector/Examples.antt =====
-- Tests of the selectors, and the theorems at concrete nodes.
use conjure_rust_runtime.Prelude.{
  ℕ, suc, ◌+◌, ◌%◌, ◌≡◌, refl, Bool, ◌&&◌, some, List, [], ◌∷◌, ◌++◌, length, leb, if◌then◌else◌,
  arith,
}
use conjure_rust_runtime.Errors.{internal, other_error, Result, ok, err}
use conjure_rust_runtime.Selector.{
  ReshufflingNodes, Shuffle, with_entropy, reshuffle_if_necessary, get, begin_call, end_call,
  rotate, rotate_all, pin_first, increment_host, new_layer, pin_until_error, single_selector,
  empty_selector,
}
use conjure_rust_runtime.Selector.Shuffles.{
  Permutes, count, IsValid, Reaches, get-IsValid, with_entropy-IsValid,
}
use conjure_rust_runtime.Selector.Pins.{
  any_failed, rotate_all_lem, begins, ends, calls, calls-begin_call,
}

abbrev server_error : ℕ → Bool
server_error status = leb 500 status && leb status 599

abbrev rotate_left : Shuffle
rotate_left [] = []
rotate_left (x ∷ xs) = xs ++ x ∷ []

length-snoc : (x : ℕ) (xs : List ℕ) → length (xs ++ x ∷ []) ≡ suc (length xs)
length-snoc x [] = refl
length-snoc x (y ∷ xs) = omega (arith, length-snoc x xs)

count-snoc : (j x : ℕ) (xs : List ℕ) → count j (xs ++ x ∷ []) ≡ count j (x ∷ xs)
count-snoc j x [] = refl
count-snoc j x (y ∷ xs) = omega (arith, count-snoc j x xs)

rotate_left-Permutes : Permutes rotate_left
rotate_left-Permutes [] = (refl, λ j. refl)
rotate_left-Permutes (x ∷ xs) = (length-snoc x xs, λ j. count-snoc j x xs)

abbrev runs : Unit {0}
unfolding with_entropy reshuffle_if_necessary get begin_call end_call rotate increment_host
    new_layer
runs = tt

abbrev three_nodes : ReshufflingNodes ℕ
three_nodes = with_entropy (10 ∷ 11 ∷ 12 ∷ []) rotate_left 0 5

three_nodes_order : three_nodes.shuffle ≡ 1 ∷ 2 ∷ 0 ∷ []
unfolding runs
three_nodes_order = refl

-- After ten minutes the order is another one.
reshuffled : (get three_nodes rotate_left 600_000_000_000 570_000_000_000 0).1 ≡ some 12
unfolding runs
reshuffled = refl

layers : new_layer {T = ℕ} pin_until_error (7 ∷ []) ≡ single_selector 7
unfolding runs
layers = refl

no_layers : new_layer {T = ℕ} pin_until_error [] ≡ empty_selector
unfolding runs
no_layers = refl

three_nodes-IsValid : IsValid three_nodes
three_nodes-IsValid = with_entropy-IsValid (10 ∷ 11 ∷ 12 ∷ []) rotate_left 0 5 rotate_left-Permutes

get-IsValid_example :
    let r = get three_nodes rotate_left 600_000_000_000 570_000_000_000 2 in
    IsValid r.0 × (r.0.nodes ≡ three_nodes.nodes) × Reaches r.0 × ((x : ℕ) × (r.1 ≡ some x))
unfolding with_entropy
get-IsValid_example =
    get-IsValid three_nodes rotate_left 600_000_000_000 570_000_000_000 2 rotate_left-Permutes
      three_nodes-IsValid (omega arith)

abbrev outage : List (Result ℕ)
outage = ok 500 ∷ err (internal other_error) ∷ ok 503 ∷ []

rotate_all_lem_example :
    rotate_all server_error 3 2 outage 2
    ≡ (if any_failed server_error outage then (2 + 1) % 3 else 2)
rotate_all_lem_example = rotate_all_lem server_error 3 2 outage (omega arith) (omega arith)

calls-begin_call_example :
    (x : ℕ) × ((begin_call
        (calls server_error
          (pin_first (with_entropy (10 ∷ 11 ∷ []) rotate_left 0 5))
          (begins rotate_left 6 570_000_000_000 ∷ ends 0 (ok 500) ∷ []))
        rotate_left
        600_000_000_000
        570_000_000_000).1
      ≡ some x)
calls-begin_call_example =
    calls-begin_call server_error (10 ∷ 11 ∷ []) rotate_left 0 5
      (begins rotate_left 6 570_000_000_000 ∷ ends 0 (ok 500) ∷ []) rotate_left 600_000_000_000
      570_000_000_000 (omega arith) rotate_left-Permutes (rotate_left-Permutes, tt)
      rotate_left-Permutes
