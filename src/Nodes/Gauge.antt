-- ===== src/Nodes/Gauge.antt =====
-- conjure-runtime/src/util/weak_reducing_gauge.rs: a value of all the entries that are still alive.
--
-- An entry is an address, and `upgrade` gives its value while it is alive.
use conjure_rust_runtime.Prelude.{ℕ, ◌+◌, ◌≡◌, refl, ap, Option, none, some, List, [], ◌∷◌, ◌++◌}

-- `Reduce`; `reduce` stores its result in its first argument.
pub record Reduce (I V : Type 0) : Type 0 where
  pub default : V
  pub map : I → V
  pub reduce : V → V → V

-- `InFlightReducer`, over the counts of the limiters.
abbrev pub in_flight_reducer : Reduce ℕ ℕ
in_flight_reducer = record { default = 0; map = λ n. n; reduce = λ a b. a + b }

module _ {I V : Type 0} (reducer : Reduce I V) (upgrade : ℕ → Option I) where
  abbrev pub push : ℕ → List ℕ → List ℕ
  push e entries = entries ++ e ∷ []

  -- `match &mut value`
  abbrev pub add : Option V → V → Option V
  add none new = some new
  add (some v) new = some (reducer.reduce v new)

  abbrev pub retain_one : ℕ → Option I → List ℕ → List ℕ
  retain_one e none rest = rest
  retain_one e (some i) rest = e ∷ rest

  abbrev pub add_one : Option V → Option I → Option V
  add_one v none = v
  add_one v (some i) = add v (reducer.map i)

  -- The closure of `retain`, over the entries: those that are kept, and the value.
  unfoldable pub reduce_all : Option V → List ℕ → List ℕ × Option V
  reduce_all v [] = ([], v)
  reduce_all v (e ∷ es) =
      let (kept, w) = reduce_all (add_one v (upgrade e)) es in (retain_one e (upgrade e) kept, w)

  abbrev pub or_default : Option V → V
  or_default none = reducer.default
  or_default (some v) = v

  -- `Gauge::value`: the entries after it, and the value.
  unfoldable pub value : List ℕ → List ℕ × V
  value entries = let (kept, v) = reduce_all none entries in (kept, or_default v)

  retain_again : (v : Option V) (es : List ℕ) → reduce_all v (reduce_all v es).0 ≡ reduce_all v es
  unfolding reduce_all
  retain_again v [] = refl
  retain_again v (e ∷ es) = go (upgrade e) refl (retain_again (add_one v (upgrade e)) es)
    where
      go :
          (o : Option I)
          → upgrade e ≡ o
          → reduce_all (add_one v o) (reduce_all (add_one v o) es).0 ≡ reduce_all (add_one v o) es
          → reduce_all v (retain_one e o (reduce_all (add_one v o) es).0)
            ≡ (retain_one e o (reduce_all (add_one v o) es).0, (reduce_all (add_one v o) es).1)
      go none z later = later
      go (some i) z later = rw (z) (ap (λ r. (e ∷ r.0, r.1)) later)

  -- Entries that are gone do not count: after them the gauge has the same value, and nothing more to clean up.
  value-again : (entries : List ℕ) → value (value entries).0 ≡ value entries
  unfolding value
  value-again entries = ap (λ r. (r.0, or_default r.1)) (retain_again none entries)
