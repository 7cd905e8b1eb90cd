-- ===== src/WeakCache.antt =====
-- conjure-runtime/src/weak_cache.rs: the cache of clients, which does not keep its values alive.
--
-- Keys are numbers, for the cache only compares them. The crate linked_hash_map is a parameter. Reference counts
-- are written out: when the last handle of a value is dropped, its evictor is due, and runs as a
-- step of its own, since it takes the lock. Every other method is one step under the lock.
use conjure_rust_runtime.Prelude.{
  ℕ, zero, suc, ◌+◌, ◌-◌, ◌%◌, ◌^◌, Bool, true, false, Option, none, some, List, [], ◌∷◌, get_elem?,
  ltb, ◌==◌, if◌then◌else◌, ◌>>=◌,
}
use conjure_rust_runtime.Errors.{Result, ok, err}
pub mod Entries
pub mod Insert
pub mod Invariant
pub mod Handles
pub mod Made
pub mod Steps
pub mod Lookup
mod Examples

-- `LinkedHashMap`, with values in `A`.
pub record LinkedHashMap (M A : Type 0) : Type 0 where
  pub new : M
  pub len : M → ℕ
  pub get : ℕ → M → Option A
  pub get_refresh : ℕ → M → M × Option A
  pub insert : ℕ → A → M → M
  pub remove : ℕ → M → M
  pub pop_front : M → M

-- A `Cached` with its evictor, and the number of handles.
pub record Cached (V : Type 0) : Type 0 where
  pub value : V
  pub key : ℕ
  pub id : ℕ
  pub strong : ℕ

-- `value` is a weak pointer: the address of a `Cached`, which is its ID.
pub record CachedValue : Type 0 where
  pub value : ℕ
  pub id : ℕ

abbrev pub usize_mod : ℕ
usize_mod = 2 ^ 64

-- `Inner`, the values in memory, and the evictors that are due: of which key, and of which ID.
pub record Inner (M V : Type 0) : Type 0 where
  pub cache : M
  pub capacity : ℕ
  pub next_id : ℕ
  pub objects : ℕ → Option (Cached V)
  pub dying : List (ℕ × ℕ)

pub data Event (V : Type 0) : Type 0 where
  gets : ℕ → Result V → Event V
  clones drops evicts : ℕ → Event V

abbrev pub put : {V : Type 0} → (ℕ → Option (Cached V)) → Cached V → ℕ → Option (Cached V)
put objects o i = if i == o.id then some o else objects i

abbrev pub remove_at : {A : Type 0} → ℕ → List A → List A
remove_at n [] = []
remove_at zero (x ∷ xs) = xs
remove_at (suc n) (x ∷ xs) = x ∷ remove_at n xs

module _ {V : Type 0} where
  abbrev pub if_alive : Cached V → ℕ → Option (Cached V)
  if_alive o zero = none
  if_alive o (suc n) = some o

  -- `Weak::upgrade`, less the increment.
  unfoldable pub upgrade : (ℕ → Option (Cached V)) → CachedValue → Option (Cached V)
  upgrade objects c = do o ← objects c.value; if_alive o o.strong

module _ {M : Type 0} (map : LinkedHashMap M CachedValue) where
  -- `while inner.cache.len() > inner.capacity`, on fuel.
  unfoldable pub shrink : ℕ → ℕ → M → M
  shrink capacity zero m = m
  shrink capacity (suc fuel) m =
      let rest = shrink capacity fuel (map.pop_front m) in
      if ltb capacity (map.len m) then rest else m

  -- `CacheEvictor::drop`.
  unfoldable pub drop_evictor : M → ℕ → ℕ → M
  drop_evictor m key id = elim (map.get key m) [
    | none ↦ m
    | some c ↦ if c.id == id then map.remove key m else m
  ]

module _ {M V : Type 0} where
  unfoldable pub retain : Inner M V → Cached V → ℕ → Inner M V
  retain w o zero = w
  retain w o (suc n) = record w { objects = put w.objects (record o { strong = suc (suc n) }) }

  unfoldable pub clone : Inner M V → ℕ → Inner M V
  clone w i = elim (w.objects i) [ none ↦ w | some o ↦ retain w o o.strong ]

  unfoldable pub release : Inner M V → Cached V → ℕ → Inner M V
  release w o zero = w
  release w o (suc zero) = record w {
    objects = put w.objects (record o { strong = 0 });
    dying = (o.key, o.id) ∷ w.dying;
  }
  release w o (suc (suc n)) = record w { objects = put w.objects (record o { strong = suc n }) }

  -- A handle is dropped.
  unfoldable pub drop_handle : Inner M V → ℕ → Inner M V
  drop_handle w i = elim (w.objects i) [ none ↦ w | some o ↦ release w o o.strong ]

module _ {M V : Type 0} (map : LinkedHashMap M CachedValue) where
  unfoldable pub new : ℕ → Inner M V
  new capacity = record {
    cache = map.new;
    capacity = capacity;
    next_id = 0;
    objects = λ i. none;
    dying = [];
  }

  -- The result is the address of the value.
  unfoldable pub insert_new : Inner M V → ℕ → Result V → Inner M V × Result ℕ
  insert_new w key (err e) = (w, err e)
  insert_new w key (ok v) =
      let m = map.insert key (record { value = w.next_id; id = w.next_id }) w.cache in
      (
        record {
          cache = shrink map w.capacity (map.len m) m;
          capacity = w.capacity;
          next_id = (w.next_id + 1) % usize_mod;
          objects = put w.objects (record { value = v; key = key; id = w.next_id; strong = 1 });
          dying = w.dying;
        },
        ok w.next_id,
      )

  -- After `get_refresh` and `upgrade`.
  unfoldable pub answer : Inner M V → ℕ → Result V → Option (Cached V) → Inner M V × Result ℕ
  answer w key made (some o) =
      (record w { objects = put w.objects (record o { strong = suc o.strong }) }, ok o.id)
  answer w key made none = insert_new w key made

  -- `WeakCache::get`; `made` is what `make_value` would answer.
  unfoldable pub get : Inner M V → ℕ → Result V → Inner M V × Result ℕ
  get w key made =
      let (m, found) = map.get_refresh key w.cache in
      answer (record w { cache = m }) key made (found >>= upgrade w.objects)

  unfoldable pub step : Inner M V → Event V → Inner M V
  step w (gets key made) = (get w key made).0
  step w (clones i) = clone w i
  step w (drops i) = drop_handle w i
  step w (evicts n) = elim (get_elem? w.dying n) [
    | none ↦ w
    | some (key, id) ↦ record w {
      cache = drop_evictor map w.cache key id;
      dying = remove_at n w.dying;
    }
  ]

  unfoldable pub run : Inner M V → List (Event V) → Inner M V
  run w [] = w
  run w (e ∷ es) = run (step w e) es
