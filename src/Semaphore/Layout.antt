-- ===== src/Semaphore/Layout.antt =====
-- The linked list that stands for a queue: which node lies at which address.
use mathlib.Core.Bool.{or_assoc}
use conjure_rust_runtime.Prelude.{
  ◌≡◌, refl, true, false, ◌||◌, Option, none, some, [], ◌∷◌, ◌++◌, ◌==◌, if◌then◌else◌, arith, inl,
  inr, ap, Bool-cases,
}
use conjure_rust_runtime.Semaphore.{FutureId, Waker, Node}
use conjure_rust_runtime.Semaphore.Queue.{Waiters, has}

abbrev pub node : Option Waker → Option FutureId → Option FutureId → Node
node w n p = record { waker = w; next = n; prev = p }

-- The first waiter of `xs`, or what follows.
abbrev pub first_or : Waiters → Option FutureId → Option FutureId
first_or [] e = e
first_or ((a, w) ∷ xs) e = some a

-- The last waiter of `xs`, or what comes before.
abbrev pub last_or : Option FutureId → Waiters → Option FutureId
last_or p [] = p
last_or p ((a, w) ∷ xs) = last_or (some a) xs

-- The node at address `j`, where the segment `xs` stands between `p` and `e`.
abbrev pub layout : Option FutureId → Waiters → Option FutureId → FutureId → Option Node
layout p [] e j = none
layout p ((a, w) ∷ xs) e j =
    if j == a then some (node w (first_or xs e) p) else layout (some a) xs e j

abbrev pub or_else : Option Node → Option Node → Option Node
or_else none b = b
or_else (some a) b = some a

abbrev pub Distinct : Waiters → Type 0
Distinct [] = Unit {0}
Distinct ((a, w) ∷ xs) = (has a xs ≡ false) × Distinct xs

pub has-append : (j : FutureId) (xs ys : Waiters) → has j (xs ++ ys) ≡ (has j xs || has j ys)
has-append j [] ys = refl
has-append j ((a, w) ∷ xs) ys = rw (has-append j xs ys, or_assoc)

pub first_or-append :
    (xs ys : Waiters) (e : Option FutureId) → first_or (xs ++ ys) e ≡ first_or xs (first_or ys e)
first_or-append [] ys e = refl
first_or-append (x ∷ xs) ys e = refl

pub last_or-append :
    (p : Option FutureId) (xs ys : Waiters) → last_or p (xs ++ ys) ≡ last_or (last_or p xs) ys
last_or-append p [] ys = refl
last_or-append p ((a, w) ∷ xs) ys = last_or-append (some a) xs ys

pub layout-append :
    (p : Option FutureId) (xs ys : Waiters) (e : Option FutureId) (j : FutureId)
    → layout p (xs ++ ys) e j
      ≡ or_else (layout p xs (first_or ys e) j) (layout (last_or p xs) ys e j)
layout-append p [] ys e j = refl
layout-append p ((a, w) ∷ xs) ys e j =
    ground (arith, layout-append (some a) xs ys e j, first_or-append xs ys e)

pub layout-none :
    (p : Option FutureId) (xs : Waiters) (e : Option FutureId) (j : FutureId)
    → has j xs ≡ false
    → layout p xs e j ≡ none
layout-none p [] e j h = refl
layout-none p ((a, w) ∷ xs) e j h = ground (arith, layout-none (some a) xs e j)

-- Where a waiter stands in the queue.
pub has_split :
    (j : FutureId) (xs : Waiters)
    → has j xs ≡ true
    → (ys : Waiters) × (w : Option Waker) × (zs : Waiters) × (xs ≡ ys ++ (j, w) ∷ zs)
has_split j [] h = cc
has_split j ((a, w) ∷ xs) h = elim (Bool-cases (j == a)) [
  | inl e ↦ ([], w, xs, ground arith)
  | inr e ↦
      let (ys, v, zs, p) = has_split j xs (ground arith) in ((a, w) ∷ ys, v, zs, ap (◌∷◌ (a, w)) p)
]

pub Distinct-append :
    (xs ys : Waiters)
    → Distinct (xs ++ ys)
    → Distinct xs × Distinct ys × ((j : FutureId) → has j xs ≡ true → has j ys ≡ false)
Distinct-append [] ys d = (tt, d, λ j h. cc)
Distinct-append ((a, w) ∷ xs) ys d =
    let (dx, dy, apart) = Distinct-append xs ys d.1 in
    (
      (ground (arith, has-append a xs ys), dx),
      dy,
      λ j h. ground (arith, has-append a xs ys, apart j),
    )

pub append-Distinct :
    (xs ys : Waiters)
    → Distinct xs
    → Distinct ys
    → ((j : FutureId) → has j xs ≡ true → has j ys ≡ false)
    → Distinct (xs ++ ys)
append-Distinct [] ys dx dy apart = dy
append-Distinct ((a, w) ∷ xs) ys dx dy apart = (
  ground (arith, has-append a xs ys, apart a),
  append-Distinct xs ys dx.1 dy λ j h. apart j (ground arith),
)

-- The node of a waiter in the middle of the queue.
pub layout_at :
    (p : Option FutureId) (ys : Waiters) (j : FutureId) (w : Option Waker) (zs : Waiters)
    (e : Option FutureId)
    → has j ys ≡ false
    → layout p (ys ++ (j, w) ∷ zs) e j ≡ some (node w (first_or zs e) (last_or p ys))
layout_at p ys j w zs e h =
    ground
      (arith, layout-append p ys ((j, w) ∷ zs) e j, layout-none p ys (first_or ((j, w) ∷ zs) e) j)

-- What distinctness says of one waiter among the others.
pub record Alone (ys : Waiters) (j : FutureId) (zs : Waiters) : Type 0 where
  pub before : has j ys ≡ false
  pub after : has j zs ≡ false
  pub rest : Distinct (ys ++ zs)

pub Distinct-Alone :
    (ys : Waiters) (j : FutureId) (w : Option Waker) (zs : Waiters)
    → Distinct (ys ++ (j, w) ∷ zs)
    → Alone ys j zs
Distinct-Alone ys j w zs d =
    let (dx, dy, apart) = Distinct-append ys ((j, w) ∷ zs) d in
    record {
      before = ground (arith, apart j);
      after = dy.0;
      rest = append-Distinct ys zs dx dy.1 λ i h. ground (arith, apart i);
    }
