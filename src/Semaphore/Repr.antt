-- ===== src/Semaphore/Repr.antt =====
-- The state that stands for a queue.
use conjure_rust_runtime.Prelude.{
  ◌≡◌, false, Option, none, some, ◌∷◌, ◌++◌, fun_ext, ◌==◌, if◌then◌else◌, arith,
}
use conjure_rust_runtime.Semaphore.{FutureId, Waker, Node, State, update}
use conjure_rust_runtime.Semaphore.Queue.{Queue, Waiters, has}
use conjure_rust_runtime.Semaphore.Layout.{node, layout, first_or, last_or, or_else, layout-none}

abbrev pub concrete : Queue → State
concrete q = record {
  total_permits = q.total;
  outstanding_permits = q.outstanding;
  head = first_or q.waiters none;
  tail = last_or none q.waiters;
  nodes = layout none q.waiters none;
  woken = q.woken;
}

-- The nodes of `ys` and `zs` with the node `n` of `id` among them, where `ys` leads to `e`, and
-- `zs` back to `p`.
abbrev pub between :
    Waiters → Waiters → FutureId → Node → Option FutureId → Option FutureId → FutureId → Option Node
between ys zs id n e p j =
    or_else (layout none ys e j) (if j == id then some n else layout p zs none j)

-- To drop the node of a future that is not queued leaves the list.
pub update-none :
    (xs : Waiters) (id : FutureId) (n : Option Node)
    → has id xs ≡ false
    → update (update (layout none xs none) id n) id none ≡ layout none xs none
update-none xs id n h = fun_ext λ j. ground (arith, layout-none none xs none id)

abbrev pub with_waiters : Queue → Waiters → Queue
with_waiters q xs = record q { waiters = xs }

-- The state between the two halves of `dequeue`, and after them.
abbrev pub half_unlinked : Queue → Waiters → FutureId → Option Waker → Waiters → State
half_unlinked q ys id w zs = record (concrete (with_waiters q (ys ++ (id, w) ∷ zs))) {
  head = first_or (ys ++ zs) none;
  nodes =
      between ys zs id (node w (first_or zs none) (last_or none ys)) (first_or zs none) (some id);
}

abbrev pub unlinked : Queue → Waiters → FutureId → Option Waker → Waiters → State
unlinked q ys id w zs = record (concrete (with_waiters q (ys ++ zs))) {
  nodes =
      between ys zs id (node w (first_or zs none) (last_or none ys)) (first_or zs none)
        (last_or none ys);
}
