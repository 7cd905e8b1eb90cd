-- ===== src/Retry/Jitter.antt =====
-- The backoff: no panic within its bounds, and at most the exponential bound.
use native.Mathlib.Nat.{pow-le-pow_right, le_trans, mul-le-mul_left}
use conjure_rust_runtime.Prelude.{
  ℕ, ◌+◌, ◌*◌, ◌^◌, ◌≤◌, ◌<◌, ◌≡◌, refl, Bool, none, some, ◌⊎◌, inl, inr, Bool-cases, ◌==◌, ==_iff,
  lt→ltb, le→leb, arith,
}
use conjure_rust_runtime.Errors.{Duration}
use conjure_rust_runtime.Retry.Request.{RetryService}
use conjure_rust_runtime.Retry.Backoff.{backoff, add_one, sub_one, shift_one, times, duration_max}

-- The settings for which the arithmetic of the backoff is exact.
pub record IsModest (svc : RetryService) : Type 0 where
  pub retries : svc.max_num_retries ≤ 32
  pub slot : svc.backoff_slot_size * 2 ^ 31 ≤ duration_max

-- A time drawn below `bound`; none at all if the bound is zero.
abbrev pub Jittered : Duration → Duration → Type 0
Jittered bound d = ((bound ≡ 0) × (d ≡ 0)) ⊎ (d < bound)

pub add_one_small : (checks : Bool) (i : ℕ) → i ≤ 32 → add_one checks i ≡ some (i + 1)
unfolding add_one
add_one_small checks i h = ground arith

sub_one_small : (checks : Bool) (i : ℕ) → i ≤ 32 → sub_one checks (i + 1) ≡ some i
unfolding sub_one
sub_one_small checks i h = ground arith

shift_one_small : (checks : Bool) (i : ℕ) → i < 32 → shift_one checks i ≡ some (2 ^ i)
unfolding shift_one
shift_one_small checks i h = rw (lt→ltb i 32 h)

times_small : (d i : ℕ) → i ≤ 31 → d * 2 ^ 31 ≤ duration_max → times d (2 ^ i) ≡ some (d * 2 ^ i)
unfolding times
times_small d i h bound = rw (
    le→leb (d * 2 ^ i) duration_max
      (le_trans (mul-le-mul_left d (pow-le-pow_right {n = 2} (omega arith) h)) bound))

-- What `backoff` answers: the time that the server asked for, or one drawn below the slot size
-- doubled for each retry before.
pub backoff_lem :
    (svc : RetryService) (random_range : ℕ → ℕ) (i : ℕ)
    → IsModest svc
    → ((max : ℕ) → 0 < max → random_range max < max)
    → i < svc.max_num_retries
    → (d : Duration) × (backoff svc random_range (i + 1) none ≡ some d)
      × Jittered (svc.backoff_slot_size * 2 ^ i) d
unfolding backoff
backoff_lem svc random_range i m draws h =
    rw
      (
        sub_one_small svc.overflow_checks i (omega arith),
        shift_one_small svc.overflow_checks i small,
        times_small svc.backoff_slot_size i (omega arith) m.slot,
      )
      (elim (Bool-cases (top == 0)) [
        | inl e ↦ (0, rw e, inl ((==_iff top 0).0 e, refl))
        | inr e ↦ (random_range top, rw e, inr (draws top (ground arith)))
      ])
  where
    small : i < 32
    small = omega (arith, m.retries)

    top : ℕ
    top = svc.backoff_slot_size * 2 ^ i
