-- ===== src/Limiter/Rules.antt =====
-- What is relied on of `f64`.
use conjure_rust_runtime.Prelude.{ℕ, ◌≤◌, ◌≡◌, true, min, max}
use conjure_rust_runtime.Limiter.{Float}

-- Conversion to `usize` saturates, and gives 0 for NaN; `min` and `max` prefer a number to NaN. So
-- each of these holds for every `f64`.
pub record Rules {F : Type 0} (float : Float F) : Type 0 where
  pub to_usize-of_nat : (n : ℕ) → n ≤ 1_000_000 → float.to_usize (float.of_nat n) ≡ n
  pub fmin-below :
      (n : ℕ) (x : F) → n ≤ 1_000_000 → float.to_usize (float.fmin (float.of_nat n) x) ≤ n
  pub fmin-above :
      (n : ℕ) (x : F)
      → n ≤ 1_000_000
      → min n (float.to_usize x) ≤ float.to_usize (float.fmin (float.of_nat n) x)
  pub fmax-above :
      (n : ℕ) (x : F) → n ≤ 1_000_000 → n ≤ float.to_usize (float.fmax (float.of_nat n) x)
  pub fmax-below :
      (n : ℕ) (x : F)
      → n ≤ 1_000_000
      → float.to_usize (float.fmax (float.of_nat n) x) ≤ max n (float.to_usize x)
  -- What is at least 1 grows when its inverse is added.
  pub add-div :
      (x : F)
      → 1 ≤ float.to_usize x
      → float.to_usize x ≤ float.to_usize (float.add x (float.div (float.of_nat 1) x))
  -- Nine tenths of it, rounded down, are not more than it.
  pub floor-mul :
      (x : F) → float.to_usize (float.floor (float.mul x float.backoff_ratio)) ≤ float.to_usize x
  pub same_bits-eq : (x y : F) → float.same_bits x y ≡ true → x ≡ y
  pub same_bits-refl : (x : F) → float.same_bits x x ≡ true
