-- ===== src/Sdk/Dec.antt =====
-- The SDK's decimals (`sdk.Dec`, `math.LegacyDec`): an integer count of units of 10^-18. Sums,
-- orders and the conversions from and to integers are exact on that count, and written as such;
-- the rounded operations are parameters with their documented bounds as laws.
pub mod Rounding
use pstake_native_test.Base.{ℕ, suc, ◌+◌, ◌*◌, ◌/◌, ◌^◌, ◌≤◌, ◌<◌, ◌≡◌}
use pstake_native_test.Base.Int.{ℤ, pos, pos_part}

-- The units of `sdk.OneDec()`.
abbrev pub one : ℕ
one = 10 ^ 18

-- `sdk.NewDecFromInt` and `.TruncateInt()` of a decimal that is not negative.
abbrev pub of_int : ℕ → ℕ
of_int n = n * one

abbrev pub truncate_int : ℕ → ℕ
truncate_int d = d / one

-- `.TruncateDec()`
abbrev pub truncate_dec : ℕ → ℕ
truncate_dec d = d / one * one

-- The rounded operations. A division by zero panics, and is ruled out by whoever calls it.
pub record DecOps : Type 0 where
  pub mul : ℤ → ℤ → ℤ
  pub quo : ℕ → ℕ → ℕ
  pub mul_truncate : ℕ → ℕ → ℕ
  pub quo_truncate : ℕ → ℕ → ℕ

-- `Mul` and `Quo` return a nearest decimal; `MulTruncate` and `QuoTruncate` round towards zero.
pub record DecLaws (d : DecOps) : Type 0 where
  pub mul_nearest :
      (a b : ℕ)
      → (2 * (pos_part (d.mul (pos a) (pos b)) * one) ≤ 2 * (a * b) + one)
        × (2 * (a * b) ≤ 2 * (pos_part (d.mul (pos a) (pos b)) * one) + one)
  pub mul_nonneg : (a b : ℕ) → d.mul (pos a) (pos b) ≡ pos (pos_part (d.mul (pos a) (pos b)))
  pub quo_nearest :
      (a b : ℕ)
      → 0 < b
      → (2 * (d.quo a b * b) ≤ 2 * (a * one) + b) × (2 * (a * one) ≤ 2 * (d.quo a b * b) + b)
  pub mul_truncate_floor :
      (a b : ℕ) → (d.mul_truncate a b * one ≤ a * b) × (a * b < d.mul_truncate a b * one + one)
  pub quo_truncate_floor :
      (a b : ℕ)
      → 0 < b
      → (d.quo_truncate a b * b ≤ a * one) × (a * one < d.quo_truncate a b * b + b)
