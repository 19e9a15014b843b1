-- ===== src/Sdk/Dec/Rounding.antt =====
-- An implementation of the decimal operations by integer division, which meets the laws.
use pstake_native_test.Base.{ℕ, suc, ◌+◌, ◌*◌, ◌/◌, ◌≤◌, ◌<◌, refl, arith}
use pstake_native_test.Base.Int.{ℤ, pos, negsuc, sub_ℕ}
use pstake_native_test.Sdk.Dec.{one, DecOps, DecLaws}

-- The nearest multiple of `b`, a tie going up.
abbrev pub nearest : ℕ → ℕ → ℕ
nearest a b = (2 * a + b) / (2 * b)

-- A product by the size of its factors.
abbrev pub signed_mul : ℤ → ℤ → ℤ
signed_mul (pos a) (pos b) = pos (nearest (a * b) one)
signed_mul (pos a) (negsuc b) = sub_ℕ 0 (nearest (a * suc b) one)
signed_mul (negsuc a) (pos b) = sub_ℕ 0 (nearest (suc a * b) one)
signed_mul (negsuc a) (negsuc b) = pos (nearest (suc a * suc b) one)

abbrev pub integer_ops : DecOps
integer_ops = record {
  mul = signed_mul;
  quo = λ a b. nearest (a * one) b;
  mul_truncate = λ a b. a * b / one;
  quo_truncate = λ a b. a * one / b;
}

floor_bounds : (n b : ℕ) → 0 < b → (n / b * b ≤ n) × (n < n / b * b + b)
floor_bounds n b h = grind arith

nearest_bounds :
    (a b : ℕ) → 0 < b → (2 * (nearest a b * b) ≤ 2 * a + b) × (2 * a ≤ 2 * (nearest a b * b) + b)
nearest_bounds a b h = omega (arith, floor_bounds (2 * a + b) (2 * b) (omega arith))

-- The operations meet the documented bounds.
pub integer_ops-DecLaws : DecLaws integer_ops
integer_ops-DecLaws = record {
  mul_nearest = λ a b. nearest_bounds (a * b) one (omega arith);
  mul_nonneg = λ a b. refl;
  quo_nearest = λ a b h. nearest_bounds (a * one) b h;
  mul_truncate_floor = λ a b. floor_bounds (a * b) one (omega arith);
  quo_truncate_floor = λ a b h. floor_bounds (a * one) b h;
}
