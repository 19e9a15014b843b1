-- ===== src/Ibc/Epoch.antt =====
-- The epochs at which a host chain unbonds (x/liquidstakeibc/types/liquidstakeibc.go).
use pstake_native_test.Base.{
  ℕ, ◌+◌, ◌-◌, ◌%◌, ◌^◌, ◌≤◌, ◌<◌, ◌≡◌, Bool, true, arith, ltb, ◌==◌, if◌then◌else◌, Outcome, ok,
  panic, Bool-cases, inl, inr,
}
use pstake_native_test.Base.Int.{ℤ, pos, negsuc}
use pstake_native_test.Ibc.Types.{Error}

-- An `int64` from the sum of its bits.
abbrev pub int64 : ℕ → ℤ
int64 n = let m = n % 2 ^ 64 in if ltb m (2 ^ 63) then pos m else negsuc (2 ^ 64 - 1 - m)

-- A remainder by zero panics.
unfoldable pub is_unbonding_epoch : ℕ → ℕ → Outcome Error Bool
is_unbonding_epoch factor epoch = if factor == 0 then panic else ok (epoch % factor == 0)

unfoldable pub current_unbonding_epoch : ℕ → ℕ → Outcome Error ℤ
current_unbonding_epoch factor epoch =
    if factor == 0
    then panic
    else if epoch % factor == 0
    then ok (int64 epoch)
    else ok (int64 (epoch + factor - epoch % factor))

mod_step : (n f : ℕ) → 0 < f → (n + f - n % f) % f ≡ 0
mod_step n f h = grind arith

-- A later multiple of `f` is no nearer.
mod_least : (n f o : ℕ) → 0 < f → 0 < n % f → o % f ≡ 0 → n ≤ o → n + f - n % f ≤ o
mod_least n f o h z m le = grind arith

-- For a positive factor, and an epoch that stays a factor below the largest `int64`, the current
-- unbonding epoch is an epoch at which the chain unbonds, less than a factor away, and no other such
-- epoch from this one on comes before it.
pub current_unbonding_epoch-IsLeast :
    (factor epoch other : ℕ)
    → 0 < factor
    → epoch + factor < 2 ^ 63
    → is_unbonding_epoch factor other ≡ ok true
    → epoch ≤ other
    → (r : ℕ) × (current_unbonding_epoch factor epoch ≡ ok (pos r))
      × (is_unbonding_epoch factor r ≡ ok true)
      × (epoch ≤ r)
      × (r < epoch + factor)
      × (r ≤ other)
unfolding current_unbonding_epoch is_unbonding_epoch
current_unbonding_epoch-IsLeast f e o h b u le = elim (Bool-cases (e % f == 0)) [
  | inl z ↦ (e, ground arith, ground arith, omega arith, omega arith, omega arith)
  | inr z ↦ (
    e + f - e % f,
    ground arith,
    ground (arith, mod_step e f h),
    grind arith,
    ground arith,
    ground (arith, mod_least e f o h),
  )
]
