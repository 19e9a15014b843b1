-- ===== src/Stake/Divide.antt =====
-- How an amount is divided by weights (x/liquidstake/types/rebalancing.go).
pub mod Crumb
pub mod Current
use pstake_native_test.Base.{true, ℕ, ◌+◌, ◌*◌, List, [], ◌∷◌, ◌==◌, if◌then◌else◌, sum_by, map}
use pstake_native_test.Base.Int.{ℤ, pos, ◌-ℤ◌}
use pstake_native_test.Base.Text.{Bytes}
use pstake_native_test.Sdk.Dec.{DecOps, of_int, truncate_int, truncate_dec}
use pstake_native_test.Stake.Types.{WhitelistedValidator, LiquidValidator, get_weight, total_weight}

-- The sum of the outputs.
abbrev pub total_output : List ℕ → ℕ
total_output [] = 0
total_output (o ∷ os) = o + total_output os

module _ (dec : DecOps) where
  -- `MulInt` is exact.
  unfoldable pub weighted_outputs : List WhitelistedValidator → ℕ → List LiquidValidator → List ℕ
  unfolding get_weight
  weighted_outputs wvs unit [] = []
  weighted_outputs wvs unit (v ∷ vs) =
      truncate_int (unit * get_weight wvs v true) ∷ weighted_outputs wvs unit vs

  unfoldable pub divide_by_weight :
      List WhitelistedValidator → List LiquidValidator → ℕ → List ℕ × ℤ
  unfolding weighted_outputs total_weight
  divide_by_weight wvs vs input =
      let unit = dec.quo_truncate (of_int input) (of_int (total_weight wvs vs)) in
      let outputs = weighted_outputs wvs unit vs in
      if total_weight wvs vs == 0
      then ([], pos 0)
      else (outputs, pos input -ℤ pos (total_output outputs))

  unfoldable pub current_outputs : (Bytes → ℕ) → ℕ → List LiquidValidator → List ℕ
  current_outputs tokens unit [] = []
  current_outputs tokens unit (v ∷ vs) =
      truncate_dec (dec.mul_truncate unit (of_int (tokens v.operator_address)))
      ∷ current_outputs tokens unit vs

  -- The input and the outputs are decimals.
  unfoldable pub divide_by_current_weight : List LiquidValidator → ℕ → ℕ → (Bytes → ℕ) → List ℕ × ℤ
  unfolding current_outputs
  divide_by_current_weight vs input total tokens =
      let unit = dec.quo_truncate input (of_int total) in
      let outputs = current_outputs tokens unit vs in
      if total == 0 then ([], pos 0) else (outputs, pos input -ℤ pos (total_output outputs))
