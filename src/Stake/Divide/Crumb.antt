-- ===== src/Stake/Divide/Crumb.antt =====
-- The outputs and the crumb add up to the input, and the crumb is small.
use pstake_native_test.Base.{
  le_mul, ℕ, ◌+◌, ◌-◌, ◌*◌, ◌≤◌, ◌<◌, ◌≡◌, true, false, List, [], ◌∷◌, ◌==◌, length, arith,
}
use pstake_native_test.Base.Int.{ℤ, pos, ◌+ℤ◌, int_laws}
use pstake_native_test.Sdk.Dec.{of_int, DecOps, DecLaws, one}
use pstake_native_test.Stake.Types.{WhitelistedValidator, LiquidValidator, get_weight, total_weight}
use pstake_native_test.Stake.Divide.{divide_by_weight, total_output, weighted_outputs}

module _ (dec : DecOps) where
  -- The outputs at a unit, against the unit times the total weight.
  weighted_bounds :
      (wvs : List WhitelistedValidator) (unit : ℕ) (vs : List LiquidValidator)
      → (total_output (weighted_outputs dec wvs unit vs) * one ≤ unit * total_weight wvs vs)
        × (unit * total_weight wvs vs
            ≤ total_output (weighted_outputs dec wvs unit vs) * one + length vs * one)
  unfolding weighted_outputs total_weight
  weighted_bounds wvs unit [] = (omega arith, omega arith)
  weighted_bounds wvs unit (v ∷ vs) =
      (omega (arith, weighted_bounds wvs unit vs), omega (arith, weighted_bounds wvs unit vs))

-- Each output is at most the validator's share of the input, in whole tokens.
abbrev pub AtMostShares : List WhitelistedValidator → ℕ → ℕ → List LiquidValidator → List ℕ → Type 0
AtMostShares wvs input total [] [] = Unit
AtMostShares wvs input total (v ∷ vs) (o ∷ os) =
    (o * total ≤ input * get_weight wvs v true) × AtMostShares wvs input total vs os
AtMostShares wvs input total [] (o ∷ os) = ⊥
AtMostShares wvs input total (v ∷ vs) [] = ⊥

share_bound :
    (o w unit total input : ℕ)
    → o * one ≤ unit * w
    → unit * total ≤ input * one
    → o * total ≤ input * w
share_bound o w unit total input h k =
    omega (arith, le_mul (o * one) (unit * w) total h, le_mul (unit * total) (input * one) w k)

-- What a division by weights gives.
pub record Divides (wvs : List WhitelistedValidator) (vs : List LiquidValidator) (input : ℕ)
    (r : List ℕ × ℤ) : Type 0 where
  pub exact : pos (total_output r.0) +ℤ r.1 ≡ pos input
  pub shares : AtMostShares wvs input (total_weight wvs vs) vs r.0
  pub crumb : (c : ℕ) × (r.1 ≡ pos c) × (c * one < length vs * one + total_weight wvs vs)

module _ (dec : DecOps) (laws : DecLaws dec) where
  weighted-AtMostShares :
      (wvs : List WhitelistedValidator) (unit total input : ℕ) (vs : List LiquidValidator)
      → unit * total ≤ input * one
      → AtMostShares wvs input total vs (weighted_outputs dec wvs unit vs)
  unfolding weighted_outputs
  weighted-AtMostShares wvs unit total input [] h = tt
  weighted-AtMostShares wvs unit total input (v ∷ vs) h = (
    share_bound _ (get_weight wvs v true) unit total input (omega arith) h,
    weighted-AtMostShares wvs unit total input vs h,
  )

  unit_bounds :
      (input total : ℕ)
      → 0 < total
      → (dec.quo_truncate (of_int input) (of_int total) * total ≤ input * one)
        × (input * one < dec.quo_truncate (of_int input) (of_int total) * total + total)
  unit_bounds input total h =
      let floor = laws.quo_truncate_floor (of_int input) (of_int total) (omega arith) in
      (omega (arith, floor.0), omega (arith, floor.1))

  -- When the total weight is positive, the outputs and the crumb add up to exactly the input, no
  -- output is more than the validator's share of the input, and the crumb is not negative and below
  -- one token for each validator and a unit for each weight.
  pub divide_by_weight-Divides :
      (wvs : List WhitelistedValidator) (vs : List LiquidValidator) (input : ℕ)
      → 0 < total_weight wvs vs
      → Divides wvs vs input (divide_by_weight dec wvs vs input)
  unfolding divide_by_weight
  divide_by_weight-Divides wvs vs input h =
      let total = total_weight wvs vs in
      let unit = dec.quo_truncate (of_int input) (of_int total) in
      let out = total_output (weighted_outputs dec wvs unit vs) in
      let some_weight : (total == 0) ≡ false = ground arith in
      let bounds = weighted_bounds dec wvs unit vs in
      let of_unit = unit_bounds input total h in
      let enough : out ≤ input = omega (arith, bounds, of_unit) in
      rw some_weight (record {
        exact = omega int_laws;
        shares = weighted-AtMostShares wvs unit total input vs of_unit.0;
        crumb = (input - out, omega int_laws, omega (arith, bounds, of_unit));
      })
