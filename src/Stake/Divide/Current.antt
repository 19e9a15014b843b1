-- ===== src/Stake/Divide/Current.antt =====
-- A division by the current tokens: the outputs and the crumb against the input.
use mathlib.Core.Path.{subst}
use pstake_native_test.Base.{
  le_mul, ℕ, ◌+◌, ◌-◌, ◌*◌, ◌/◌, ◌≤◌, ◌<◌, ◌≡◌, false, List, [], ◌∷◌, ◌==◌, length, arith,
}
use pstake_native_test.Base.Int.{ℤ, pos, ◌+ℤ◌, int_laws}
use pstake_native_test.Base.Text.{Bytes}
use pstake_native_test.Sdk.Dec.{of_int, DecOps, DecLaws, one, truncate_dec}
use pstake_native_test.Stake.Types.{LiquidValidator, total_liquid_tokens}
use pstake_native_test.Stake.Divide.{divide_by_current_weight, total_output, current_outputs}

-- Each output is a number of whole tokens, and at most the validator's share of the input.
abbrev pub WholeShares : (Bytes → ℕ) → ℕ → ℕ → List LiquidValidator → List ℕ → Type 0
WholeShares tokens input total [] [] = Unit
WholeShares tokens input total (v ∷ vs) (o ∷ os) =
    (o ≡ o / one * one)
    × (o * total ≤ input * tokens v.operator_address)
    × WholeShares tokens input total vs os
WholeShares tokens input total [] (o ∷ os) = ⊥
WholeShares tokens input total (v ∷ vs) [] = ⊥

-- What a division by the current tokens gives.
pub record DividesTokens (tokens : Bytes → ℕ) (total : ℕ) (vs : List LiquidValidator) (input : ℕ)
    (r : List ℕ × ℤ) : Type 0 where
  pub exact : pos (total_output r.0) +ℤ r.1 ≡ pos input
  pub shares : WholeShares tokens input total vs r.0
  pub crumb : (c : ℕ) × (r.1 ≡ pos c) × (c < length vs * one + total)

whole : (d : ℕ) → truncate_dec d ≡ truncate_dec d / one * one
whole d = grind arith

truncated : (d : ℕ) → (truncate_dec d ≤ d) × (d < truncate_dec d + one)
truncated d = (grind arith, grind arith)

share_bound :
    (o t unit total input : ℕ) → o ≤ unit * t → unit * total ≤ input → o * total ≤ input * t
share_bound o t unit total input h k =
    omega (arith, le_mul o (unit * t) total h, le_mul (unit * total) input t k)

module _ (dec : DecOps) (laws : DecLaws dec) where
  output_bounds :
      (unit t : ℕ)
      → (truncate_dec (dec.mul_truncate unit (of_int t)) ≤ unit * t)
        × (unit * t < truncate_dec (dec.mul_truncate unit (of_int t)) + one)
  output_bounds unit t =
      let floor = laws.mul_truncate_floor unit (of_int t) in
      let cut = truncated (dec.mul_truncate unit (of_int t)) in
      (omega (arith, floor.0, cut.0), omega (arith, floor.1, cut.1))

  -- The outputs at a unit, against the unit times the tokens.
  current_bounds :
      (tokens : Bytes → ℕ) (unit : ℕ) (vs : List LiquidValidator)
      → (total_output (current_outputs dec tokens unit vs) ≤ unit * total_liquid_tokens tokens vs)
        × (unit * total_liquid_tokens tokens vs
            ≤ total_output (current_outputs dec tokens unit vs) + length vs * one)
  unfolding current_outputs
  current_bounds tokens unit [] = (omega arith, omega arith)
  current_bounds tokens unit (v ∷ vs) =
      let rest = current_bounds tokens unit vs in
      let this = output_bounds unit (tokens v.operator_address) in
      (omega (arith, rest.0, this.0), omega (arith, rest.1, this.1))

  current-WholeShares :
      (tokens : Bytes → ℕ) (unit total input : ℕ) (vs : List LiquidValidator)
      → unit * total ≤ input
      → WholeShares tokens input total vs (current_outputs dec tokens unit vs)
  unfolding current_outputs
  current-WholeShares tokens unit total input [] h = tt
  current-WholeShares tokens unit total input (v ∷ vs) h =
      let t = tokens v.operator_address in
      (
        whole (dec.mul_truncate unit (of_int t)),
        share_bound _ t unit total input (output_bounds unit t).0 h,
        current-WholeShares tokens unit total input vs h,
      )

  unit_bounds :
      (input total : ℕ)
      → 0 < total
      → (dec.quo_truncate input (of_int total) * total ≤ input)
        × (input < dec.quo_truncate input (of_int total) * total + total)
  unit_bounds input total h =
      let floor = laws.quo_truncate_floor input (of_int total) (omega arith) in
      (omega (arith, floor.0), omega (arith, floor.1))

  -- When the total is positive and is the sum of the validators' tokens, the outputs and the crumb
  -- add up to exactly the input, each output is a number of whole tokens and at most the
  -- validator's share of the input, and the crumb is not negative and below one token for each
  -- validator and a unit for each token of the total.
  pub divide_by_current_weight-Divides :
      (tokens : Bytes → ℕ) (vs : List LiquidValidator) (input total : ℕ)
      → 0 < total
      → total_liquid_tokens tokens vs ≡ total
      → DividesTokens tokens total vs input (divide_by_current_weight dec vs input total tokens)
  unfolding divide_by_current_weight
  divide_by_current_weight-Divides tokens vs input total h e =
      let unit = dec.quo_truncate input (of_int total) in
      let out = total_output (current_outputs dec tokens unit vs) in
      let some_tokens : (total == 0) ≡ false = ground arith in
      let of_unit = unit_bounds input total h in
      let bounds = current_bounds tokens unit vs in
      let low : out ≤ unit * total = subst (λ t. out ≤ unit * t) e bounds.0 in
      let high : unit * total ≤ out + length vs * one =
        subst (λ t. unit * t ≤ out + length vs * one) e bounds.1 in
      let enough : out ≤ input = omega (arith, low, of_unit) in
      rw some_tokens (record {
        exact = omega int_laws;
        shares = current-WholeShares tokens unit total input vs of_unit.0;
        crumb = (input - out, omega int_laws, omega (arith, high, of_unit));
      })
