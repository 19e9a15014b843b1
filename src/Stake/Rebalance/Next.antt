-- ===== src/Stake/Rebalance/Next.antt =====
-- What `MinMaxGap` returns: a move from a validator above its target to one below, or none.
use pstake_native_test.Base.{
  ℕ, ◌+◌, ◌≤◌, ◌<◌, ◌≡◌, ◌⊎◌, inl, inr, ap, true, List, [], ◌∷◌, All, arith,
}
use pstake_native_test.Base.Int.{parts_disjoint, ℤ, pos_part, neg_part, ◌≤ℤ◌, int_laws}
use pstake_native_test.Base.Text.{Bytes}
use pstake_native_test.Stake.Types.{LiquidValidator}
use pstake_native_test.Stake.Rebalance.{
  Amounts, Extremes, no_extremes, gap_of, extremes_from, smaller, abs, min_max_gap,
}
use pstake_native_test.Stake.Rebalance.Gaps.{listed, extremes-Bounds, extremes_max, extremes_min}

-- What is found for the next redelegation, in whole tokens.
pub record IsNext (target tokens : Amounts) (vs : List LiquidValidator) (max min : Bytes) (k : ℕ)
    : Type 0 where
  pub max_listed : listed max vs ≡ true
  pub min_listed : listed min vs ≡ true
  pub above : target max + k ≤ tokens max
  pub below : tokens min + k ≤ target min
  pub settles : (tokens max ≡ target max + k) ⊎ (tokens min + k ≡ target min)

gap_parts :
    (target tokens : Amounts) (v : LiquidValidator)
    → pos_part (gap_of target tokens v) + target v.operator_address
      ≡ neg_part (gap_of target tokens v) + tokens v.operator_address
unfolding gap_of
gap_parts target tokens v = omega int_laws

smaller_facts :
    (a b : ℕ) → (smaller a b ≤ a) × (smaller a b ≤ b) × ((smaller a b ≡ a) ⊎ (smaller a b ≡ b))
smaller_facts a b = (ground arith, ground arith, ground arith)

module _ (target tokens : Amounts) where
  All-below :
      (vs : List LiquidValidator) (max min : ℤ)
      → pos_part max ≡ 0
      → All (λ v. (gap_of target tokens v ≤ℤ max) × (min ≤ℤ gap_of target tokens v)) vs
      → All (λ v. tokens v.operator_address ≤ target v.operator_address) vs
  All-below [] max min z h = tt
  All-below (v ∷ vs) max min z ((h, k), hs) = (
    omega (arith, gap_parts target tokens v, parts_disjoint (gap_of target tokens v)),
    All-below vs max min z hs,
  )

  All-above :
      (vs : List LiquidValidator) (max min : ℤ)
      → neg_part min ≡ 0
      → All (λ v. (gap_of target tokens v ≤ℤ max) × (min ≤ℤ gap_of target tokens v)) vs
      → All (λ v. target v.operator_address ≤ tokens v.operator_address) vs
  All-above [] max min z h = tt
  All-above (v ∷ vs) max min z ((h, k), hs) = (
    omega (arith, gap_parts target tokens v, parts_disjoint (gap_of target tokens v)),
    All-above vs max min z hs,
  )

module _ (target tokens : Amounts) (vs : List LiquidValidator) where
  abbrev found : Extremes
  found = extremes_from target tokens vs no_extremes

  -- If an amount is to be moved, it goes from a validator that is above its target by that much to
  -- one that is below it by that much, and one of the two gets to its target.
  pub min_max_gap-IsNext :
      0 < (min_max_gap target tokens vs).amount_needed
      → IsNext target tokens vs
          (min_max_gap target tokens vs).max_val.operator_address
          (min_max_gap target tokens vs).min_val.operator_address
          (min_max_gap target tokens vs).amount_needed
  unfolding min_max_gap
  min_max_gap-IsNext h =
      let e = found in
      let (max_le, min_le, _) = extremes-Bounds target tokens vs no_extremes in
      let small = smaller_facts (pos_part e.max_gap) (abs e.min_gap) in
      let max_parts = parts_disjoint e.max_gap in
      let min_parts = parts_disjoint e.min_gap in
      elim (extremes_max target tokens vs no_extremes) [
        | inl (z, _) ↦ absurd (omega (arith, ap pos_part z))
        | inr (in_max, is_max) ↦ elim (extremes_min target tokens vs no_extremes) [
          | inl (z, _) ↦ absurd (omega (arith, ap pos_part z, ap neg_part z))
          | inr (in_min, is_min) ↦
              let at_max = gap_parts target tokens e.max_val in
              let at_min = gap_parts target tokens e.min_val in
              let p1 = ap pos_part is_max in
              let n1 = ap neg_part is_max in
              let p2 = ap pos_part is_min in
              let n2 = ap neg_part is_min in
              record {
                max_listed = in_max;
                min_listed = in_min;
                above = omega arith;
                below = omega arith;
                settles = elim small.2 [
                  | inl all_of_max ↦ inl (omega arith)
                  | inr all_of_min ↦ inr (omega arith)
                ];
              }
        ]
      ]

  -- If none is to be moved, no validator is above its target, or none is below it.
  pub min_max_gap_zero :
      (min_max_gap target tokens vs).amount_needed ≡ 0
      → All (λ v. tokens v.operator_address ≤ target v.operator_address) vs
        ⊎ All (λ v. target v.operator_address ≤ tokens v.operator_address) vs
  unfolding min_max_gap
  min_max_gap_zero h =
      let e = found in
      let (max_le, min_le, all) = extremes-Bounds target tokens vs no_extremes in
      let small = smaller_facts (pos_part e.max_gap) (abs e.min_gap) in
      elim small.2 [
        | inl z ↦ inl (All-below target tokens vs e.max_gap e.min_gap (omega arith) all)
        | inr z ↦ inr (All-above target tokens vs e.max_gap e.min_gap (omega arith) all)
      ]
