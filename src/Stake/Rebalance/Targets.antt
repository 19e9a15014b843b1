-- ===== src/Stake/Rebalance/Targets.antt =====
-- The targets add up to the tokens, and the rebalancing reaches them.
use pstake_native_test.Base.{
  ℕ, ◌+◌, ◌-◌, ◌*◌, ◌/◌, ◌≤◌, ◌<◌, ◌≡◌, inl, inr, refl, true, List, [], ◌∷◌, arith, ltb, Bool-cases,
}
use pstake_native_test.Base.Text.{Bytes, same_refl}
use pstake_native_test.Stake.Types.{LiquidValidator}
use pstake_native_test.Stake.Rebalance.{
  Amounts, assign, total_of, target_shares, give_crumb, target_map,
}
use pstake_native_test.Stake.Rebalance.Gaps.{listed}
use pstake_native_test.Stake.Rebalance.Loop.{
  IsDistinct, sum_over, sum_listed, assign-AgreeBut, assign_self,
}

floor_mul : (n d : ℕ) → 0 < d → n / d * d ≤ n
floor_mul n d h = grind arith

le_of_mul : (a b c : ℕ) → 0 < c → a * c ≤ b * c → a ≤ b
le_of_mul a b c h k = grind arith

module _ (weight tokens : Amounts) where
  -- The shares of a total `t` by the weights, of which there are `w` in all.
  shares_bound :
      (t w : ℕ) (vs : List LiquidValidator)
      → 0 < w
      → sum_over (λ a. t * weight a / w) vs * w ≤ t * sum_over weight vs
  shares_bound t w [] h = omega arith
  shares_bound t w (v ∷ vs) h =
      omega (arith, floor_mul (t * weight v.operator_address) w h, shares_bound t w vs h)

-- The crumb goes to one validator, if one has a share.
give_crumb_sum :
    (vs ws : List LiquidValidator) (crumb : ℕ) (m : Amounts)
    → IsDistinct ws
    → ((a : Bytes) → listed a vs ≡ true → listed a ws ≡ true)
    → 0 < sum_over m vs
    → sum_over (give_crumb vs crumb m) ws ≡ sum_over m ws + crumb
unfolding give_crumb
give_crumb_sum [] ws crumb m d inside h = absurd (omega arith)
give_crumb_sum (v ∷ vs) ws crumb m d inside h =
    let a = v.operator_address in
    elim (Bool-cases (ltb 0 (m a))) [
      | inl b ↦ rw b (
          omega (
            arith,
            sum_listed a m (assign a (m a + crumb) m) ws (assign-AgreeBut a (m a + crumb) m) d
                (inside a (rw (same_refl a) refl)),
            assign_self a (m a + crumb) m,
          ))
      | inr b ↦
          rw b (give_crumb_sum vs ws crumb m d (λ c l. inside c (ground arith)) (ground arith))
    ]

-- The targets add up to exactly the tokens that there are.
pub target_map_total :
    (vs : List LiquidValidator) (weight tokens : Amounts)
    → IsDistinct vs
    → 0 < total_of vs weight
    → 0 < total_of vs (target_shares vs weight tokens)
    → total_of vs (target_map vs weight tokens) ≡ total_of vs tokens
unfolding target_map
target_map_total vs weight tokens d h k =
    let shares = target_shares vs weight tokens in
    let enough : total_of vs shares ≤ total_of vs tokens =
      le_of_mul _ _ (total_of vs weight) h
        (shares_bound weight tokens (total_of vs tokens) (total_of vs weight) vs h) in
    omega (
      arith,
      enough,
      give_crumb_sum vs vs (total_of vs tokens - total_of vs shares) shares d (λ a l. l) k,
    )
