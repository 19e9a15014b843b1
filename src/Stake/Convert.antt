-- ===== src/Stake/Convert.antt =====
-- The amounts of x/liquidstake and their conversions (types/liquidstake.go). A decimal is its count
-- of units of 10^-18; the net amount is not negative, being a sum of balances.
pub mod RoundTrip
use pstake_native_test.Base.{ℕ, ◌+◌, ◌-◌, ◌*◌, ◌==◌, if◌then◌else◌, Outcome, ok, panic, leb}
use pstake_native_test.Sdk.Dec.{DecOps, one, of_int, truncate_int, truncate_dec}

-- The sums that the state of the net amount is computed from.
pub record NetAmountState : Type 0 where
  pub stkxprt_total_supply : ℕ
  pub net_amount : ℕ
  pub total_liquid_tokens : ℕ
  pub total_remaining_rewards : ℕ
  pub total_unbonding_balance : ℕ
  pub proxy_acc_balance : ℕ

unfoldable pub calc_net_amount : NetAmountState → ℕ
calc_net_amount nas =
    of_int (nas.proxy_acc_balance + nas.total_liquid_tokens + nas.total_unbonding_balance)
    + nas.total_remaining_rewards

module _ (dec : DecOps) where
  unfoldable pub calc_mint_rate : NetAmountState → ℕ
  calc_mint_rate nas =
      if nas.net_amount == 0
      then 0
      else dec.quo_truncate (of_int nas.stkxprt_total_supply) nas.net_amount

  -- Supply * amount / net amount. A net amount below one token is truncated to zero, and panics.
  unfoldable pub native_token_to_stk_xprt : {E : Type 0} → ℕ → ℕ → ℕ → Outcome E ℕ
  native_token_to_stk_xprt amount supply net =
      if truncate_dec net == 0
      then panic
      else ok (
          truncate_int (
            dec.quo_truncate (dec.mul_truncate (of_int supply) (of_int amount)) (truncate_dec net)))

  -- Amount * net amount / supply, without a fraction. A supply of zero panics.
  unfoldable pub stk_xprt_to_native_token : {E : Type 0} → ℕ → ℕ → ℕ → Outcome E ℕ
  stk_xprt_to_native_token amount supply net =
      if supply == 0
      then panic
      else ok (truncate_dec (dec.quo (dec.mul_truncate (of_int amount) net) (of_int supply)))

  -- For a rate that is at most one.
  unfoldable pub deduct_fee_rate : ℕ → ℕ → ℕ
  deduct_fee_rate input rate = truncate_dec (dec.mul_truncate input (one - rate))
