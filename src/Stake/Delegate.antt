-- ===== src/Stake/Delegate.antt =====
-- Staking through the proxy account (x/liquidstake/keeper/liquidstake.go), over the bank and the
-- staking module as an interface.
pub mod Exact
pub mod Minted
use pstake_native_test.Base.{
  ℕ, ◌+◌, Bool, true, false, not, ◌||◌, List, [], ◌∷◌, ltb, leb, ◌==◌, if◌then◌else◌, Outcome, ok,
  err, panic, ◌>>=◌, ◌>>◌, refuse, require, length,
}
use pstake_native_test.Base.Int.{ℤ, pos, pos_part, ◌+ℤ◌}
use pstake_native_test.Base.Text.{Bytes, same}
use pstake_native_test.Sdk.Coin.{Coin, coin}
use pstake_native_test.Sdk.Dec.{DecOps}
use pstake_native_test.Stake.Types.{WhitelistedValidator, LiquidValidator, total_weight}
use pstake_native_test.Stake.Divide.{divide_by_weight}
use pstake_native_test.Stake.Convert.{NetAmountState, native_token_to_stk_xprt}

-- The errors of x/liquidstake/types/errors.go that the modelled operations return, and those of
-- other modules as one case.
pub data Error : Type 0 where
  less_than_min_liquid_stake_amount invalid_bond_denom active_liquid_validators_not_exists
        invalid_active_liquid_validators too_small_liquid_stake_amount other_module :
      Error

-- The calls of other modules on a state `W` of the chain. `delegate` finds the validator and
-- delegates for the proxy account; it returns the new shares.
pub record ChainKeeper (W : Type 0) : Type 0 where
  pub bond_denom : W → Bytes
  pub net_amount_state : W → NetAmountState
  pub active_validators : W → List LiquidValidator
  pub send_coins : Bytes → Bytes → Coin → W → Outcome Error W
  pub mint_coins : Coin → W → Outcome Error W
  pub send_coins_from_module : Bytes → Coin → W → Outcome Error W
  pub delegate : Bytes → ℕ → W → Outcome Error (ℕ × W)

pub record Params : Type 0 where
  pub liquid_bond_denom : Bytes
  pub whitelisted_validators : List WhitelistedValidator
  pub min_liquid_stake_amount : ℕ

module _ (dec : DecOps) {W : Type 0} (k : ChainKeeper W) where
  open k use {delegate, send_coins, mint_coins, send_coins_from_module}

  -- The loop over the validators and their amounts, with the shares so far.
  unfoldable pub delegate_each : List LiquidValidator → List ℕ → ℕ → W → Outcome Error (ℕ × W)
  delegate_each [] amounts shares w = ok (shares, w)
  delegate_each (v ∷ vs) [] shares w = panic
  delegate_each (v ∷ vs) (a ∷ amounts) shares w =
      let skipped = delegate_each vs amounts shares w in
      let delegated =
        delegate v.operator_address a w >>= λ r. delegate_each vs amounts (shares + r.0) r.1 in
      if a == 0 then skipped else delegated

  -- The crumb goes to the first validator. It is not negative.
  unfoldable pub with_crumb : List ℕ × ℤ → Outcome Error (List ℕ)
  with_crumb ([], crumb) = err invalid_active_liquid_validators
  with_crumb (a ∷ amounts, crumb) = ok (pos_part (pos a +ℤ crumb) ∷ amounts)

  unfoldable pub liquid_delegate :
      List LiquidValidator → ℕ → List WhitelistedValidator → W → Outcome Error (ℕ × W)
  unfolding delegate_each with_crumb divide_by_weight
  liquid_delegate vs amount wvs w =
      with_crumb (divide_by_weight dec wvs vs amount) >>= λ amounts. delegate_each vs amounts 0 w

  -- The amount to mint: the staked one for the first stake, and else in proportion.
  unfoldable pub mint_amount : NetAmountState → ℕ → Outcome Error ℕ
  unfolding native_token_to_stk_xprt
  mint_amount nas amount =
      if nas.stkxprt_total_supply == 0
      then ok amount
      else native_token_to_stk_xprt dec amount nas.stkxprt_total_supply nas.net_amount

  -- The new shares, the minted amount and the state. The net amount is computed before anything is
  -- sent.
  unfoldable pub liquid_stake : Params → Bytes → Bytes → Coin → W → Outcome Error (ℕ × ℕ × W)
  unfolding mint_amount liquid_delegate
  liquid_stake params proxy staker staking w =
      let vs = k.active_validators w in
      let wvs = params.whitelisted_validators in
      refuse (ltb staking.amount params.min_liquid_stake_amount) less_than_min_liquid_stake_amount
      >> (require (same staking.denom (k.bond_denom w)) invalid_bond_denom
          >> (refuse ((length vs == 0) || (total_weight wvs vs == 0))
                active_liquid_validators_not_exists
              >> (send_coins staker proxy staking w >>= λ w1.
                  mint_amount (k.net_amount_state w) staking.amount >>= λ minted.
                  refuse (minted == 0) too_small_liquid_stake_amount
                  >> (mint_coins (coin params.liquid_bond_denom minted) w1 >>= λ w2.
                      send_coins_from_module staker (coin params.liquid_bond_denom minted) w2
                      >>= λ w3. liquid_delegate vs staking.amount wvs w3 >>= λ r.
                          ok (r.0, minted, r.1)))))
