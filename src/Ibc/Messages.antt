-- ===== src/Ibc/Messages.antt =====
-- The messages that stake, unstake and redeem (x/liquidstakeibc/keeper/msg_server.go), over the bank,
-- the epochs and the decimals as interfaces.
pub mod Calls
pub mod Worth
pub mod Stake
pub mod Unstake
pub mod Redeem
use pstake_native_test.Base.{
  ℕ, ◌+◌, ◌*◌, ◌==◌, none, some, if◌then◌else◌, Outcome, ok, panic, ◌>>=◌, ◌>>◌, require, refuse,
  found_or, wrapped,
}
use pstake_native_test.Base.Int.{pos, pos_part, ltb_ℤ, leb_ℤ}
use pstake_native_test.Base.Text.{Bytes, same}
use pstake_native_test.Sdk.Coin.{Coin, coin, coin_sub}
use pstake_native_test.Sdk.Dec.{DecOps, of_int, truncate_int, one}
use pstake_native_test.Ibc.Types.{
  HostChain, Deposit, Error, invalid_host_chain, host_chain_inactive, min_deposit,
  deposit_not_found, invalid_denom, redeem_failed, failed_deposit, mint_failed, burn_failed,
  invalid_address, not_enough_delegations, other,
}
use pstake_native_test.Ibc.Keys.{host_denom_to_mint_denom, mint_denom_to_host_denom}
use pstake_native_test.Ibc.Deposit.{
  set_deposit, get_deposit_for_chain_and_epoch, adjust_deposits_for_redemption,
}
use pstake_native_test.Ibc.Unbonding.{
  get_unbonding, increase_undelegating_amount_for_epoch, increase_user_unbonding_amount_for_epoch,
}
use pstake_native_test.Ibc.Epoch.{current_unbonding_epoch}
use pstake_native_test.Ibc.HostChain.{get_host_chain_from_ibc_denom, get_host_chain_from_host_denom}
use pstake_native_test.Ibc.Strategy.{get_host_chain_total_delegations}
use pstake_native_test.Ibc.Bank.{Bank, user, module_of}
use pstake_native_test.Ibc.State.{
  Stores, State, module_name, deposit_account, undelegation_account, delegation_epoch,
  undelegation_epoch, send_positive_fee,
}

abbrev pub mint_denom : HostChain → Bytes
mint_denom hc = host_denom_to_mint_denom hc.host_denom

-- `MulInt` is exact, and what is truncated is sent nowhere.
unfoldable pub fee_of : ℕ → Coin → Coin
fee_of rate c = coin c.denom (truncate_int (rate * c.amount))

-- What is staked on top of what the record of the epoch has.
unfoldable pub add_to_deposit : ℕ → Deposit → Deposit
add_to_deposit n d = record d { amount = coin d.amount.denom (d.amount.amount + n) }

module _ (dec : DecOps) where
  -- The minted tokens for an amount, at the value of the chain.
  unfoldable pub minted_for : HostChain → ℕ → Coin
  minted_for hc n =
      coin (mint_denom hc) (truncate_int (pos_part (dec.mul (pos (of_int n)) (pos hc.c_value))))

  -- The tokens of the host chain for an amount of minted ones, when they are unstaked: times the
  -- inverse of the value. A value of zero panics.
  unfoldable pub unbonded_for : HostChain → ℕ → Outcome Error Coin
  unbonded_for hc n =
      if hc.c_value == 0
      then panic
      else ok (
          coin hc.host_denom
            (truncate_int (pos_part (dec.mul (pos (of_int n)) (pos (dec.quo one hc.c_value))))))

  -- And when they are redeemed at once: divided by the value.
  unfoldable pub redeemed_for : (HostChain → Bytes) → HostChain → ℕ → Outcome Error Coin
  redeemed_for ibc_denom hc n =
      if hc.c_value == 0
      then panic
      else ok (coin (ibc_denom hc) (truncate_int (dec.quo (of_int n) hc.c_value)))

-- `current_epoch` is the epoch of the epochs module.
module _ (st : Stores) {W : Type 0} (bank : Bank W) (dec : DecOps) (ibc_denom : HostChain → Bytes)
    (current_epoch : Bytes → W → ℕ) where
  open bank use {send, mint, burn, parse_address}

  -- What follows the guards of a stake. The deposit is sent before its record is looked up; the
  -- minted tokens less the fee go to the user, the fee to the fee address.
  unfoldable pub share_minted : HostChain → Bytes → Coin → Bytes → W → Outcome Error W
  unfolding fee_of send_positive_fee
  share_minted hc address minted fee_address w2 = do
    kept ← coin_sub minted (fee_of hc.params.deposit_fee minted)
    w3 ← wrapped mint_failed (send (module_of module_name) (user address) kept w2)
    wrapped failed_deposit
        (send_positive_fee bank (fee_of hc.params.deposit_fee minted) module_name fee_address w3)

  unfoldable pub deposit_and_mint :
      HostChain → Bytes → Coin → State st W → Outcome Error (State st W)
  unfolding minted_for add_to_deposit share_minted
  deposit_and_mint hc address amount s = do
    w1 ← wrapped failed_deposit (send (user address) (module_of deposit_account) amount s.world)
    d ←
        found_or
          (get_deposit_for_chain_and_epoch st.deposits hc.chain_id
            (current_epoch delegation_epoch w1) s.deposit_store)
          deposit_not_found
    w2 ← wrapped mint_failed (mint module_name (minted_for dec hc amount.amount) w1)
    w4 ← share_minted hc address (minted_for dec hc amount.amount) s.params.fee_address w2
    ok (record s {
      deposit_store = set_deposit st.deposits (add_to_deposit amount.amount d) s.deposit_store;
      world = w4;
    })

  unfoldable pub liquid_stake : Bytes → Coin → State st W → Outcome Error (State st W)
  unfolding deposit_and_mint
  liquid_stake delegator amount s = do
    hc ←
        found_or (get_host_chain_from_ibc_denom st.chains ibc_denom amount.denom s.chain_store)
          invalid_host_chain
    require hc.active host_chain_inactive
    refuse (ltb_ℤ (pos amount.amount) hc.minimum_deposit) min_deposit
    address ← found_or (parse_address delegator) invalid_address
    deposit_and_mint hc address amount s

  -- Whether more is delegated than is recorded for the epoch.
  unfoldable pub check_delegations :
      HostChain
      → ℕ
      → st.user_unbondings.Store
      → st.unbondings.Store
      → W
      → State st W
      → Outcome Error (State st W)
  check_delegations hc n users unbondings w2 s = do
    recorded ← elim (get_unbonding st.unbondings hc.chain_id n unbondings) [
      | none ↦ panic
      | some u ↦ ok u
    ]
    refuse (leb_ℤ (get_host_chain_total_delegations hc) (pos recorded.unbond_amount.amount))
        not_enough_delegations
    ok (record s { user_store = users; unbonding_store = unbondings; world = w2 })

  -- What follows the fee of an unstake: it is recorded for the user and for the epoch, and whether
  -- so much is delegated is checked last.
  unfoldable pub record_unbonding :
      HostChain → Bytes → Coin → W → State st W → Outcome Error (State st W)
  unfolding unbonded_for check_delegations
  record_unbonding hc delegator kept w2 s = do
    unbond ← unbonded_for dec hc kept.amount
    epoch ← current_unbonding_epoch hc.unbonding_factor (current_epoch undelegation_epoch w2)
    users ←
        increase_user_unbonding_amount_for_epoch st.user_unbondings hc.chain_id delegator
          (pos_part epoch) kept unbond s.user_store
    unbondings ←
        increase_undelegating_amount_for_epoch st.unbondings hc.chain_id (pos_part epoch) kept
          unbond s.unbonding_store
    check_delegations hc (pos_part epoch) users unbondings w2 s

  -- The fee is taken off before the rest is recorded.
  unfoldable pub liquid_unstake : Bytes → Coin → State st W → Outcome Error (State st W)
  unfolding record_unbonding fee_of send_positive_fee
  liquid_unstake delegator amount s = do
    host_denom ← found_or (mint_denom_to_host_denom amount.denom) invalid_host_chain
    hc ←
        found_or (get_host_chain_from_host_denom st.chains host_denom s.chain_store)
          invalid_host_chain
    require hc.active host_chain_inactive
    refuse (ltb_ℤ (pos amount.amount) hc.minimum_deposit) min_deposit
    require (same amount.denom (mint_denom hc)) invalid_denom
    address ← found_or (parse_address delegator) other
    w1 ← send (user address) (module_of undelegation_account) amount s.world
    w2 ←
        send_positive_fee bank (fee_of hc.params.unstake_fee amount) undelegation_account
          s.params.fee_address w1
    kept ← coin_sub amount (fee_of hc.params.unstake_fee amount)
    record_unbonding hc delegator kept w2 s

  -- What follows the fee of a redemption: the deposits that were not sent yet are lowered, the token
  -- is paid from their account, and the minted tokens are burnt.
  unfoldable pub pay_redeemed :
      HostChain → Bytes → Coin → W → State st W → Outcome Error (State st W)
  unfolding redeemed_for
  pay_redeemed hc address kept w2 s = do
    token ← redeemed_for dec ibc_denom hc kept.amount
    deposits ←
        wrapped redeem_failed (adjust_deposits_for_redemption st.deposits hc token s.deposit_store)
    w3 ← wrapped redeem_failed (send (module_of deposit_account) (user address) token w2)
    w4 ← wrapped burn_failed (burn module_name kept w3)
    ok (record s { deposit_store = deposits; world = w4 })

  -- The fee goes to the fee address before anything is paid.
  unfoldable pub redeem : Bytes → Coin → State st W → Outcome Error (State st W)
  unfolding pay_redeemed fee_of send_positive_fee
  redeem delegator amount s = do
    host_denom ← found_or (mint_denom_to_host_denom amount.denom) invalid_host_chain
    hc ←
        found_or (get_host_chain_from_host_denom st.chains host_denom s.chain_store)
          invalid_host_chain
    require hc.active host_chain_inactive
    require (same amount.denom (mint_denom hc)) invalid_denom
    address ← found_or (parse_address delegator) invalid_address
    w1 ← wrapped mint_failed (send (user address) (module_of module_name) amount s.world)
    w2 ← wrapped failed_deposit (
        send_positive_fee bank (fee_of hc.params.redemption_fee amount) module_name
          s.params.fee_address w1)
    kept ← coin_sub amount (fee_of hc.params.redemption_fee amount)
    pay_redeemed hc address kept w2 s
