-- ===== src/Ibc/Types.antt =====
-- The records that the module stores (proto/pstake/liquidstakeibc/v1beta1/liquidstakeibc.proto, as
-- x/liquidstakeibc/types uses them). Strings are byte sequences, epochs and times are not negative,
-- and a decimal is its count of units of 10^-18. A zero time is `none`.
use pstake_native_test.Base.{ℕ, Bool, List, Option}
use pstake_native_test.Base.Int.{ℤ}
use pstake_native_test.Base.Text.{Bytes}
use pstake_native_test.Sdk.Coin.{Coin}

pub data DepositState : Type 0 where
  pending sent received delegating : DepositState

pub record Deposit : Type 0 where
  pub chain_id : Bytes
  pub amount : Coin
  pub epoch : ℕ
  pub state : DepositState
  pub ibc_sequence_id : Bytes

pub data LsmDepositState : Type 0 where
  pending sent received untokenizing : LsmDepositState

pub record LsmDeposit : Type 0 where
  pub chain_id : Bytes
  pub amount : ℕ
  pub shares : ℕ
  pub denom : Bytes
  pub ibc_denom : Bytes
  pub delegator_address : Bytes
  pub state : LsmDepositState
  pub ibc_sequence_id : Bytes

pub data UnbondingState : Type 0 where
  pending initiated maturing matured claimable failed : UnbondingState

pub record Unbonding : Type 0 where
  pub chain_id : Bytes
  pub epoch_number : ℕ
  pub mature_time : Option ℕ
  pub burn_amount : Coin
  pub unbond_amount : Coin
  pub ibc_sequence_id : Bytes
  pub state : UnbondingState

pub record UserUnbonding : Type 0 where
  pub chain_id : Bytes
  pub epoch_number : ℕ
  pub address : Bytes
  pub stk_amount : Coin
  pub unbond_amount : Coin

pub record ValidatorUnbonding : Type 0 where
  pub chain_id : Bytes
  pub epoch_number : ℕ
  pub mature_time : Option ℕ
  pub validator_address : Bytes
  pub amount : Coin
  pub ibc_sequence_id : Bytes

pub record Validator : Type 0 where
  pub operator_address : Bytes
  pub status : Bytes
  pub weight : ℕ
  pub delegated_amount : ℤ
  pub exchange_rate : ℕ
  pub unbonding_epoch : ℕ
  pub delegable : Bool

pub data ChannelState : Type 0 where
  creating created : ChannelState

pub record IcaAccount : Type 0 where
  pub address : Bytes
  pub balance : Coin
  pub owner : Bytes
  pub channel_state : ChannelState

pub record HostChainLsParams : Type 0 where
  pub deposit_fee : ℕ
  pub restake_fee : ℕ
  pub unstake_fee : ℕ
  pub redemption_fee : ℕ
  pub lsm_validator_cap : ℕ
  pub lsm_bond_factor : ℤ
  pub max_entries : ℕ
  pub redelegation_acceptable_delta : ℤ
  pub upper_c_value_limit : ℤ
  pub lower_c_value_limit : ℤ

pub record HostChain : Type 0 where
  pub chain_id : Bytes
  pub connection_id : Bytes
  pub params : HostChainLsParams
  pub host_denom : Bytes
  pub channel_id : Bytes
  pub port_id : Bytes
  pub delegation_account : Option IcaAccount
  pub rewards_account : Option IcaAccount
  pub validators : List Validator
  pub minimum_deposit : ℤ
  pub c_value : ℕ
  pub last_c_value : ℕ
  pub unbonding_factor : ℕ
  pub active : Bool
  pub auto_compound_factor : ℕ
  pub lsm : Bool

-- The errors of x/liquidstakeibc/types/errors.go that the modelled operations return, and those of
-- other packages as one case.
pub data Error : Type 0 where
  invalid_host_chain host_chain_inactive min_deposit deposit_not_found insufficient_deposits
        invalid_messages validator_not_found not_enough_delegations invalid_denom redeem_failed
        failed_deposit mint_failed burn_failed invalid_address register_failed invalid_lsm_denom
        lsm_not_enabled lsm_deposit_processing lsm_validator_invalid_state parsing_amount
        insufficient_funds key_not_found invalid_signer other :
      Error
