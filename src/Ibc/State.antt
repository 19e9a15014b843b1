-- ===== src/Ibc/State.antt =====
-- What the keeper of x/liquidstakeibc reads and writes (x/liquidstakeibc/keeper/keeper.go): its stores
-- and the state of the other modules. A call that returns an error, or panics, gives no state, since
-- the SDK discards what a failed message has written.
use pstake_native_test.Base.{ltb, Outcome, ok, ◌>>=◌, if◌then◌else◌, found_or}
use pstake_native_test.Base.Text.{Bytes, codes}
use pstake_native_test.Sdk.Coin.{Coin}
use pstake_native_test.Sdk.Store.{KvStore}
use pstake_native_test.Ibc.Types.{
  HostChain, Deposit, LsmDeposit, Unbonding, UserUnbonding, ValidatorUnbonding, Error, other,
}
use pstake_native_test.Ibc.Redelegation.{Redelegations, RedelegateTx}
use pstake_native_test.Ibc.Bank.{Bank, user, module_of}

pub record Stores : Type 1 where
  pub chains : KvStore HostChain
  pub deposits : KvStore Deposit
  pub lsm_deposits : KvStore LsmDeposit
  pub unbondings : KvStore Unbonding
  pub user_unbondings : KvStore UserUnbonding
  pub validator_unbondings : KvStore ValidatorUnbonding
  pub redelegations : KvStore Redelegations
  pub redelegation_txs : KvStore RedelegateTx

pub record Params : Type 0 where
  pub admin_address : Bytes
  pub fee_address : Bytes

pub record State (st : Stores) (W : Type 0) : Type 0 where
  pub chain_store : st.chains.Store
  pub deposit_store : st.deposits.Store
  pub lsm_store : st.lsm_deposits.Store
  pub unbonding_store : st.unbondings.Store
  pub user_store : st.user_unbondings.Store
  pub validator_store : st.validator_unbondings.Store
  pub redelegation_store : st.redelegations.Store
  pub tx_store : st.redelegation_txs.Store
  pub params : Params
  pub world : W

abbrev pub module_name : Bytes
module_name = codes "liquidstakeibc"

abbrev pub deposit_account : Bytes
deposit_account = codes "liquidstakeibc_deposit_account"

abbrev pub undelegation_account : Bytes
undelegation_account = codes "liquidstakeibc_undelegation_account"

-- Both are counted in days.
abbrev pub delegation_epoch : Bytes
delegation_epoch = codes "day"

abbrev pub undelegation_epoch : Bytes
undelegation_epoch = codes "day"

module _ {W : Type 0} (bank : Bank W) where
  open bank use {send, parse_address}

  unfoldable pub send_protocol_fee : Coin → Bytes → Bytes → W → Outcome Error W
  send_protocol_fee fee account fee_address w =
      found_or (parse_address fee_address) other >>= λ a. send (module_of account) (user a) fee w

  -- A fee of zero is not sent.
  unfoldable pub send_positive_fee : Coin → Bytes → Bytes → W → Outcome Error W
  unfolding send_protocol_fee
  send_positive_fee fee account fee_address w =
      if ltb 0 fee.amount then send_protocol_fee fee account fee_address w else ok w
