-- ===== src/Ibc/Acks.antt =====
-- What the keeper does with each message of an interchain transaction that succeeded
-- (x/liquidstakeibc/keeper/ica_handlers.go).
pub mod Packet
pub mod Delegations
pub mod Delegated
pub mod Redelegated
pub mod Undelegated
pub mod Reverted
use pstake_native_test.Base.{
  ℕ, ◌&&◌, Option, none, some, List, [], ◌∷◌, ◌==◌, if◌then◌else◌, Outcome, ok, panic, ◌>>=◌,
  found_or,
}
use pstake_native_test.Base.Int.{pos, ◌+ℤ◌, ◌-ℤ◌}
use pstake_native_test.Base.Text.{Bytes, same}
use pstake_native_test.Sdk.Coin.{Coin, coin_sub}
use pstake_native_test.Sdk.Store.Update.{set_each, delete_each}
use pstake_native_test.Ibc.Types.{
  HostChain, IcaAccount, Validator, Unbonding, UnbondingState, ValidatorUnbonding, Error,
  invalid_host_chain, validator_not_found, invalid_lsm_denom,
}
use pstake_native_test.Ibc.Keys.{transaction_sequence_id}
use pstake_native_test.Ibc.Deposit.{key_of, get_deposits_with_sequence_id}
use pstake_native_test.Ibc.LsmDeposit.{key_of_lsm, get_lsm_deposits_from_ibc_sequence_id}
use pstake_native_test.Ibc.Unbonding.{
  set_unbonding, filter_unbondings, filter_validator_unbondings, key_of_unbonding,
  key_of_validator_unbonding,
}
use pstake_native_test.Ibc.Redelegation.{
  RedelegateTx, BeginRedelegate, RedelegateTxState, get_redelegation_tx, set_redelegation_tx,
  add_redelegation_entry,
}
use pstake_native_test.Ibc.HostChain.{
  set_host_chain, set_host_chain_validator, get_host_chain_from_delegator_address,
  get_host_chain_from_host_denom,
}
use pstake_native_test.Ibc.Strategy.{get_validator}
use pstake_native_test.Ibc.Bank.{Bank}
use pstake_native_test.Ibc.State.{Stores, State, deposit_account, undelegation_account}

-- `MsgDelegate` and `MsgUndelegate`.
pub record Delegate : Type 0 where
  pub delegator_address : Bytes
  pub validator_address : Bytes
  pub amount : Coin

pub record Transfer : Type 0 where
  pub token : Coin
  pub sender : Bytes
  pub receiver : Bytes

-- The messages that the handlers know, by their type, and all others.
pub data IcaMessage : Type 0 where
  delegate : Delegate → IcaMessage
  undelegate : Delegate → IcaMessage
  transfer : Transfer → IcaMessage
  redeem_tokens : Bytes → Coin → IcaMessage
  begin_redelegate : BeginRedelegate → Coin → IcaMessage
  unknown : IcaMessage

-- The validator with its delegation changed.
abbrev pub delegated_more : ℕ → Validator → Validator
delegated_more n v = record v { delegated_amount = v.delegated_amount +ℤ pos n }

abbrev pub delegated_less : ℕ → Validator → Validator
delegated_less n v = record v { delegated_amount = v.delegated_amount -ℤ pos n }

-- `hc.DelegationAccount`, whose fields panic where it is missing.
abbrev pub delegation_account : HostChain → Outcome Error IcaAccount
delegation_account hc = elim hc.delegation_account [ none ↦ panic | some account ↦ ok account ]

unfoldable pub pay_delegation : HostChain → Coin → Outcome Error HostChain
pay_delegation hc amount = do
  account ← delegation_account hc
  left ← coin_sub account.balance amount
  ok (record hc { delegation_account = some (record account { balance = left }) })

-- `strings.Cut(denom, "/")`, the part before.
unfoldable pub before_slash : Bytes → Option Bytes
before_slash [] = none
before_slash (c ∷ cs) =
    if c == b'/' then some [] else elim (before_slash cs) [ none ↦ none | some b ↦ some (c ∷ b) ]

unfoldable pub unbonding_maturing : ℕ → Unbonding → Unbonding
unbonding_maturing time u = record u {
  ibc_sequence_id = [];
  mature_time = some time;
  state = UnbondingState.maturing;
}

unfoldable pub validator_unbonding_maturing : ℕ → ValidatorUnbonding → ValidatorUnbonding
validator_unbonding_maturing time u = record u { ibc_sequence_id = []; mature_time = some time }

unfoldable pub with_sequence_id : Bytes → Unbonding → Unbonding
with_sequence_id q u = record u { ibc_sequence_id = q }

-- `module_address` is the address of a module's account.
module _ (st : Stores) {W : Type 0} (bank : Bank W) (module_address : Bytes → Bytes) where
  open bank use {burn}

  unfoldable pub handle_delegate_response :
      Delegate → Bytes → ℕ → State st W → Outcome Error (State st W)
  unfolding pay_delegation
  handle_delegate_response m channel sequence s =
      let deposits =
        delete_each st.deposits key_of
          (get_deposits_with_sequence_id st.deposits (transaction_sequence_id channel sequence)
            s.deposit_store)
          s.deposit_store in
      do
        hc ←
            found_or
              (get_host_chain_from_delegator_address st.chains m.delegator_address s.chain_store)
              invalid_host_chain
        paid ← pay_delegation hc m.amount
        v ← found_or (get_validator m.validator_address paid.validators) validator_not_found
        let set =
            set_host_chain_validator st.chains paid (delegated_more m.amount.amount v) s.chain_store
        ok (record s {
          deposit_store = deposits;
          chain_store = set_host_chain st.chains set.0 set.1;
        })

  -- The minted tokens of each unbonding are burnt before it is stored.
  unfoldable pub burn_and_mature :
      ℕ → List Unbonding → st.unbondings.Store → W → Outcome Error (st.unbondings.Store × W)
  unfolding unbonding_maturing set_unbonding
  burn_and_mature time [] store w = ok (store, w)
  burn_and_mature time (u ∷ us) store w = burn undelegation_account u.burn_amount w >>= λ w'.
      burn_and_mature time us (set_unbonding st.unbondings (unbonding_maturing time u) store) w'

  -- `time` is the completion time of the response.
  unfoldable pub handle_undelegate_response :
      Delegate → ℕ → Bytes → ℕ → State st W → Outcome Error (State st W)
  unfolding burn_and_mature validator_unbonding_maturing
  handle_undelegate_response m time channel sequence s = do
    let q = transaction_sequence_id channel sequence
    hc ←
        found_or (get_host_chain_from_delegator_address st.chains m.delegator_address s.chain_store)
          invalid_host_chain
    v ← found_or (get_validator m.validator_address hc.validators) validator_not_found
    let set = set_host_chain_validator st.chains hc (delegated_less m.amount.amount v) s.chain_store
    matured ←
        burn_and_mature time
          (filter_unbondings st.unbondings (λ u. same u.ibc_sequence_id q) s.unbonding_store)
          s.unbonding_store s.world
    ok (record s {
      chain_store = set.1;
      unbonding_store = matured.0;
      world = matured.1;
      validator_store =
          set_each st.validator_unbondings key_of_validator_unbonding
            (validator_unbonding_maturing time)
            (filter_validator_unbondings st.validator_unbondings (λ u. same u.ibc_sequence_id q)
              s.validator_store)
            s.validator_store;
    })

  -- Of the unbondings that are sent with a transfer, the sequence id becomes the transfer's.
  unfoldable pub unbonding_transfer :
      HostChain → ℕ → Bytes → st.unbondings.Store → st.unbondings.Store
  unfolding with_sequence_id
  unbonding_transfer hc sent q store =
      set_each st.unbondings key_of_unbonding
        (with_sequence_id (transaction_sequence_id hc.channel_id sent))
        (filter_unbondings st.unbondings (λ u. same u.ibc_sequence_id q) store) store

  unfoldable pub validator_unbonding_transfer :
      HostChain → Bytes → st.validator_unbondings.Store → st.validator_unbondings.Store
  validator_unbonding_transfer hc q store =
      delete_each st.validator_unbondings key_of_validator_unbonding
        (filter_validator_unbondings st.validator_unbondings
          (λ u. same u.chain_id hc.chain_id && same u.ibc_sequence_id q) store)
        store

  -- `sent` is the sequence of the response.
  unfoldable pub handle_msg_transfer :
      Transfer → ℕ → Bytes → ℕ → State st W → Outcome Error (State st W)
  unfolding unbonding_transfer validator_unbonding_transfer
  handle_msg_transfer m sent channel sequence s = do
    let q = transaction_sequence_id channel sequence
    hc ←
        found_or (get_host_chain_from_host_denom st.chains m.token.denom s.chain_store)
          invalid_host_chain
    account ← delegation_account hc
    ok (record s {
      unbonding_store =
          if same m.sender account.address && same m.receiver (module_address undelegation_account)
          then unbonding_transfer hc sent q s.unbonding_store
          else s.unbonding_store;
      validator_store =
          if same m.sender account.address && same m.receiver (module_address deposit_account)
          then validator_unbonding_transfer hc q s.validator_store
          else s.validator_store;
    })

  -- `amount` is the message's, `redeemed` that of the response.
  unfoldable pub handle_msg_redeem_tokens_for_shares :
      Bytes → Coin → Coin → Bytes → ℕ → State st W → Outcome Error (State st W)
  unfolding before_slash
  handle_msg_redeem_tokens_for_shares delegator amount redeemed channel sequence s =
      let lsm_deposits =
        delete_each st.lsm_deposits key_of_lsm
          (get_lsm_deposits_from_ibc_sequence_id st.lsm_deposits
            (transaction_sequence_id channel sequence) s.lsm_store)
          s.lsm_store in
      do
        hc ←
            found_or (get_host_chain_from_delegator_address st.chains delegator s.chain_store)
              invalid_host_chain
        operator ← found_or (before_slash amount.denom) invalid_lsm_denom
        v ← found_or (get_validator operator hc.validators) validator_not_found
        let set =
            set_host_chain_validator st.chains hc (delegated_more redeemed.amount v) s.chain_store
        ok (record s {
          lsm_store = lsm_deposits;
          chain_store = set_host_chain st.chains set.0 set.1;
        })

  -- Both validators of a redelegation, the receiving one first.
  unfoldable pub move_delegation :
      HostChain → BeginRedelegate → ℕ → st.chains.Store → Outcome Error st.chains.Store
  move_delegation hc m n store = do
    to ← found_or (get_validator m.dst hc.validators) validator_not_found
    let added = set_host_chain_validator st.chains hc (delegated_more n to) store
    from ← found_or (get_validator m.src added.0.validators) validator_not_found
    let removed = set_host_chain_validator st.chains added.0 (delegated_less n from) added.1
    ok removed.1

  -- What is recorded for a transaction; one that is not on record changes nothing.
  unfoldable pub record_redelegation :
      HostChain
      → BeginRedelegate
      → Coin
      → ℕ
      → Option RedelegateTx
      → State st W
      → Outcome Error (State st W)
  unfolding move_delegation
  record_redelegation hc m amount time none s = ok s
  record_redelegation hc m amount time (some tx) s =
      move_delegation hc m amount.amount s.chain_store >>= λ chains. ok (record s {
        tx_store =
            set_redelegation_tx st.redelegation_txs (record tx { state = RedelegateTxState.acked })
              s.tx_store;
        chain_store = chains;
        redelegation_store =
            add_redelegation_entry st.redelegations hc.chain_id m time s.redelegation_store;
      })

  unfoldable pub handle_msg_begin_redelegate :
      BeginRedelegate → Coin → ℕ → Bytes → ℕ → State st W → Outcome Error (State st W)
  unfolding record_redelegation
  handle_msg_begin_redelegate m amount time channel sequence s =
      found_or (get_host_chain_from_host_denom st.chains amount.denom s.chain_store)
        invalid_host_chain
      >>= λ hc.
          record_redelegation hc m amount time
            (get_redelegation_tx st.redelegation_txs hc.chain_id
              (transaction_sequence_id channel sequence) s.tx_store)
            s
