-- ===== src/Ibc/Acks/Packet.antt =====
-- The acknowledgements and timeouts of interchain transactions (x/liquidstakeibc/keeper/ibc.go).
use pstake_native_test.Base.{
  ℕ, zero, suc, Bool, true, false, Option, none, some, List, [], ◌∷◌, if◌then◌else◌, Outcome, ok,
  panic, ◌>>=◌, found_or,
}
use pstake_native_test.Base.Text.{Bytes, same}
use pstake_native_test.Sdk.Coin.{Coin}
use pstake_native_test.Sdk.Store.Update.{set_each}
use pstake_native_test.Ibc.Types.{ValidatorUnbonding, Error, invalid_host_chain, other}
use pstake_native_test.Ibc.Keys.{transaction_sequence_id}
use pstake_native_test.Ibc.Deposit.{get_deposits_with_sequence_id, revert_deposits_state}
use pstake_native_test.Ibc.LsmDeposit.{filter_lsm_deposits_with_limit, revert_lsm_deposits_state}
use pstake_native_test.Ibc.Unbonding.{
  filter_unbondings, filter_validator_unbondings, key_of_validator_unbonding,
  fail_all_unbondings_for_sequence_id, revert_unbondings_state,
  delete_validator_unbondings_for_sequence_id,
}
use pstake_native_test.Ibc.Redelegation.{
  RedelegateTxState, get_redelegation_tx, set_redelegation_tx,
}
use pstake_native_test.Ibc.HostChain.{get_host_chain_from_host_denom}
use pstake_native_test.Ibc.Bank.{Bank}
use pstake_native_test.Ibc.State.{Stores, State}
use pstake_native_test.Ibc.Acks.{
  IcaMessage, delegate, undelegate, transfer, redeem_tokens, begin_redelegate, unknown,
  handle_delegate_response, handle_undelegate_response, handle_msg_transfer,
  handle_msg_redeem_tokens_for_shares, handle_msg_begin_redelegate,
}

-- `sdk.TxMsgData`: the responses of the messages, in either of two fields.
pub record TxMsgData : Type 0 where
  pub msg_data : List Bytes
  pub msg_responses : List Bytes

-- `channeltypes.Acknowledgement`, by its response.
pub data Acknowledgement : Type 0 where
  ack_error : Acknowledgement
  ack_result : Bytes → Acknowledgement
  ack_none : Acknowledgement

-- What the codecs of the SDK and of ibc-go read from bytes.
pub record Codec : Type 0 where
  pub acknowledgement : Bytes → Option Acknowledgement
  pub packet_data : Bytes → Option Bytes
  pub cosmos_tx : Bytes → Option (List IcaMessage)
  pub tx_msg_data : Bytes → Option TxMsgData
  pub undelegate_response : Bytes → Option ℕ
  pub transfer_response : Bytes → Option ℕ
  pub redeem_response : Bytes → Option Coin
  pub redelegate_response : Bytes → Option ℕ

-- An index out of range panics.
abbrev pub get_elem : List Bytes → ℕ → Outcome Error Bytes
get_elem [] n = panic
get_elem (x ∷ xs) zero = ok x
get_elem (x ∷ xs) (suc n) = get_elem xs n

unfoldable pub response_at : TxMsgData → ℕ → Outcome Error Bytes
response_at t i = elim t.msg_data [ [] ↦ get_elem t.msg_responses i | x ∷ xs ↦ get_elem (x ∷ xs) i ]

unfoldable pub without_sequence_id : ValidatorUnbonding → ValidatorUnbonding
without_sequence_id u = record u { ibc_sequence_id = [] }

module _ (st : Stores) {W : Type 0} (bank : Bank W) (module_address : Bytes → Bytes) (cdc : Codec)
    (channel : Bytes) (sequence : ℕ) where
  -- The handler of one message, with the response at its index.
  unfoldable pub handle_message :
      TxMsgData → ℕ → IcaMessage → State st W → Outcome Error (State st W)
  unfolding response_at
  handle_message t i (delegate m) s =
      handle_delegate_response st bank module_address m channel sequence s
  handle_message t i (undelegate m) s = response_at t i >>= λ bytes.
      found_or (cdc.undelegate_response bytes) other >>= λ time.
      handle_undelegate_response st bank module_address m time channel sequence s
  handle_message t i (transfer m) s = response_at t i >>= λ bytes.
      found_or (cdc.transfer_response bytes) other >>= λ sent.
      handle_msg_transfer st bank module_address m sent channel sequence s
  handle_message t i (redeem_tokens delegator amount) s = response_at t i >>= λ bytes.
      found_or (cdc.redeem_response bytes) other >>= λ redeemed.
      handle_msg_redeem_tokens_for_shares st bank module_address delegator amount redeemed channel
        sequence s
  handle_message t i (begin_redelegate m amount) s = response_at t i >>= λ bytes.
      found_or (cdc.redelegate_response bytes) other >>= λ time.
      handle_msg_begin_redelegate st bank module_address m amount time channel sequence s
  handle_message t i unknown s = ok s

  unfoldable pub handle_messages :
      TxMsgData → ℕ → List IcaMessage → State st W → Outcome Error (State st W)
  unfolding handle_message
  handle_messages t i [] s = ok s
  handle_messages t i (m ∷ ms) s = handle_message t i m s >>= λ s'. handle_messages t (suc i) ms s'

  unfoldable pub handle_successful_ack : Bytes → Bytes → State st W → Outcome Error (State st W)
  unfolding handle_messages
  handle_successful_ack result packet s = found_or (cdc.tx_msg_data result) other >>= λ t.
      found_or (cdc.cosmos_tx packet) other >>= λ ms. handle_messages t 0 ms s

  abbrev sequence_id : Bytes
  sequence_id = transaction_sequence_id channel sequence

  unfoldable pub revert_delegate : State st W → State st W
  revert_delegate s = record s {
    deposit_store =
        revert_deposits_state st.deposits
          (get_deposits_with_sequence_id st.deposits sequence_id s.deposit_store) s.deposit_store;
  }

  unfoldable pub fail_undelegate : State st W → State st W
  fail_undelegate s = record s {
    unbonding_store =
        fail_all_unbondings_for_sequence_id st.unbondings sequence_id s.unbonding_store;
    validator_store =
        delete_validator_unbondings_for_sequence_id st.validator_unbondings sequence_id
          s.validator_store;
  }

  unfoldable pub revert_transfer : State st W → State st W
  unfolding without_sequence_id
  revert_transfer s = record s {
    unbonding_store =
        revert_unbondings_state st.unbondings
          (filter_unbondings st.unbondings (λ u. same u.ibc_sequence_id sequence_id)
            s.unbonding_store)
          s.unbonding_store;
    validator_store =
        set_each st.validator_unbondings key_of_validator_unbonding without_sequence_id
          (filter_validator_unbondings st.validator_unbondings
            (λ u. same u.ibc_sequence_id sequence_id) s.validator_store)
          s.validator_store;
  }

  unfoldable pub revert_redeem : State st W → State st W
  revert_redeem s = record s {
    lsm_store =
        revert_lsm_deposits_state st.lsm_deposits
          (filter_lsm_deposits_with_limit st.lsm_deposits (λ d. same d.ibc_sequence_id sequence_id)
            s.lsm_store)
          s.lsm_store;
  }

  -- What a failed message takes back, and whether the loop goes on: a redelegation that is not on
  -- record ends it.
  unfoldable pub revert_message : IcaMessage → State st W → Outcome Error (State st W × Bool)
  unfolding revert_delegate fail_undelegate revert_transfer revert_redeem
  revert_message (delegate m) s = ok (revert_delegate s, true)
  revert_message (undelegate m) s = ok (fail_undelegate s, true)
  revert_message (transfer m) s = ok (revert_transfer s, true)
  revert_message (redeem_tokens delegator amount) s = ok (revert_redeem s, true)
  revert_message (begin_redelegate m amount) s =
      found_or (get_host_chain_from_host_denom st.chains amount.denom s.chain_store)
        invalid_host_chain
      >>= λ hc. elim (get_redelegation_tx st.redelegation_txs hc.chain_id sequence_id s.tx_store) [
        | none ↦ ok (s, false)
        | some tx ↦ ok (
          record s {
            tx_store =
                set_redelegation_tx st.redelegation_txs
                  (record tx { state = RedelegateTxState.acked }) s.tx_store;
          },
          true,
        )
      ]
  revert_message unknown s = ok (s, true)

  unfoldable pub revert_messages : List IcaMessage → State st W → Outcome Error (State st W)
  unfolding revert_message
  revert_messages [] s = ok s
  revert_messages (m ∷ ms) s =
      revert_message m s >>= λ r. let rest = revert_messages ms r.0 in if r.1 then rest else ok r.0

  unfoldable pub handle_unsuccessful_ack : Bytes → State st W → Outcome Error (State st W)
  unfolding revert_messages
  handle_unsuccessful_ack packet s =
      found_or (cdc.cosmos_tx packet) other >>= λ ms. revert_messages ms s

  unfoldable pub on_acknowledgement_packet : Bytes → Bytes → State st W → Outcome Error (State st W)
  unfolding handle_successful_ack handle_unsuccessful_ack
  on_acknowledgement_packet packet acknowledgement s =
      found_or (cdc.acknowledgement acknowledgement) other >>= λ ack.
      found_or (cdc.packet_data packet) other >>= λ tx. elim ack [
        | ack_error ↦ handle_unsuccessful_ack tx s
        | ack_result result ↦ handle_successful_ack result tx s
        | ack_none ↦ ok s
      ]

  unfoldable pub on_timeout_packet : Bytes → State st W → Outcome Error (State st W)
  unfolding handle_unsuccessful_ack
  on_timeout_packet packet s =
      found_or (cdc.packet_data packet) other >>= λ tx. handle_unsuccessful_ack tx s
