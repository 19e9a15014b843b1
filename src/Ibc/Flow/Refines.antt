-- ===== src/Ibc/Flow/Refines.antt =====
-- Every event of the module takes the deposits along the diagram of their stages.
use pstake_native_test.Base.{sum_by, ℕ, ◌≡◌, refl, Bool, false, Option, List, All, Outcome, Ends}
use pstake_native_test.Base.Text.{Bytes}
use pstake_native_test.Sdk.Dec.{DecOps}
use pstake_native_test.Sdk.Store.{StoreLaws}
use pstake_native_test.Sdk.Store.Update.{IsKeyed}
use pstake_native_test.Ibc.Types.{DepositState, HostChain, Error}
use pstake_native_test.Ibc.Keys.{transaction_sequence_id}
use pstake_native_test.Ibc.Deposit.{coin_amount, key_of, get_delegable_deposits_for_chain}
use pstake_native_test.Ibc.Strategy.{generate_delegate_messages}
use pstake_native_test.Ibc.Bank.{Bank}
use pstake_native_test.Ibc.State.{Stores, State}
use pstake_native_test.Ibc.Acks.{IcaMessage, Delegate, handle_delegate_response}
use pstake_native_test.Ibc.Acks.Packet.{Codec, revert_messages}
use pstake_native_test.Ibc.Acks.Delegated
use pstake_native_test.Ibc.Acks.Reverted.{is_redelegate, has_delegate, Once}
use pstake_native_test.Ibc.Acks.Reverted
use pstake_native_test.Ibc.Flow.{
  Router, TransferData, deposit_workflow, on_acknowledgement_transfer, on_timeout_transfer,
  delegate_deposits, do_delegate,
}
use pstake_native_test.Ibc.Flow.Stage.{finish, Steps-same, Steps-remove}
use pstake_native_test.Ibc.Flow.Follows.{
  All-map, AllIn, StepsTo, Steady-of, Returns-Steady, if_any-Ends, reverted-Steps,
  transfer_acked-Follows, transfer_timed_out-Follows, delegate_deposits-Follows,
}
use pstake_native_test.Ibc.Flow.Sent.{deposit_workflow-Steps}

-- What happens to the module: the end of an epoch, the begin of a block for a chain, the outcome of a
-- transfer, as its hook gets it, and that of a transaction.
pub data Event : Type 0 where
  epoch_ended : ℕ → Event
  block_begun : HostChain → Event
  transfer_acked : Bool → Option Bool → Option TransferData → Bytes → ℕ → Event
  transfer_timed_out : Bool → Option TransferData → Bytes → ℕ → Event
  delegation_acked : Delegate → Bytes → ℕ → Event
  tx_failed : List IcaMessage → Bytes → ℕ → Event

module _ (st : Stores) {W : Type 0} (router : Router W) (bank : Bank W)
    (module_address : Bytes → Bytes) (cdc : Codec) (dec : DecOps) where
  unfoldable pub run : Event → State st W → Outcome Error (State st W)
  run (epoch_ended epoch) s = deposit_workflow st router module_address epoch s
  run (block_begun hc) s = do_delegate st router module_address dec hc s
  run (transfer_acked failed ack packet channel sequence) s =
      on_acknowledgement_transfer st router module_address failed ack packet channel sequence s
  run (transfer_timed_out failed packet channel sequence) s =
      on_timeout_transfer st router module_address failed packet channel sequence s
  run (delegation_acked m channel sequence) s =
      handle_delegate_response st bank module_address m channel sequence s
  run (tx_failed ms channel sequence) s =
      revert_messages st bank module_address cdc channel sequence ms s

  -- An acknowledgement is of deposits that were sent in that way.
  abbrev pub Matches : Event → State st W → Type 0
  Matches (epoch_ended epoch) s = Unit
  Matches (block_begun hc) s = Unit
  Matches (transfer_acked failed ack packet channel sequence) s =
      AllIn st router module_address DepositState.sent (transaction_sequence_id channel sequence) s
  Matches (transfer_timed_out failed packet channel sequence) s = Unit
  Matches (delegation_acked m channel sequence) s =
      AllIn st router module_address DepositState.delegating
        (transaction_sequence_id channel sequence) s
  Matches (tx_failed ms channel sequence) s = All (λ m. is_redelegate m ≡ false) ms

  module _ (laws : StoreLaws st.deposits) (chain_laws : StoreLaws st.chains) where
    -- On deposits under their keys, every event that returns takes each deposit one step along the
    -- diagram of the stages, or leaves it: an acknowledged transfer must be of deposits that were
    -- sent, an acknowledged delegation of deposits that are being delegated, and a failed transaction
    -- may have no redelegation.
    pub run-Refines :
        (ev : Event) (s : State st W)
        → Matches ev s
        → IsKeyed key_of (st.deposits.entries s.deposit_store)
        → Ends (StepsTo st router module_address laws s) (λ e. Unit {0}) (Unit {0}) (run ev s)
    unfolding run do_delegate
    run-Refines (epoch_ended epoch) s h k =
        deposit_workflow-Steps st router module_address laws epoch s k
    run-Refines (block_begun hc) s h k =
        let ds = get_delegable_deposits_for_chain st.deposits hc.chain_id s.deposit_store in
        let r = (generate_delegate_messages dec hc (sum_by coin_amount ds)).1 in
        if_any-Ends st router module_address (StepsTo st router module_address laws s) ds s
          (delegate_deposits st router module_address hc ds r s) (Steps-same _ _ refl)
          (delegate_deposits-Follows st router module_address laws hc r s k)
    run-Refines (transfer_acked failed ack packet channel sequence) s h k =
        transfer_acked-Follows st router module_address laws failed ack packet channel sequence s h
          k
    run-Refines (transfer_timed_out failed packet channel sequence) s h k =
        transfer_timed_out-Follows st router module_address laws failed packet channel sequence s k
    run-Refines (delegation_acked m channel sequence) s h k =
        Steady-of _ (StepsTo st router module_address laws s) _ _ _
          (Delegated.handle_delegate_response-Delegates st bank module_address chain_laws laws m
            channel sequence s k)
          (λ s' (hc, b, a, hc', (x1, x2, x3, x4, x5, x6, x7, x8, x9, x11, e, x10)).
            rw e (Steps-remove _ _ k.0 (All-map _ _ _ (λ e at_q there. rw (at_q there) finish) h)))
    run-Refines (tx_failed ms channel sequence) s h k =
        Returns-Steady _ (StepsTo st router module_address laws s) _
          (Reverted.revert_messages-Once st bank module_address cdc channel sequence laws ms s h k)
          (λ s' once.
            reverted-Steps st router module_address laws (transaction_sequence_id channel sequence)
              s s'.deposit_store (has_delegate ms) k (once.0))
