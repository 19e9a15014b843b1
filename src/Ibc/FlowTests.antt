-- ===== src/Ibc/FlowTests.antt =====
-- A deposit on its way to the host chain, in a run on small data, and the theorem at it.
use pstake_native_test.Ibc.Redelegation.{
  Redelegations, RedelegateTx, RedelegateTxState, get_redelegations, set_redelegations,
  get_all_redelegation_tx, delete_redelegation_tx,
}
use pstake_native_test.Ibc.Block.{
  Controller, recreate, recreate_both, do_recreate_ica, delete_acked, do_delete_redelegation_txs,
  do_delete_matured_redelegation,
}
use pstake_native_test.Ibc.LsmDeposit.{
  get_lsm_deposits_from_ibc_sequence_id, update_lsm_deposits_state_and_sequence,
}
use pstake_native_test.Sdk.Store.Content.{erase, lookup, insert}
use pstake_native_test.Ibc.Keys.{redelegation_tx_key, transaction_sequence_id, deposit_key}
use pstake_native_test.Sdk.Coin.{coin}
use pstake_native_test.Ibc.Tests.{account}
use pstake_native_test.Ibc.HostChain.{set_host_chain, get_host_chain}
use pstake_native_test.Base.{List, ℕ, ◌++◌, false, ◌≡◌, refl, [], ◌∷◌, some, true, ok, Ends}
use pstake_native_test.Base.Text.{Bytes, codes, same}
use pstake_native_test.Sdk.Dec.Rounding.{integer_ops}
use pstake_native_test.Sdk.Store.Sorted.{list_store, list_store-StoreLaws}
use pstake_native_test.Ibc.Types.{ChannelState, HostChain, Deposit, DepositState}
use pstake_native_test.Ibc.Deposit.{set_deposit, get_deposits_with_sequence_id, key_of}
use pstake_native_test.Ibc.State.{State, deposit_account}
use pstake_native_test.Ibc.Flow.{
  deposit_received, chains_found, receive_deposits, on_acknowledgement_transfer, Router,
}
use pstake_native_test.Ibc.Flow.Follows.{StepsTo}
use pstake_native_test.Ibc.Flow.Refines.{run, run-Refines, Event, transfer_acked}
use pstake_native_test.Ibc.MessageTests.{Ledger, ledger, list_stores}
use pstake_native_test.Ibc.AckTests.{funded, address, codec, sent, deposit}

-- Every message is sent, under the sequence 7.
abbrev router : Router Ledger
router = record {
  transfer = λ channel c sender receiver w. ok (some 7, w);
  serialize = λ ms. some [];
  send_tx = λ owner connection bytes w. ok (some ([] ∷ []), w);
  active_channel = λ connection port w. some (codes "channel-0");
  port_id = λ owner. owner;
  tx_sequence = λ r. some 7;
}

abbrev at_state : DepositState → State list_stores Ledger
at_state x = record sent { deposit_store = (key_of deposit, record deposit { state = x }) ∷ [] }

abbrev arrived : Event
arrived =
    transfer_acked false (some true)
      (some (record { amount = some 30; sender = address deposit_account })) (codes "channel-0") 7

run-Refines_example :
    Ends
      (StepsTo list_stores router address
        (list_store-StoreLaws Deposit)
        (at_state DepositState.sent))
      (λ e. Unit {0})
      (Unit {0})
      (run list_stores router ledger address codec integer_ops arrived (at_state DepositState.sent))
run-Refines_example =
    run-Refines list_stores router ledger address codec integer_ops (list_store-StoreLaws Deposit)
      (list_store-StoreLaws HostChain) arrived (at_state DepositState.sent) ((λ h. refl), tt)
      ((tt, tt), (refl, tt))

-- The deposit is received, and the delegation account has its amount.
arrived-run :
    run list_stores router ledger address codec integer_ops arrived (at_state DepositState.sent)
    ≡ ok (record (at_state DepositState.received) {
      deposit_store =
          (key_of deposit, record deposit { state = DepositState.received; ibc_sequence_id = [] })
          ∷ [];
      chain_store =
          (
            codes "h-1",
            record funded {
              delegation_account = some (record account { balance = coin (codes "uatom") 130 });
            },
          )
          ∷ [];
    })
unfolding run on_acknowledgement_transfer get_deposits_with_sequence_id receive_deposits
    chains_found deposit_received set_deposit set_host_chain get_host_chain same
    transaction_sequence_id lookup get_lsm_deposits_from_ibc_sequence_id insert
    update_lsm_deposits_state_and_sequence deposit_key
arrived-run = refl

abbrev controller : Controller Ledger
controller = record {
  is_active = λ connection port w. false;
  port_id = λ owner. owner;
  register = λ connection owner w. (true, w);
}

abbrev with_rewards : HostChain
with_rewards = record funded { rewards_account = some account }

-- Both accounts are registered, and the chain is stored with them.
do_recreate_ica-run :
    let new = record account { channel_state = ChannelState.creating } in
    let paid = record new { balance = coin (codes "uatom") 100 } in
    let hc = record with_rewards { delegation_account = some paid; rewards_account = some new } in
    do_recreate_ica (list_store HostChain) controller with_rewards [] (sent.world)
    ≡ (hc, (codes "h-1", hc) ∷ [], sent.world)
unfolding do_recreate_ica recreate_both recreate set_host_chain insert same
do_recreate_ica-run = refl

abbrev with_times : List ℕ → Bytes × Redelegations
with_times ts = (
  codes "h-1",
  record {
    chain_id = codes "h-1";
    redelegations = record { delegator = []; src = []; dst = []; times = ts } ∷ [];
  },
)

-- The entry whose time has come is left out.
do_delete_matured_redelegation-run :
    do_delete_matured_redelegation
      (list_store Redelegations)
      5
      funded
      (with_times (4 ∷ 5 ∷ 6 ∷ []) ∷ [])
    ≡ with_times (6 ∷ []) ∷ []
unfolding do_delete_matured_redelegation get_redelegations set_redelegations lookup insert same
do_delete_matured_redelegation-run = refl

abbrev tx : RedelegateTxState → Bytes → Bytes × RedelegateTx
tx x id = (codes "h-1" ++ id, record { chain_id = codes "h-1"; ibc_sequence_id = id; state = x })

do_delete_redelegation_txs-run :
    do_delete_redelegation_txs
      (list_store RedelegateTx)
      (tx RedelegateTxState.acked (codes "a") ∷ tx RedelegateTxState.sent (codes "b") ∷ [])
    ≡ tx RedelegateTxState.sent (codes "b") ∷ []
unfolding do_delete_redelegation_txs delete_acked get_all_redelegation_tx delete_redelegation_tx
    redelegation_tx_key erase same
do_delete_redelegation_txs-run = refl
