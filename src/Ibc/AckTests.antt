-- ===== src/Ibc/AckTests.antt =====
-- Runs of the acknowledgements on small data, and the theorems at inputs that meet their hypotheses.
use pstake_native_test.Ibc.HostChain.{
  get_host_chain_from_delegator_address, get_host_chain_from_host_denom, set_host_chain,
  set_host_chain_validator,
}
use pstake_native_test.Sdk.Store.Content.{lookup, insert}
use pstake_native_test.Base.{
  ◌++◌, ◌≡◌, refl, true, List, [], ◌∷◌, Option, none, some, Outcome, ok, err, panic, Ends, Returns,
}
use pstake_native_test.Base.Int.{pos, ℤ, ◌+ℤ◌, ◌-ℤ◌}
use pstake_native_test.Base.Text.{Bytes, codes, same}
use pstake_native_test.Sdk.Coin.{coin_sub, coin, Coin}
use pstake_native_test.Sdk.Store.Sorted.{list_store-StoreLaws}
use pstake_native_test.Sdk.Store.Update.{IsKeyed}
use pstake_native_test.Ibc.Types.{
  HostChain, Deposit, DepositState, Unbonding, ValidatorUnbonding, UnbondingState, Error,
}
use pstake_native_test.Ibc.Keys.{redelegation_tx_key, transaction_sequence_id}
use pstake_native_test.Ibc.Deposit.{key_of}
use pstake_native_test.Ibc.Unbonding.{key_of_unbonding}
use pstake_native_test.Ibc.Redelegation.{get_redelegation_tx, BeginRedelegate, RedelegateTxState}
use pstake_native_test.Ibc.Strategy.{get_validator, get_host_chain_total_delegations}
use pstake_native_test.Ibc.State.{State}
use pstake_native_test.Ibc.Acks.{
  move_delegation, Delegate, delegate, handle_delegate_response, handle_undelegate_response,
  handle_msg_begin_redelegate,
}
use pstake_native_test.Ibc.Acks.Packet.{
  Codec, ack_error, on_timeout_packet, on_acknowledgement_packet,
}
use pstake_native_test.Ibc.Acks.Delegated
use pstake_native_test.Ibc.Acks.Undelegated
use pstake_native_test.Ibc.Acks.Redelegated
use pstake_native_test.Ibc.Acks.Reverted
use pstake_native_test.Ibc.Acks.Reverted.{has_delegate}
use pstake_native_test.Ibc.Tests.{chain, two, account}
use pstake_native_test.Ibc.MessageTests.{Ledger, ledger, ledger-BankLaws, list_stores, before}

abbrev q : Bytes
q = transaction_sequence_id (codes "channel-0") 7

abbrev pub funded : HostChain
funded = record (chain two) {
  delegation_account = some (record account { balance = coin (codes "uatom") 100 });
}

abbrev pub deposit : Deposit
deposit = record {
  chain_id = codes "h-1";
  amount = coin (codes "ibc/A") 30;
  epoch = 1;
  state = DepositState.delegating;
  ibc_sequence_id = q;
}

abbrev unbonding : Unbonding
unbonding = record {
  chain_id = codes "h-1";
  epoch_number = 4;
  mature_time = none;
  burn_amount = coin (codes "stk/uatom") 10;
  unbond_amount = coin (codes "uatom") 20;
  ibc_sequence_id = q;
  state = UnbondingState.initiated;
}

abbrev pub sent : State list_stores Ledger
sent = record before {
  chain_store = (codes "h-1", funded) ∷ [];
  deposit_store = (key_of deposit, deposit) ∷ [];
  tx_store =
      (
        codes "h-1" ++ q,
        record { chain_id = codes "h-1"; ibc_sequence_id = q; state = RedelegateTxState.sent },
      )
      ∷ [];
  unbonding_store = (key_of_unbonding unbonding, unbonding) ∷ [];
}

abbrev message : Delegate
message = record {
  delegator_address = codes "host1abc";
  validator_address = 118 ∷ 1 ∷ [];
  amount = coin (codes "uatom") 30;
}

abbrev redelegate : BeginRedelegate
redelegate = record { delegator = codes "host1abc"; src = 118 ∷ 1 ∷ []; dst = 118 ∷ 2 ∷ [] }

abbrev pub address : Bytes → Bytes
address a = a

deposit-IsKeyed : IsKeyed key_of sent.deposit_store
deposit-IsKeyed = ((tt, tt), (refl, tt))

unbonding-IsKeyed : IsKeyed key_of_unbonding sent.unbonding_store
unbonding-IsKeyed = ((tt, tt), (refl, tt))

-- A transaction of two delegations.
abbrev pub codec : Codec
codec = record {
  acknowledgement = λ b. some ack_error;
  packet_data = λ b. some b;
  cosmos_tx = λ b. some (delegate message ∷ delegate message ∷ []);
  tx_msg_data = λ b. some (record { msg_data = []; msg_responses = [] });
  undelegate_response = λ b. some 9;
  transfer_response = λ b. some 9;
  redeem_response = λ b. some (coin (codes "uatom") 1);
  redelegate_response = λ b. some 9;
}

handle_delegate_response-Delegates_example :
    Ends
      (Delegated.Delegates list_stores ledger address
        (list_store-StoreLaws HostChain)
        (list_store-StoreLaws Deposit)
        message
        (codes "channel-0")
        7
        sent
        deposit-IsKeyed)
      (Delegated.Refused list_stores ledger address
        (list_store-StoreLaws HostChain)
        (list_store-StoreLaws Deposit)
        message
        (codes "channel-0")
        7
        sent
        deposit-IsKeyed)
      (Delegated.Panics list_stores ledger address
        (list_store-StoreLaws HostChain)
        (list_store-StoreLaws Deposit)
        message
        (codes "channel-0")
        7
        sent
        deposit-IsKeyed)
      (handle_delegate_response list_stores ledger address message (codes "channel-0") 7 sent)
handle_delegate_response-Delegates_example =
    Delegated.handle_delegate_response-Delegates list_stores ledger address
      (list_store-StoreLaws HostChain) (list_store-StoreLaws Deposit) message (codes "channel-0") 7
      sent deposit-IsKeyed

handle_undelegate_response-Undelegates_example :
    Ends
      (Undelegated.Undelegates list_stores ledger ledger-BankLaws address
        (list_store-StoreLaws HostChain)
        (list_store-StoreLaws Unbonding)
        (list_store-StoreLaws ValidatorUnbonding)
        message
        9
        (codes "channel-0")
        7
        sent
        unbonding-IsKeyed
        (tt, tt))
      (Undelegated.Refused list_stores ledger ledger-BankLaws address
        (list_store-StoreLaws HostChain)
        (list_store-StoreLaws Unbonding)
        (list_store-StoreLaws ValidatorUnbonding)
        message
        9
        (codes "channel-0")
        7
        sent
        unbonding-IsKeyed
        (tt, tt))
      (Undelegated.BurnPanics list_stores ledger ledger-BankLaws address)
      (handle_undelegate_response list_stores ledger address message 9 (codes "channel-0") 7 sent)
handle_undelegate_response-Undelegates_example =
    Undelegated.handle_undelegate_response-Undelegates list_stores ledger ledger-BankLaws address
      (list_store-StoreLaws HostChain) (list_store-StoreLaws Unbonding)
      (list_store-StoreLaws ValidatorUnbonding) message 9 (codes "channel-0") 7 sent
      unbonding-IsKeyed (tt, tt)

on_timeout_packet-Once_example :
    Returns
      (Reverted.Once list_stores ledger address codec
        (codes "channel-0")
        7
        (list_store-StoreLaws Deposit)
        true
        sent)
      (on_timeout_packet list_stores ledger address codec (codes "channel-0") 7 [] sent)
    × (on_acknowledgement_packet list_stores ledger address codec (codes "channel-0") 7 [] [] sent
        ≡ on_timeout_packet list_stores ledger address codec (codes "channel-0") 7 [] sent)
on_timeout_packet-Once_example =
    Reverted.on_timeout_packet-Once list_stores ledger address codec (codes "channel-0") 7
      (list_store-StoreLaws Deposit) [] [] [] (delegate message ∷ delegate message ∷ []) sent refl
      refl refl (refl, (refl, tt)) deposit-IsKeyed

-- What is delegated and left on the account after a delegation.
abbrev chains_after : Outcome Error (State list_stores Ledger) → List (Bytes × HostChain)
chains_after (ok s) = s.chain_store
chains_after (err e) = []
chains_after panic = []

abbrev balances : List (Bytes × HostChain) → List (Option Coin × ℤ)
balances [] = []
balances ((k, hc) ∷ r) =
    (
      elim hc.delegation_account [ none ↦ none | some a ↦ some a.balance ],
      get_host_chain_total_delegations hc,
    )
    ∷ balances r

delegate_run :
    balances (
      chains_after
        (handle_delegate_response list_stores ledger address message (codes "channel-0") 7 sent))
    ≡ (some (coin (codes "uatom") 70), pos 40) ∷ []
unfolding handle_delegate_response same get_host_chain_total_delegations
    get_host_chain_from_delegator_address coin_sub get_validator set_host_chain insert
    set_host_chain_validator ◌+ℤ◌
delegate_run = refl

-- A redelegation leaves the total.
redelegate_run :
    balances (
      chains_after (
        handle_msg_begin_redelegate list_stores ledger address redelegate
          (coin (codes "uatom") 5)
          9
          (codes "channel-0")
          7
          sent))
    ≡ (some (coin (codes "uatom") 100), pos 10) ∷ []
unfolding handle_msg_begin_redelegate same get_host_chain_total_delegations
    get_host_chain_from_host_denom get_validator set_host_chain insert set_host_chain_validator ◌+ℤ◌
    ◌-ℤ◌ get_redelegation_tx redelegation_tx_key lookup move_delegation transaction_sequence_id
redelegate_run = refl
