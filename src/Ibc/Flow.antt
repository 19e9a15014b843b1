-- ===== src/Ibc/Flow.antt =====
-- How the deposits are sent to the host chain and delegated there: the deposit workflow and the
-- transfer hooks (x/liquidstakeibc/keeper/hooks.go), and `DoDelegate` (x/liquidstakeibc/keeper/abci.go).
pub mod Sent
pub mod Stage
pub mod Follows
pub mod Refines
use pstake_native_test.Base.{
  ℕ, ◌+◌, Bool, true, false, not, ◌==◌, Option, none, some, List, [], ◌∷◌, ltb, sum_by,
  if◌then◌else◌, Outcome, ok, err, panic, ◌>>=◌, ◌>>◌, require, found_or,
}
use pstake_native_test.Base.Text.{Bytes, same}
use pstake_native_test.Sdk.Coin.{Coin, coin}
use pstake_native_test.Sdk.Dec.{DecOps}
use pstake_native_test.Sdk.Store.Update.{set_each}
use pstake_native_test.Ibc.Types.{
  HostChain, IcaAccount, Deposit, DepositState, LsmDeposit, LsmDepositState, Error, other,
}
use pstake_native_test.Ibc.Keys.{transaction_sequence_id}
use pstake_native_test.Ibc.Deposit.{
  key_of, coin_amount, set_deposit, delete_deposit, get_pending_deposits_before_epoch,
  get_deposits_with_sequence_id, revert_deposits_state, get_delegable_deposits_for_chain,
}
use pstake_native_test.Ibc.LsmDeposit.{
  get_lsm_deposits_from_ibc_sequence_id, update_lsm_deposits_state_and_sequence,
  revert_lsm_deposits_state,
}
use pstake_native_test.Ibc.HostChain.{get_host_chain, set_host_chain}
use pstake_native_test.Ibc.Strategy.{Message, generate_delegate_messages}
use pstake_native_test.Ibc.State.{Stores, State, deposit_account}
use pstake_native_test.Ibc.Acks.{delegation_account}

-- The messages that the module sends. `transfer` gives the sequence, if the handler succeeded and its
-- response can be read; the other calls are those of `GenerateAndExecuteICATx`, where `send_tx` gives
-- the responses of the handler, if it succeeded.
pub record Router (W : Type 0) : Type 0 where
  pub transfer : Bytes → Coin → Bytes → Bytes → W → Outcome Error (Option ℕ × W)
  pub serialize : List Message → Option Bytes
  pub send_tx : Bytes → Bytes → Bytes → W → Outcome Error (Option (List Bytes) × W)
  pub active_channel : Bytes → Bytes → W → Option Bytes
  pub port_id : Bytes → Bytes
  pub tx_sequence : Bytes → Option ℕ

-- What the module reads of a transfer's packet: the amount, where it is a number, and the sender.
pub record TransferData : Type 0 where
  pub amount : Option ℕ
  pub sender : Bytes

unfoldable pub deposit_sent : Bytes → Deposit → Deposit
deposit_sent q d = record d { state = DepositState.sent; ibc_sequence_id = q }

unfoldable pub deposit_received : Deposit → Deposit
deposit_received d = record d { ibc_sequence_id = []; state = DepositState.received }

unfoldable pub deposit_delegating : Bytes → Deposit → Deposit
deposit_delegating q d = record d { ibc_sequence_id = q; state = DepositState.delegating }

module _ (st : Stores) {W : Type 0} (router : Router W) (module_address : Bytes → Bytes) where
  open router use {transfer, serialize, send_tx, active_channel, port_id, tx_sequence}

  unfoldable pub after_transfer : HostChain → Deposit → State st W → Option ℕ × W → State st W
  unfolding deposit_sent
  after_transfer hc d s (none, w) = record s { world = w }
  after_transfer hc d s (some sequence, w) = record s {
    deposit_store =
        set_deposit st.deposits (deposit_sent (transaction_sequence_id hc.channel_id sequence) d)
          s.deposit_store;
    world = w;
  }

  -- An empty deposit of an earlier epoch is deleted.
  unfoldable pub send_deposit :
      ℕ → Deposit → State st W → Option HostChain → Outcome Error (State st W)
  unfolding after_transfer
  send_deposit epoch d s none = ok s
  send_deposit epoch d s (some hc) =
      let sent = delegation_account hc >>= λ account.
      transfer hc.channel_id d.amount (module_address deposit_account) account.address s.world
      >>= λ r. ok (after_transfer hc d s r) in
      if d.amount.amount == 0
      then ok (
          if ltb d.epoch epoch
          then record s { deposit_store = delete_deposit st.deposits d s.deposit_store }
          else s)
      else if hc.active
      then sent
      else ok s

  unfoldable pub send_deposits : ℕ → List Deposit → State st W → Outcome Error (State st W)
  unfolding send_deposit
  send_deposits epoch [] s = ok s
  send_deposits epoch (d ∷ ds) s =
      send_deposit epoch d s (get_host_chain st.chains d.chain_id s.chain_store) >>= λ s'.
      send_deposits epoch ds s'

  unfoldable pub deposit_workflow : ℕ → State st W → Outcome Error (State st W)
  unfolding send_deposits
  deposit_workflow epoch s =
      send_deposits epoch (get_pending_deposits_before_epoch st.deposits epoch s.deposit_store) s

  -- The balance of the delegation account grows for each deposit of the transfer.
  unfoldable pub receive_deposits : ℕ → List Deposit → State st W → Outcome Error (State st W)
  unfolding deposit_received
  receive_deposits amount [] s = ok s
  receive_deposits amount (d ∷ ds) s = do
    hc ← found_or (get_host_chain st.chains d.chain_id s.chain_store) other
    account ← delegation_account hc
    receive_deposits amount ds (record s {
      deposit_store = set_deposit st.deposits (deposit_received d) s.deposit_store;
      chain_store =
          set_host_chain st.chains
            (record hc {
              delegation_account = some (record account {
                balance = coin account.balance.denom (account.balance.amount + amount);
              });
            })
            s.chain_store;
    })

  -- The events are emitted for chains that are on record.
  unfoldable pub chains_found : List Bytes → State st W → Outcome Error (Unit {0})
  chains_found [] s = ok tt
  chains_found (c ∷ cs) s =
      found_or (get_host_chain st.chains c s.chain_store) other >>= λ hc. chains_found cs s

  abbrev chains_of : List Deposit → List Bytes
  chains_of [] = []
  chains_of (d ∷ ds) = d.chain_id ∷ chains_of ds

  abbrev lsm_chains_of : List LsmDeposit → List Bytes
  lsm_chains_of [] = []
  lsm_chains_of (d ∷ ds) = d.chain_id ∷ lsm_chains_of ds

  -- `failed` tells whether the transfer module has an error; `ack` is the acknowledgement, whether it is
  -- a success, and `packet` the data, where they can be read.
  unfoldable pub on_acknowledgement_transfer :
      Bool → Option Bool → Option TransferData → Bytes → ℕ → State st W → Outcome Error (State st W)
  unfolding receive_deposits chains_found
  on_acknowledgement_transfer failed ack packet channel sequence s =
      let q = transaction_sequence_id channel sequence in
      require (not failed) other >> found_or ack other >>= λ success.
      require success other >> found_or packet other >>= λ sent_data.
      found_or sent_data.amount other >>= λ amount.
      let received =
        receive_deposits amount (get_deposits_with_sequence_id st.deposits q s.deposit_store) s
        >>= λ s'.
            let lsm = get_lsm_deposits_from_ibc_sequence_id st.lsm_deposits q s'.lsm_store in
            let s'' = record s' {
              lsm_store =
                  update_lsm_deposits_state_and_sequence st.lsm_deposits lsm
                    LsmDepositState.received [] s'.lsm_store;
            } in
            chains_found (lsm_chains_of lsm) s'' >>= λ u. ok s'' in
      if same sent_data.sender (module_address deposit_account) then received else ok s

  unfoldable pub on_timeout_transfer :
      Bool → Option TransferData → Bytes → ℕ → State st W → Outcome Error (State st W)
  unfolding chains_found
  on_timeout_transfer failed packet channel sequence s =
      let q = transaction_sequence_id channel sequence in
      let deposits = get_deposits_with_sequence_id st.deposits q s.deposit_store in
      let lsm = get_lsm_deposits_from_ibc_sequence_id st.lsm_deposits q s.lsm_store in
      let s' = record s {
        deposit_store = revert_deposits_state st.deposits deposits s.deposit_store;
        lsm_store = revert_lsm_deposits_state st.lsm_deposits lsm s.lsm_store;
      } in
      let reverted = chains_found (chains_of deposits) s' >>= λ u.
      chains_found (lsm_chains_of lsm) s' >>= λ v. ok s' in
      require (not failed) other >> found_or packet other >>= λ sent_data.
      if same sent_data.sender (module_address deposit_account) then reverted else ok s

  -- The sequence id of the response, if there is just one.
  unfoldable pub sequence_of : Bytes → List Bytes → Option Bytes
  sequence_of channel [] = none
  sequence_of channel (r ∷ []) = elim (tx_sequence r) [
    | none ↦ none
    | some n ↦ some (transaction_sequence_id channel n)
  ]
  sequence_of channel (r ∷ r' ∷ rs) = none

  -- The sequence id of the transaction, and none on an error. What was sent stays sent.
  unfoldable pub generate_and_execute_ica_tx :
      Bytes → Bytes → List Message → W → Outcome Error (Option Bytes × W)
  unfolding sequence_of
  generate_and_execute_ica_tx connection owner messages w = elim (serialize messages) [
    | none ↦ ok (none, w)
    | some bytes ↦ send_tx owner connection bytes w >>= λ r. ok (
      elim r.0 [
        | none ↦ none
        | some responses ↦ elim (active_channel connection (port_id owner) r.1) [
          | none ↦ none
          | some channel ↦ sequence_of channel responses
        ]
      ],
      r.1,
    )
  ]

  unfoldable pub after_delegate : List Deposit → State st W → Option Bytes × W → State st W
  unfolding deposit_delegating set_each
  after_delegate ds s (none, w) = record s { world = w }
  after_delegate ds s (some q, w) = record s {
    deposit_store = set_each st.deposits key_of (deposit_delegating q) ds s.deposit_store;
    world = w;
  }

  -- Without messages the deposits wait.
  unfoldable pub delegate_deposits :
      HostChain
      → List Deposit
      → Outcome Error (List Message)
      → State st W
      → Outcome Error (State st W)
  unfolding after_delegate generate_and_execute_ica_tx
  delegate_deposits hc ds (ok messages) s = delegation_account hc >>= λ account.
      generate_and_execute_ica_tx hc.connection_id account.owner messages s.world >>= λ r.
      ok (after_delegate ds s r)
  delegate_deposits hc ds (err e) s = ok s
  delegate_deposits hc ds panic s = panic

  -- Nothing is done without deposits.
  unfoldable pub if_any :
      List Deposit → State st W → Outcome Error (State st W) → Outcome Error (State st W)
  if_any [] s r = ok s
  if_any (d ∷ ds) s r = r

  unfoldable pub do_delegate : DecOps → HostChain → State st W → Outcome Error (State st W)
  unfolding delegate_deposits if_any
  do_delegate dec hc s =
      let deposits = get_delegable_deposits_for_chain st.deposits hc.chain_id s.deposit_store in
      let delegated =
        delegate_deposits hc deposits
          (generate_delegate_messages dec hc (sum_by coin_amount deposits)).1 s in
      if_any deposits s delegated
