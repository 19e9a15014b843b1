-- ===== src/Ibc/Acks/Reverted.antt =====
-- A transaction that failed or timed out, as the keeper takes it back.
use pstake_native_test.Sdk.Store.Content.{Entries}
use pstake_native_test.Base.{
  ℕ, ◌≡◌, refl, ap, ◌∙◌, sym, Bool, true, false, ◌||◌, some, Returns, Returns-map, List, [], ◌∷◌,
  All, if◌then◌else◌,
}
use pstake_native_test.Base.Text.{Bytes, same}
use pstake_native_test.Sdk.Store.{StoreLaws}
use pstake_native_test.Sdk.Store.Update.{IsKeyed, update_where, update-IsKeyed, update_twice}
use pstake_native_test.Ibc.Types.{Deposit}
use pstake_native_test.Ibc.Keys.{transaction_sequence_id}
use pstake_native_test.Ibc.Deposit.{key_of}
use pstake_native_test.Ibc.Deposit.Amounts.{entries-taken_back, taken_back}
use pstake_native_test.Ibc.Bank.{Bank}
use pstake_native_test.Ibc.State.{Stores, State}
use pstake_native_test.Ibc.Acks.{
  IcaMessage, delegate, undelegate, transfer, redeem_tokens, begin_redelegate, unknown,
}
use pstake_native_test.Ibc.Acks.Packet.{
  revert_delegate, fail_undelegate, revert_transfer, revert_redeem, Codec, ack_error,
  revert_message, revert_messages, handle_unsuccessful_ack, on_acknowledgement_packet,
  on_timeout_packet,
}

abbrev pub is_delegate : IcaMessage → Bool
is_delegate (delegate m) = true
is_delegate _ = false

abbrev pub has_delegate : List IcaMessage → Bool
has_delegate [] = false
has_delegate (m ∷ ms) = is_delegate m || has_delegate ms

abbrev pub is_redelegate : IcaMessage → Bool
is_redelegate (begin_redelegate m amount) = true
is_redelegate _ = false

-- The sequence id of a transaction is not empty.
sequence_id_full :
    (channel : Bytes) (sequence : ℕ) → same [] (transaction_sequence_id channel sequence) ≡ false
unfolding transaction_sequence_id same
sequence_id_full [] sequence = refl
sequence_id_full (c ∷ channel) sequence = refl

module _ (st : Stores) {W : Type 0} (bank : Bank W) (module_address : Bytes → Bytes) (cdc : Codec)
    (channel : Bytes) (sequence : ℕ) (laws : StoreLaws st.deposits) where
  abbrev q : Bytes
  q = transaction_sequence_id channel sequence

  abbrev pub Once : Bool → State st W → State st W → Type 0
  Once b s s' =
      (st.deposits.entries s'.deposit_store ≡ (
        if b
        then update_where (λ d. same d.ibc_sequence_id q) taken_back
            (st.deposits.entries s.deposit_store)
        else st.deposits.entries s.deposit_store))
      × (s'.chain_store ≡ s.chain_store)
      × (s'.user_store ≡ s.user_store)
      × (s'.redelegation_store ≡ s.redelegation_store)
      × (s'.tx_store ≡ s.tx_store)
      × (s'.world ≡ s.world)

  abbrev change : Entries Deposit → Entries Deposit
  change = update_where (λ d. same d.ibc_sequence_id q) taken_back

  abbrev reverting : State st W → State st W
  reverting = revert_delegate st bank module_address cdc channel sequence

  not_again :
      (es : Entries Deposit) (b : Bool) → (if b then change (change es) else change es) ≡ change es
  not_again es true =
      update_twice (λ d. same d.ibc_sequence_id q) taken_back es
        (λ d. sequence_id_full channel sequence)
  not_again es false = refl

  reverting-Once :
      (b : Bool) (s s' : State st W)
      → IsKeyed key_of (st.deposits.entries s.deposit_store)
      → Once b (reverting s) s'
      → Once true s s'
  unfolding revert_delegate
  reverting-Once b s s' k (deposits, chains, users, moved, txs, world) =
      let e = entries-taken_back st.deposits laws q s.deposit_store k in
      (
        deposits
            ∙ ap (λ es. if b then change es else es) e
            ∙ not_again (st.deposits.entries s.deposit_store) b,
        chains,
        users,
        moved,
        txs,
        world,
      )

  reverting-IsKeyed :
      (s : State st W)
      → IsKeyed key_of (st.deposits.entries s.deposit_store)
      → IsKeyed key_of (st.deposits.entries (reverting s).deposit_store)
  unfolding revert_delegate
  reverting-IsKeyed s k = rw (entries-taken_back st.deposits laws q s.deposit_store k) (
      update-IsKeyed key_of (λ d. same d.ibc_sequence_id q) taken_back (λ d. refl)
        (st.deposits.entries s.deposit_store) k)

  pub revert_messages-Once :
      (ms : List IcaMessage) (s : State st W)
      → All (λ m. is_redelegate m ≡ false) ms
      → IsKeyed key_of (st.deposits.entries s.deposit_store)
      → Returns
          (Once (has_delegate ms) s)
          (revert_messages st bank module_address cdc channel sequence ms s)
  unfolding revert_messages revert_message fail_undelegate revert_transfer revert_redeem
      revert_delegate
  revert_messages-Once [] s h k = (refl, refl, refl, refl, refl, refl)
  revert_messages-Once (delegate m ∷ ms) s (h, hs) k =
      Returns-map (revert_messages st bank module_address cdc channel sequence ms (reverting s))
        (λ s' r. reverting-Once (has_delegate ms) s s' k r)
        (revert_messages-Once ms (reverting s) hs (reverting-IsKeyed s k))
  revert_messages-Once (undelegate m ∷ ms) s (h, hs) k =
      revert_messages-Once ms (fail_undelegate st bank module_address cdc channel sequence s) hs k
  revert_messages-Once (transfer m ∷ ms) s (h, hs) k =
      revert_messages-Once ms (revert_transfer st bank module_address cdc channel sequence s) hs k
  revert_messages-Once (redeem_tokens d a ∷ ms) s (h, hs) k =
      revert_messages-Once ms (revert_redeem st bank module_address cdc channel sequence s) hs k
  revert_messages-Once (begin_redelegate m a ∷ ms) s (h, hs) k =
      let never : ⊥ = cc in elim never [ ]
  revert_messages-Once (unknown ∷ ms) s (h, hs) k = revert_messages-Once ms s hs k

  acked :
      (packet acknowledgement tx : Bytes) (ms : List IcaMessage) (s : State st W)
      → cdc.packet_data packet ≡ some tx
      → cdc.cosmos_tx tx ≡ some ms
      → cdc.acknowledgement acknowledgement ≡ some ack_error
      → (on_timeout_packet st bank module_address cdc channel sequence packet s
          ≡ revert_messages st bank module_address cdc channel sequence ms s)
        × (on_acknowledgement_packet st bank module_address cdc channel sequence packet
              acknowledgement s
            ≡ revert_messages st bank module_address cdc channel sequence ms s)
  unfolding on_timeout_packet on_acknowledgement_packet handle_unsuccessful_ack
  acked packet acknowledgement tx ms s h e a = (rw (h, e) refl, rw (a, h, e) refl)

  -- On deposits under their keys, a transaction without redelegations that times out is taken back
  -- without an error or a panic, and one that fails in the same way: if it has a delegation, just the
  -- deposits with its sequence id go back to the state with the number before and lose that id, however many delegations it has,
  -- and if it has none, no deposit changes; the host chains, the unbondings of users, the
  -- redelegations, their transactions and the balances are as before.
  pub on_timeout_packet-Once :
      (packet acknowledgement tx : Bytes) (ms : List IcaMessage) (s : State st W)
      → cdc.packet_data packet ≡ some tx
      → cdc.cosmos_tx tx ≡ some ms
      → cdc.acknowledgement acknowledgement ≡ some ack_error
      → All (λ m. is_redelegate m ≡ false) ms
      → IsKeyed key_of (st.deposits.entries s.deposit_store)
      → Returns
          (Once (has_delegate ms) s)
          (on_timeout_packet st bank module_address cdc channel sequence packet s)
        × (on_acknowledgement_packet st bank module_address cdc channel sequence packet
              acknowledgement s
            ≡ on_timeout_packet st bank module_address cdc channel sequence packet s)
  on_timeout_packet-Once packet acknowledgement tx ms s h e a plain k =
      let both = acked packet acknowledgement tx ms s h e a in
      (rw (both.0) (revert_messages-Once ms s plain k), both.1 ∙ sym both.0)
