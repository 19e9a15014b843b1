-- ===== src/Ibc/Acks/Redelegated.antt =====
-- A redelegation that was made on the host chain, as the keeper records it.
use pstake_native_test.Base.{Option, ℕ, ◌+◌, ◌≡◌, ◌⊎◌, none, some}
use pstake_native_test.Base.Int.{pos}
use pstake_native_test.Base.Text.{Bytes}
use pstake_native_test.Sdk.Coin.{Coin}
use pstake_native_test.Sdk.Store.{StoreLaws}
use pstake_native_test.Ibc.Types.{HostChain, Error, invalid_host_chain, validator_not_found}
use pstake_native_test.Ibc.Keys.{transaction_sequence_id}
use pstake_native_test.Ibc.Redelegation.{
  BeginRedelegate, RedelegateTx, RedelegateTxState, get_redelegation_tx, set_redelegation_tx,
  get_redelegations,
}
use pstake_native_test.Ibc.Redelegation.Entry.{IsDistinct, held, entry_count}
use pstake_native_test.Ibc.HostChain.{get_host_chain_from_host_denom}
use pstake_native_test.Ibc.Strategy.{get_validator, get_host_chain_total_delegations}
use pstake_native_test.Ibc.Bank.{Bank}
use pstake_native_test.Ibc.State.{Stores, State}
use pstake_native_test.Ibc.Acks.Delegations.{Stored, Changes, neg}

module _ (st : Stores) {W : Type 0} (bank : Bank W) (module_address : Bytes → Bytes)
    (chain_laws : StoreLaws st.chains) (redelegation_laws : StoreLaws st.redelegations)
    (m : BeginRedelegate) (amount : Coin) (time : ℕ) (channel : Bytes) (sequence : ℕ)
    (s : State st W)
    (distinct : (c : Bytes)
      → IsDistinct (held (get_redelegations st.redelegations c s.redelegation_store))) where
  abbrev tx_of : HostChain → Option RedelegateTx
  tx_of hc =
      get_redelegation_tx st.redelegation_txs hc.chain_id (transaction_sequence_id channel sequence)
        s.tx_store

  -- First to the one validator, then from the other.
  abbrev Moves : HostChain → st.chains.Store → Type 0
  Moves hc store =
      (mid : HostChain) × (hc' : HostChain) × (Changes m.dst (pos amount.amount) hc.validators
          mid.validators
        × Changes m.src (neg amount.amount) mid.validators hc'.validators
        × (hc' ≡ record hc { validators = hc'.validators })
        × (get_host_chain_total_delegations hc' ≡ get_host_chain_total_delegations hc)
        × Stored st.chains hc' s.chain_store store)

  abbrev Missing : HostChain → Error → Type 0
  Missing hc e =
      (e ≡ validator_not_found)
      × ((get_validator m.dst hc.validators ≡ none) ⊎ (get_validator m.src hc.validators ≡ none))

  -- What is recorded of a transaction that was sent.
  abbrev Recorded : HostChain → RedelegateTx → State st W → Type 0
  Recorded hc tx s' =
      Moves hc s'.chain_store
      × (s'.tx_store
          ≡ set_redelegation_tx st.redelegation_txs (record tx { state = RedelegateTxState.acked })
              s.tx_store)
      × (entry_count (held (get_redelegations st.redelegations hc.chain_id s'.redelegation_store))
          ≡ entry_count (held (get_redelegations st.redelegations hc.chain_id s.redelegation_store))
            + 1)
      × IsDistinct (held (get_redelegations st.redelegations hc.chain_id s'.redelegation_store))
      × (s' ≡ record s {
        tx_store = s'.tx_store;
        chain_store = s'.chain_store;
        redelegation_store = s'.redelegation_store;
      })

  abbrev pub Redelegates : State st W → Type 0
  Redelegates s' =
      (hc : HostChain) × ((get_host_chain_from_host_denom st.chains amount.denom s.chain_store
          ≡ some hc)
        × (((tx_of hc ≡ none) × (s' ≡ s))
            ⊎ ((tx : RedelegateTx) × (tx_of hc ≡ some tx) × Recorded hc tx s')))

  abbrev pub Refused : Error → Type 0
  Refused e =
      ((get_host_chain_from_host_denom st.chains amount.denom s.chain_store ≡ none)
        × (e ≡ invalid_host_chain))
      ⊎ ((hc : HostChain) × (get_host_chain_from_host_denom st.chains amount.denom s.chain_store
            ≡ some hc)
          × Missing hc e)
