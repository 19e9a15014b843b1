-- ===== src/Ibc/Block.antt =====
-- What the begin of a block does with accounts and redelegations: `DoRecreateICA`,
-- `DoDeleteRedelegationTxs` and `DoDeleteMaturedRedelegation` (x/liquidstakeibc/keeper/abci.go).
use pstake_native_test.Sdk.Store.Content.{values}
use pstake_native_test.Base.{
  ℕ, ◌≡◌, refl, ap, ◌∙◌, Bool, true, false, not, ◌&&◌, ◌||◌, Option, none, some, List, [], ◌∷◌, ltb,
  map, select, if◌then◌else◌, inl, inr, Bool-cases,
}
use pstake_native_test.Base.Text.{Bytes}
use pstake_native_test.Sdk.Store.{KvStore, StoreLaws}
use pstake_native_test.Sdk.Store.Update.{IsKeyed, remove_where, delete_each, delete_each-select}
use pstake_native_test.Ibc.Types.{HostChain, IcaAccount, ChannelState}
use pstake_native_test.Ibc.Keys.{redelegation_tx_key}
use pstake_native_test.Ibc.Redelegation.{
  Redelegation, Redelegations, RedelegateTx, RedelegateTxState, get_redelegations,
  set_redelegations, get_all_redelegation_tx, delete_redelegation_tx,
}
use pstake_native_test.Ibc.HostChain.{set_host_chain}

-- The controller of interchain accounts; `register` tells whether it succeeded.
pub record Controller (W : Type 0) : Type 0 where
  pub is_active : Bytes → Bytes → W → Bool
  pub port_id : Bytes → Bytes
  pub register : Bytes → Bytes → W → Bool × W

abbrev pub is_creating : IcaAccount → Bool
is_creating a = elim a.channel_state [ ChannelState.creating ↦ true | ChannelState.created ↦ false ]

abbrev pub is_acked : RedelegateTx → Bool
is_acked tx = elim tx.state [ RedelegateTxState.sent ↦ false | RedelegateTxState.acked ↦ true ]

abbrev pub immature : ℕ → Redelegation → Redelegation
immature now r = record r { times = select (ltb now) r.times }

module _ (kv : KvStore HostChain) {W : Type 0} (controller : Controller W) where
  open kv use {Store}
  open controller use {is_active, port_id, register}

  -- The account of a channel that is not open is registered, and the chain is stored with the change.
  unfoldable pub recreate :
      IcaAccount
      → (IcaAccount → HostChain → HostChain)
      → HostChain
      → Store
      → W
      → HostChain × Store × W
  recreate account put hc s w =
      let r = register hc.connection_id account.owner w in
      let hc' = put (record account { channel_state = ChannelState.creating }) hc in
      if not (is_active hc.connection_id (port_id account.owner) w) && not (is_creating account)
      then (if r.0 then (hc', set_host_chain kv hc' s, r.1) else (hc, s, r.1))
      else (hc, s, w)

  unfoldable pub recreate_both :
      Option IcaAccount → Option IcaAccount → HostChain → Store → W → HostChain × Store × W
  unfolding recreate
  recreate_both none rewards hc s w = (hc, s, w)
  recreate_both (some delegation) none hc s w = (hc, s, w)
  recreate_both (some delegation) (some rewards) hc s w =
      let (hc', s', w') =
        recreate delegation (λ a c. record c { delegation_account = some a }) hc s w in
      if is_creating delegation || is_creating rewards
      then (hc, s, w)
      else recreate rewards (λ a c. record c { rewards_account = some a }) hc' s' w'

  unfoldable pub do_recreate_ica : HostChain → Store → W → HostChain × Store × W
  unfolding recreate_both
  do_recreate_ica hc s w = recreate_both hc.delegation_account hc.rewards_account hc s w

module _ (kv : KvStore RedelegateTx) where
  open kv use {Store, entries}

  unfoldable pub delete_acked : List RedelegateTx → Store → Store
  delete_acked [] s = s
  delete_acked (tx ∷ txs) s =
      delete_acked txs
        (if is_acked tx then delete_redelegation_tx kv tx.chain_id tx.ibc_sequence_id s else s)

  unfoldable pub do_delete_redelegation_txs : Store → Store
  unfolding delete_acked
  do_delete_redelegation_txs s = delete_acked (get_all_redelegation_tx kv s) s

  abbrev pub key_of_tx : RedelegateTx → Bytes
  key_of_tx tx = redelegation_tx_key tx.chain_id tx.ibc_sequence_id

  delete_acked-select :
      (txs : List RedelegateTx) (s : Store)
      → delete_acked txs s ≡ delete_each kv key_of_tx (select is_acked txs) s
  unfolding delete_acked delete_redelegation_tx delete_each
  delete_acked-select [] s = refl
  delete_acked-select (tx ∷ txs) s = elim (Bool-cases (is_acked tx)) [
    | inl b ↦ rw b (delete_acked-select txs _)
    | inr b ↦ rw b (delete_acked-select txs s)
  ]

  -- On transactions under their keys, the begin of a block removes just those that are acknowledged.
  entries-do_delete_redelegation_txs :
      (laws : StoreLaws kv) (s : Store)
      → IsKeyed key_of_tx (entries s)
      → entries (do_delete_redelegation_txs s) ≡ remove_where is_acked (entries s)
  unfolding do_delete_redelegation_txs get_all_redelegation_tx
  entries-do_delete_redelegation_txs laws s k =
      ap entries (delete_acked-select (values (entries s)) s)
      ∙ delete_each-select kv laws key_of_tx is_acked s k

module _ (kv : KvStore Redelegations) where
  open kv use {Store}

  -- A mature entry is left out, and a redelegation without entries stays.
  unfoldable pub do_delete_matured_redelegation : ℕ → HostChain → Store → Store
  do_delete_matured_redelegation now hc s = elim (get_redelegations kv hc.chain_id s) [
    | none ↦ s
    | some held ↦ set_redelegations kv hc.chain_id (map (immature now) held.redelegations) s
  ]
