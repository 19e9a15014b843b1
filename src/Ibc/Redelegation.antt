-- ===== src/Ibc/Redelegation.antt =====
-- The redelegations of a host chain and their transactions
-- (x/liquidstakeibc/keeper: redelegation.go, redelegation_txs.go).
pub mod Entry
use pstake_native_test.Base.{
  ℕ, Bool, true, false, ◌&&◌, ◌||◌, Option, none, some, List, [], ◌∷◌, ◌++◌, map, select,
  if◌then◌else◌,
}
use pstake_native_test.Base.Text.{Bytes, same}
use pstake_native_test.Sdk.Store.{KvStore}
use pstake_native_test.Sdk.Store.Content.{values}
use pstake_native_test.Ibc.Keys.{redelegation_tx_key}

-- The staking module's `Redelegation`. The entries that the code makes have a completion time and
-- nothing else, so an entry is its time.
pub record Redelegation : Type 0 where
  pub delegator : Bytes
  pub src : Bytes
  pub dst : Bytes
  pub times : List ℕ

-- `MsgBeginRedelegate`, the part that is recorded.
pub record BeginRedelegate : Type 0 where
  pub delegator : Bytes
  pub src : Bytes
  pub dst : Bytes

pub record Redelegations : Type 0 where
  pub chain_id : Bytes
  pub redelegations : List Redelegation

pub data RedelegateTxState : Type 0 where
  sent acked : RedelegateTxState

pub record RedelegateTx : Type 0 where
  pub chain_id : Bytes
  pub ibc_sequence_id : Bytes
  pub state : RedelegateTxState

abbrev pub matches : BeginRedelegate → Redelegation → Bool
matches m r = same r.delegator m.delegator && (same r.src m.src && same r.dst m.dst)

abbrev pub any_matches : BeginRedelegate → List Redelegation → Bool
any_matches m [] = false
any_matches m (r ∷ rs) = matches m r || any_matches m rs

abbrev pub with_entry : BeginRedelegate → ℕ → Redelegation → Redelegation
with_entry m time r = if matches m r then record r { times = r.times ++ (time ∷ []) } else r

abbrev pub new_redelegation : BeginRedelegate → ℕ → Redelegation
new_redelegation m time = record {
  delegator = m.delegator;
  src = m.src;
  dst = m.dst;
  times = time ∷ [];
}

-- Each redelegation that matches gets the entry, and a new one is made if none does.
unfoldable pub add_entry : BeginRedelegate → ℕ → List Redelegation → List Redelegation
add_entry m time rs =
    if any_matches m rs
    then map (with_entry m time) rs
    else map (with_entry m time) rs ++ (new_redelegation m time ∷ [])

module _ (kv : KvStore Redelegations) where
  open kv use {Store, entries, get, set}

  unfoldable pub set_redelegations : Bytes → List Redelegation → Store → Store
  set_redelegations chain_id rs s =
      set chain_id (record { chain_id = chain_id; redelegations = rs }) s

  unfoldable pub get_redelegations : Bytes → Store → Option Redelegations
  get_redelegations chain_id s = get chain_id s

  unfoldable pub add_redelegation_entry : Bytes → BeginRedelegate → ℕ → Store → Store
  unfolding set_redelegations get_redelegations add_entry
  add_redelegation_entry chain_id m time s = elim (get_redelegations chain_id s) [
    | none ↦ set_redelegations chain_id (new_redelegation m time ∷ []) s
    | some held ↦ set_redelegations chain_id (add_entry m time held.redelegations) s
  ]

module _ (kv : KvStore RedelegateTx) where
  open kv use {Store, entries, get, set, delete}

  unfoldable pub set_redelegation_tx : RedelegateTx → Store → Store
  set_redelegation_tx tx s = set (redelegation_tx_key tx.chain_id tx.ibc_sequence_id) tx s

  unfoldable pub get_redelegation_tx : Bytes → Bytes → Store → Option RedelegateTx
  get_redelegation_tx chain_id sequence_id s = get (redelegation_tx_key chain_id sequence_id) s

  unfoldable pub get_all_redelegation_tx : Store → List RedelegateTx
  get_all_redelegation_tx s = values (entries s)

  unfoldable pub filter_redelegation_tx : (RedelegateTx → Bool) → Store → List RedelegateTx
  filter_redelegation_tx p s = select p (values (entries s))

  unfoldable pub delete_redelegation_tx : Bytes → Bytes → Store → Store
  delete_redelegation_tx chain_id sequence_id s =
      delete (redelegation_tx_key chain_id sequence_id) s
