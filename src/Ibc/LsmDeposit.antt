-- ===== src/Ibc/LsmDeposit.antt =====
-- The deposits of tokenized shares (x/liquidstakeibc/keeper/lsm_deposit.go).
pub mod Limit
use pstake_native_test.Base.{
  ℕ, ◌≡◌, Bool, true, false, ◌&&◌, Option, List, [], ◌∷◌, ◌++◌, length, ◌==◌, if◌then◌else◌, select,
  sum_by,
}
use pstake_native_test.Base.Text.{Bytes, same}
use pstake_native_test.Sdk.Store.{KvStore}
use pstake_native_test.Sdk.Store.Content.{values}
use pstake_native_test.Sdk.Store.Update.{set_each}
use pstake_native_test.Ibc.Types.{LsmDeposit, LsmDepositState}
use pstake_native_test.Ibc.Keys.{lsm_deposit_key}

abbrev pub lsm_deposit_filter_limit : ℕ
lsm_deposit_filter_limit = 10000

-- `deposit.State--`, where it is not the first state.
unfoldable pub previous_lsm : LsmDepositState → LsmDepositState
previous_lsm LsmDepositState.pending = LsmDepositState.pending
previous_lsm LsmDepositState.sent = LsmDepositState.pending
previous_lsm LsmDepositState.received = LsmDepositState.sent
previous_lsm LsmDepositState.untokenizing = LsmDepositState.received

unfoldable pub lsm_reverted : LsmDeposit → LsmDeposit
unfolding previous_lsm
lsm_reverted d = record d { ibc_sequence_id = []; state = previous_lsm d.state }

unfoldable pub lsm_updated : LsmDepositState → Bytes → LsmDeposit → LsmDeposit
lsm_updated state sequence d = record d { ibc_sequence_id = sequence; state = state }

abbrev pub is_lsm_pending : LsmDepositState → Bool
is_lsm_pending LsmDepositState.pending = true
is_lsm_pending _ = false

abbrev pub is_lsm_received : LsmDepositState → Bool
is_lsm_received LsmDepositState.received = true
is_lsm_received _ = false

abbrev pub key_of_lsm : LsmDeposit → Bytes
key_of_lsm d = lsm_deposit_key d.chain_id d.delegator_address d.denom

-- The loop of the filter with a limit, with the deposits found so far: it returns as soon as they
-- are as many as the limit.
unfoldable pub filter_up_to :
    ℕ → (LsmDeposit → Bool) → List LsmDeposit → List LsmDeposit → List LsmDeposit
filter_up_to limit p found [] = found
filter_up_to limit p found (d ∷ ds) =
    let found' = if p d then found ++ (d ∷ []) else found in
    let rest = filter_up_to limit p found' ds in if length found' == limit then found' else rest

module _ (kv : KvStore LsmDeposit) where
  open kv use {Store, entries, get, set, delete}

  unfoldable pub set_lsm_deposit : LsmDeposit → Store → Store
  set_lsm_deposit d s = set (lsm_deposit_key d.chain_id d.delegator_address d.denom) d s

  unfoldable pub get_lsm_deposit : Bytes → Bytes → Bytes → Store → Option LsmDeposit
  get_lsm_deposit chain_id delegator denom s = get (lsm_deposit_key chain_id delegator denom) s

  unfoldable pub delete_lsm_deposit : LsmDeposit → Store → Store
  delete_lsm_deposit d s = delete (lsm_deposit_key d.chain_id d.delegator_address d.denom) s

  unfoldable pub filter_lsm_deposits : (LsmDeposit → Bool) → Store → List LsmDeposit
  filter_lsm_deposits p s = select p (values (entries s))

  unfoldable pub filter_lsm_deposits_with_limit : (LsmDeposit → Bool) → Store → List LsmDeposit
  unfolding filter_up_to
  filter_lsm_deposits_with_limit p s =
      filter_up_to lsm_deposit_filter_limit p [] (values (entries s))

  unfoldable pub get_lsm_deposits_from_ibc_denom : Bytes → Store → List LsmDeposit
  unfolding filter_lsm_deposits
  get_lsm_deposits_from_ibc_denom ibc_denom = filter_lsm_deposits (λ d. same d.ibc_denom ibc_denom)

  unfoldable pub get_lsm_deposits_from_ibc_sequence_id : Bytes → Store → List LsmDeposit
  unfolding filter_lsm_deposits_with_limit
  get_lsm_deposits_from_ibc_sequence_id sequence_id =
      filter_lsm_deposits_with_limit (λ d. same d.ibc_sequence_id sequence_id)

  unfoldable pub get_transferable_lsm_deposits : Bytes → Store → List LsmDeposit
  unfolding filter_lsm_deposits_with_limit
  get_transferable_lsm_deposits chain_id =
      filter_lsm_deposits_with_limit (λ d. same d.chain_id chain_id && is_lsm_pending d.state)

  unfoldable pub get_redeemable_lsm_deposits : Bytes → Store → List LsmDeposit
  unfolding filter_lsm_deposits_with_limit
  get_redeemable_lsm_deposits chain_id =
      filter_lsm_deposits_with_limit (λ d. same d.chain_id chain_id && is_lsm_received d.state)

  unfoldable pub revert_lsm_deposits_state : List LsmDeposit → Store → Store
  unfolding set_each lsm_reverted
  revert_lsm_deposits_state = set_each kv key_of_lsm lsm_reverted

  unfoldable pub update_lsm_deposits_state_and_sequence :
      List LsmDeposit → LsmDepositState → Bytes → Store → Store
  unfolding set_each lsm_updated
  update_lsm_deposits_state_and_sequence ds state sequence =
      set_each kv key_of_lsm (lsm_updated state sequence) ds

  unfoldable pub get_lsm_deposit_amount_untokenized : Bytes → Store → ℕ
  unfolding filter_lsm_deposits
  get_lsm_deposit_amount_untokenized chain_id s =
      sum_by (λ d. d.amount) (filter_lsm_deposits (λ d. same d.chain_id chain_id) s)
