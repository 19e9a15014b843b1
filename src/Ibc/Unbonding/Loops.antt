-- ===== src/Ibc/Unbonding/Loops.antt =====
-- The loops over the unbondings of a sequence id, as changes of the whole store.
use pstake_native_test.Base.{ℕ, ◌==◌, ◌-◌, ◌∙◌, ap, if◌then◌else◌, [], ◌≡◌, refl}
use pstake_native_test.Base.Text.{Bytes, same}
use pstake_native_test.Sdk.Store.{KvStore, StoreLaws}
use pstake_native_test.Sdk.Store.Update.{
  update_where-agrees, IsKeyed, update_where, remove_where, set_each-select, delete_each-select,
}
use pstake_native_test.Ibc.Types.{UnbondingState, Unbonding, ValidatorUnbonding}
use pstake_native_test.Ibc.Unbonding.{
  previous_unbonding, key_of_unbonding, key_of_validator_unbonding, unbonding_failed,
  unbonding_reverted, filter_unbondings, fail_all_unbondings_for_sequence_id,
  revert_unbondings_state, delete_validator_unbondings_for_sequence_id,
}

-- The number of a state in the protocol definition, and the state of a number up to four.
abbrev pub number : UnbondingState → ℕ
number UnbondingState.pending = 0
number UnbondingState.initiated = 1
number UnbondingState.maturing = 2
number UnbondingState.matured = 3
number UnbondingState.claimable = 4
number UnbondingState.failed = 5

abbrev numbered : ℕ → UnbondingState
numbered n =
    if n == 0
    then UnbondingState.pending
    else (if n == 1
        then UnbondingState.initiated
        else (if n == 2
            then UnbondingState.maturing
            else (if n == 3 then UnbondingState.matured else UnbondingState.claimable)))

-- An unbonding with no sequence id whose state has the number before, if there is one, unless it
-- failed.
abbrev pub taken_back : Unbonding → Unbonding
taken_back u = record u {
  ibc_sequence_id = [];
  state = if number u.state == 5 then u.state else numbered (number u.state - 1);
}

previous-numbered :
    (x : UnbondingState)
    → previous_unbonding x ≡ (if number x == 5 then x else numbered (number x - 1))
unfolding previous_unbonding
previous-numbered UnbondingState.pending = refl
previous-numbered UnbondingState.initiated = refl
previous-numbered UnbondingState.maturing = refl
previous-numbered UnbondingState.matured = refl
previous-numbered UnbondingState.claimable = refl
previous-numbered UnbondingState.failed = refl

unbonding_reverted-taken_back : (u : Unbonding) → unbonding_reverted u ≡ taken_back u
unfolding unbonding_reverted
unbonding_reverted-taken_back u =
    ap (λ x. record u { ibc_sequence_id = []; state = x }) (previous-numbered u.state)

module _ (kv : KvStore Unbonding) (laws : StoreLaws kv) where
  open kv use {Store, entries}

  -- Failing the unbondings of a sequence id marks just those failed, clears their id, and leaves
  -- every other entry, and all keys and amounts, as they are.
  pub entries-fail_all_unbondings :
      (sequence_id : Bytes) (s : Store)
      → IsKeyed key_of_unbonding (entries s)
      → entries (fail_all_unbondings_for_sequence_id kv sequence_id s)
        ≡ update_where
            (λ u. same u.ibc_sequence_id sequence_id)
            (λ u. record u { ibc_sequence_id = []; state = UnbondingState.failed })
            (entries s)
  unfolding fail_all_unbondings_for_sequence_id unbonding_failed filter_unbondings
  entries-fail_all_unbondings q s h =
      set_each-select kv laws key_of_unbonding unbonding_failed (λ u. same u.ibc_sequence_id q) s
        (λ v. refl) h

  -- Reverting the unbondings of a sequence id takes just those to the state with the number before,
  -- a pending and a failed one excepted, clears their id, and leaves every other entry as it is.
  pub entries-revert_unbondings_state :
      (sequence_id : Bytes) (s : Store)
      → IsKeyed key_of_unbonding (entries s)
      → entries (
          revert_unbondings_state kv
            (filter_unbondings kv (λ u. same u.ibc_sequence_id sequence_id) s)
            s)
        ≡ update_where (λ u. same u.ibc_sequence_id sequence_id) taken_back (entries s)
  unfolding revert_unbondings_state unbonding_reverted filter_unbondings
  entries-revert_unbondings_state q s h =
      set_each-select kv laws key_of_unbonding unbonding_reverted (λ u. same u.ibc_sequence_id q) s
        (λ v. refl) h
      ∙ update_where-agrees (λ u. same u.ibc_sequence_id q) unbonding_reverted taken_back
          (entries s) unbonding_reverted-taken_back

-- Deleting the validator unbondings of a sequence id removes just those.
pub entries-delete_validator_unbondings :
    (kv : KvStore ValidatorUnbonding) (laws : StoreLaws kv) (sequence_id : Bytes) (s : kv.Store)
    → IsKeyed key_of_validator_unbonding (kv.entries s)
    → kv.entries (delete_validator_unbondings_for_sequence_id kv sequence_id s)
      ≡ remove_where (λ u. same u.ibc_sequence_id sequence_id) (kv.entries s)
unfolding delete_validator_unbondings_for_sequence_id
entries-delete_validator_unbondings kv laws q s h =
    delete_each-select kv laws key_of_validator_unbonding (λ u. same u.ibc_sequence_id q) s h
