-- ===== src/Ibc/RecordTests.antt =====
-- Runs of the deposits of shares, the redelegations, the epochs and the value of the
-- minted token on small data, and the theorems at inputs that meet their hypotheses.
use pstake_native_test.Base.{ℕ, ◌+◌, ◌*◌, ◌≤◌, ◌<◌, ◌≡◌, refl, true, [], ◌∷◌, arith, ok}
use pstake_native_test.Base.Int.{pos}
use pstake_native_test.Base.Text.{codes, same}
use pstake_native_test.Sdk.Dec.{one}
use pstake_native_test.Sdk.Dec.Rounding.{integer_ops, integer_ops-DecLaws}
use pstake_native_test.Sdk.Store.Content.{Entries, lookup}
use pstake_native_test.Sdk.Store.Sorted.{list_store, list_store-StoreLaws}
use pstake_native_test.Sdk.Store.Update.{IsKeyed, update_where}
use pstake_native_test.Ibc.Types.{
  Deposit, ValidatorUnbonding, LsmDeposit, LsmDepositState, HostChain,
}
use pstake_native_test.Ibc.Keys.{lsm_deposit_key}
use pstake_native_test.Ibc.LsmDeposit.{
  filter_lsm_deposits, filter_lsm_deposits_with_limit, lsm_deposit_filter_limit,
  revert_lsm_deposits_state, get_lsm_deposits_from_ibc_sequence_id, key_of_lsm,
}
use pstake_native_test.Ibc.LsmDeposit.Limit.{
  taken_back, take, filter_lsm_deposits_with_limit-take, entries-revert_lsm_deposits_state,
}
use pstake_native_test.Ibc.Redelegation.{
  Redelegations, BeginRedelegate, add_redelegation_entry, get_redelegations,
}
use pstake_native_test.Ibc.Redelegation.Entry.{
  IsDistinct, entry_count, held, add_redelegation_entry-IsDistinct,
}
use pstake_native_test.Ibc.Epoch.{
  current_unbonding_epoch, is_unbonding_epoch, current_unbonding_epoch-IsLeast,
}
use pstake_native_test.Ibc.CValue.{State, update_c_value}
use pstake_native_test.Ibc.CValue.Update.{Ends, update_c_value-Ends}
use pstake_native_test.Ibc.UnbondingTests.{validator_unbondings}
use pstake_native_test.Ibc.Tests.{chain, two}

abbrev lsm_deposits : Entries LsmDeposit
lsm_deposits =
    (
      codes "h-1pA",
      record {
        chain_id = codes "h-1";
        amount = 5;
        shares = 5 * one;
        denom = codes "A";
        ibc_denom = codes "ibc/A";
        delegator_address = codes "p";
        state = LsmDepositState.sent;
        ibc_sequence_id = codes "s-7";
      },
    )
    ∷ []

lsm_deposits-IsKeyed : IsKeyed key_of_lsm lsm_deposits
unfolding lsm_deposit_key
lsm_deposits-IsKeyed = ((tt, tt), (refl, tt))

filter_lsm_deposits_with_limit-take_example :
    filter_lsm_deposits_with_limit
      (list_store LsmDeposit)
      (λ d. same d.denom (codes "A"))
      lsm_deposits
    ≡ take lsm_deposit_filter_limit
        (filter_lsm_deposits (list_store LsmDeposit) (λ d. same d.denom (codes "A")) lsm_deposits)
filter_lsm_deposits_with_limit-take_example =
    filter_lsm_deposits_with_limit-take (list_store LsmDeposit) (λ d. same d.denom (codes "A"))
      lsm_deposits

entries-revert_lsm_deposits_state_example :
    revert_lsm_deposits_state
      (list_store LsmDeposit)
      (get_lsm_deposits_from_ibc_sequence_id (list_store LsmDeposit) (codes "s-7") lsm_deposits)
      lsm_deposits
    ≡ update_where (λ d. same d.ibc_sequence_id (codes "s-7")) taken_back lsm_deposits
entries-revert_lsm_deposits_state_example =
    entries-revert_lsm_deposits_state (list_store LsmDeposit) (list_store-StoreLaws LsmDeposit)
      (codes "s-7") lsm_deposits lsm_deposits-IsKeyed (omega arith)

abbrev begin_redelegate : BeginRedelegate
begin_redelegate = record { delegator = codes "p"; src = codes "v"; dst = codes "w" }

abbrev redelegations : Entries Redelegations
redelegations =
    (
      codes "h-1",
      record {
        chain_id = codes "h-1";
        redelegations =
            record { delegator = codes "p"; src = codes "v"; dst = codes "w"; times = 5 ∷ [] } ∷ [];
      },
    )
    ∷ []

redelegations-IsDistinct :
    IsDistinct (held (get_redelegations (list_store Redelegations) (codes "h-1") redelegations))
unfolding get_redelegations lookup same
redelegations-IsDistinct = (refl, tt)

add_redelegation_entry-IsDistinct_example :
    let t =
      add_redelegation_entry
        (list_store Redelegations)
        (codes "h-1")
        begin_redelegate
        9
        redelegations in
    IsDistinct (held (get_redelegations (list_store Redelegations) (codes "h-1") t))
    × (entry_count (held (get_redelegations (list_store Redelegations) (codes "h-1") t))
        ≡ entry_count
            (held (get_redelegations (list_store Redelegations) (codes "h-1") redelegations))
          + 1)
add_redelegation_entry-IsDistinct_example =
    add_redelegation_entry-IsDistinct (list_store Redelegations)
      (list_store-StoreLaws Redelegations) (codes "h-1") begin_redelegate 9 redelegations
      redelegations-IsDistinct

current_unbonding_epoch-IsLeast_example :
    (r : ℕ) × (current_unbonding_epoch 4 9 ≡ ok (pos r))
    × (is_unbonding_epoch 4 r ≡ ok true)
    × (9 ≤ r)
    × (r < 9 + 4)
    × (r ≤ 16)
unfolding is_unbonding_epoch
current_unbonding_epoch-IsLeast_example =
    current_unbonding_epoch-IsLeast 4 9 16 (omega arith) (omega arith) refl (omega arith)

-- 14 tokens are minted against 5 in shares and 10 that are staked.
abbrev state :
    State
      (list_store HostChain)
      (list_store Deposit)
      (list_store LsmDeposit)
      (list_store ValidatorUnbonding)
      (Unit {0})
state = record {
  chain_store = [];
  deposit_store = [];
  lsm_store = lsm_deposits;
  unbonding_store = validator_unbondings;
  supply = λ _. 14;
  outside = tt;
}

update_c_value-Ends_example :
    Ends integer_ops integer_ops-DecLaws
      (list_store HostChain)
      (list_store Deposit)
      (list_store LsmDeposit)
      (list_store ValidatorUnbonding)
      (Unit {0})
      (λ _ _ _ w. w)
      (list_store-StoreLaws HostChain)
      (chain two)
      state
      (update_c_value integer_ops
        (list_store HostChain)
        (list_store Deposit)
        (list_store LsmDeposit)
        (list_store ValidatorUnbonding)
        (Unit {0})
        (λ _ _ _ w. w)
        (chain two)
        state)
update_c_value-Ends_example =
    update_c_value-Ends integer_ops integer_ops-DecLaws (list_store HostChain) (list_store Deposit)
      (list_store LsmDeposit) (list_store ValidatorUnbonding) (Unit {0}) (λ _ _ _ w. w)
      (list_store-StoreLaws HostChain) (chain two) state
