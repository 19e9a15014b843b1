-- ===== src/Ibc/UnbondingTests.antt =====
-- Runs of the unbondings on small data, and the theorems at inputs that meet their hypotheses.
use pstake_native_test.Base.{ℕ, ◌≡◌, refl, none, [], ◌∷◌}
use pstake_native_test.Base.Text.{Bytes, codes, same, less}
use pstake_native_test.Sdk.Coin.{coin}
use pstake_native_test.Sdk.Store.Content.{Entries}
use pstake_native_test.Sdk.Store.Sorted.{list_store, list_store-StoreLaws}
use pstake_native_test.Sdk.Store.Update.{IsKeyed, update_where}
use pstake_native_test.Ibc.Types.{Unbonding, UnbondingState, UserUnbonding, ValidatorUnbonding}
use pstake_native_test.Ibc.Keys.{unbonding_key, user_unbonding_key, validator_unbonding_key}
use pstake_native_test.Ibc.Unbonding.{
  key_of_unbonding, key_of_user_unbonding, key_of_validator_unbonding, filter_unbondings,
  fail_all_unbondings_for_sequence_id, revert_unbondings_state,
  increase_undelegating_amount_for_epoch, increase_user_unbonding_amount_for_epoch,
}
use pstake_native_test.Ibc.Unbonding.Loops.{
  taken_back, entries-fail_all_unbondings, entries-revert_unbondings_state,
}
use pstake_native_test.Ibc.Unbonding.Amounts.{Increases, increase_undelegating_amount-Increases}
use pstake_native_test.Ibc.Unbonding.Users.{increase_user_unbonding_amount-Increases}

abbrev unbonding : ℕ → ℕ → UnbondingState → Bytes → Unbonding
unbonding epoch amount state id = record {
  chain_id = codes "h-1";
  epoch_number = epoch;
  mature_time = none;
  burn_amount = coin (codes "stk/A") amount;
  unbond_amount = coin (codes "A") amount;
  ibc_sequence_id = id;
  state = state;
}

abbrev pub unbondings : Entries Unbonding
unbondings =
    (codes "h-14", unbonding 4 40 UnbondingState.initiated (codes "s-7"))
    ∷ (codes "h-18", unbonding 8 25 UnbondingState.pending [])
    ∷ []

pub unbondings-IsKeyed : IsKeyed key_of_unbonding unbondings
unfolding unbonding_key less
unbondings-IsKeyed = (((refl, tt), (tt, tt)), (refl, (refl, tt)))

entries-fail_all_unbondings_example :
    fail_all_unbondings_for_sequence_id (list_store Unbonding) (codes "s-7") unbondings
    ≡ update_where
        (λ u. same u.ibc_sequence_id (codes "s-7"))
        (λ u. record u { ibc_sequence_id = []; state = UnbondingState.failed })
        unbondings
entries-fail_all_unbondings_example =
    entries-fail_all_unbondings (list_store Unbonding) (list_store-StoreLaws Unbonding)
      (codes "s-7") unbondings unbondings-IsKeyed

entries-revert_unbondings_state_example :
    revert_unbondings_state
      (list_store Unbonding)
      (filter_unbondings
        (list_store Unbonding)
        (λ u. same u.ibc_sequence_id (codes "s-7"))
        unbondings)
      unbondings
    ≡ update_where (λ u. same u.ibc_sequence_id (codes "s-7")) taken_back unbondings
entries-revert_unbondings_state_example =
    entries-revert_unbondings_state (list_store Unbonding) (list_store-StoreLaws Unbonding)
      (codes "s-7") unbondings unbondings-IsKeyed

increase_undelegating_amount-Increases_example :
    Increases
      (list_store Unbonding)
      key_of_unbonding
      (λ u. u.unbond_amount)
      (λ u. u.burn_amount)
      (codes "h-18")
      (unbonding_key (codes "h-1") 4)
      (coin (codes "A") 3)
      (coin (codes "stk/A") 2)
      unbondings
      (increase_undelegating_amount_for_epoch
        (list_store Unbonding)
        (codes "h-1")
        4
        (coin (codes "stk/A") 2)
        (coin (codes "A") 3)
        unbondings)
increase_undelegating_amount-Increases_example =
    increase_undelegating_amount-Increases (list_store Unbonding) (list_store-StoreLaws Unbonding)
      (codes "h-18") (codes "h-1") 4 (coin (codes "stk/A") 2) (coin (codes "A") 3) unbondings
      unbondings-IsKeyed

abbrev pub user_unbondings : Entries UserUnbonding
user_unbondings =
    (
      codes "h-1p4",
      record {
        chain_id = codes "h-1";
        epoch_number = 4;
        address = codes "p";
        stk_amount = coin (codes "stk/A") 9;
        unbond_amount = coin (codes "A") 10;
      },
    )
    ∷ []

pub user_unbondings-IsKeyed : IsKeyed key_of_user_unbonding user_unbondings
unfolding user_unbonding_key
user_unbondings-IsKeyed = ((tt, tt), (refl, tt))

increase_user_unbonding_amount-Increases_example :
    Increases
      (list_store UserUnbonding)
      key_of_user_unbonding
      (λ u. u.stk_amount)
      (λ u. u.unbond_amount)
      (codes "h-1p4")
      (user_unbonding_key (codes "h-1") (codes "p") 4)
      (coin (codes "stk/A") 2)
      (coin (codes "A") 3)
      user_unbondings
      (increase_user_unbonding_amount_for_epoch
        (list_store UserUnbonding)
        (codes "h-1")
        (codes "p")
        4
        (coin (codes "stk/A") 2)
        (coin (codes "A") 3)
        user_unbondings)
increase_user_unbonding_amount-Increases_example =
    increase_user_unbonding_amount-Increases (list_store UserUnbonding)
      (list_store-StoreLaws UserUnbonding) (codes "h-1p4") (codes "h-1") (codes "p") 4
      (coin (codes "stk/A") 2) (coin (codes "A") 3) user_unbondings user_unbondings-IsKeyed

abbrev pub validator_unbondings : Entries ValidatorUnbonding
validator_unbondings =
    (
      codes "h-1v4",
      record {
        chain_id = codes "h-1";
        epoch_number = 4;
        mature_time = none;
        validator_address = codes "v";
        amount = coin (codes "A") 10;
        ibc_sequence_id = codes "s-7";
      },
    )
    ∷ []

pub validator_unbondings-IsKeyed : IsKeyed key_of_validator_unbonding validator_unbondings
unfolding validator_unbonding_key
validator_unbondings-IsKeyed = ((tt, tt), (refl, tt))
