-- ===== src/Ibc/ClaimTests.antt =====
-- Runs of the claims on small data, and the theorems at inputs that meet their hypotheses.
use pstake_native_test.Base.{
  ℕ, ◌+◌, ◌-◌, ◌≡◌, ◌≢◌, refl, false, none, List, [], ◌∷◌, arith, Outcome, ok, err, panic, Returns,
}
use pstake_native_test.Base.Text.{Bytes, codes, same, same_iff}
use pstake_native_test.Sdk.Coin.{coin, coin_sub}
use pstake_native_test.Sdk.Store.Content.{erase}
use pstake_native_test.Sdk.Store.Sorted.{list_store-StoreLaws}
use pstake_native_test.Ibc.Types.{Error, Unbonding, UnbondingState, UserUnbonding, other}
use pstake_native_test.Ibc.Keys.{user_unbonding_key, unbonding_key}
use pstake_native_test.Ibc.Unbonding.{
  key_of_unbonding, key_of_user_unbonding, delete_unbonding, delete_user_unbonding,
  filter_unbondings, filter_user_unbondings,
}
use pstake_native_test.Ibc.Bank.{part, module_of, user}
use pstake_native_test.Ibc.State.{State, undelegation_account}
use pstake_native_test.Ibc.Claim.{Claiming, claim_users, do_claim}
use pstake_native_test.Ibc.Claim.Paid
use pstake_native_test.Ibc.Claim.Unpaid
use pstake_native_test.Ibc.Tests.{chain, two}
use pstake_native_test.Ibc.MessageTests.{Ledger, ledger, list_stores, before, ibc_denom}

abbrev unbonded : Bytes → ℕ → UserUnbonding
unbonded address amount = record {
  chain_id = codes "h-1";
  epoch_number = 4;
  address = address;
  stk_amount = coin (codes "stk/uatom") amount;
  unbond_amount = coin (codes "uatom") amount;
}

abbrev unbonding : Unbonding
unbonding = record {
  chain_id = codes "h-1";
  epoch_number = 4;
  mature_time = none;
  burn_amount = coin (codes "stk/uatom") 120;
  unbond_amount = coin (codes "uatom") 120;
  ibc_sequence_id = [];
  state = UnbondingState.claimable;
}

abbrev ann : UserUnbonding
ann = unbonded (codes "a") 100

abbrev bob : UserUnbonding
bob = unbonded (codes "b") 20

-- The undelegation account has less than the first user is due.
abbrev funds : Ledger
funds x d = part x d (module_of undelegation_account) (coin (codes "ibc/A") 30)

abbrev claiming : Claiming list_stores Ledger
claiming = record {
  unbonding = unbonding;
  unbonding_store = (key_of_unbonding unbonding, unbonding) ∷ [];
  user_store = (key_of_user_unbonding ann, ann) ∷ (key_of_user_unbonding bob, bob) ∷ [];
  world = funds;
}

not_same : (j k : Bytes) → same j k ≡ false → j ≢ k
not_same j k b h = ground (arith, same_iff j k)

claim_users-Lost_example :
    Returns
      (Unpaid.Lost list_stores ledger ibc_denom
        (list_store-StoreLaws Unbonding)
        (list_store-StoreLaws UserUnbonding)
        (chain two)
        ann
        bob
        unbonding
        claiming.unbonding_store
        claiming.user_store
        funds
        (λ x d.
          funds x d
          + part x d (user (codes "b")) (coin (codes "ibc/A") 20)
          - part x d (module_of undelegation_account) (coin (codes "ibc/A") 20))
        (codes "a")
        (codes "b")
        other)
      (claim_users list_stores ledger ibc_denom (chain two) (ann ∷ bob ∷ []) claiming)
unfolding part same user_unbonding_key
claim_users-Lost_example =
    Unpaid.claim_users-Lost list_stores ledger ibc_denom (list_store-StoreLaws Unbonding)
      (list_store-StoreLaws UserUnbonding) (chain two) ann bob unbonding claiming.unbonding_store
      claiming.user_store funds
      (λ x d.
        funds x d
        + part x d (user (codes "b")) (coin (codes "ibc/A") 20)
        - part x d (module_of undelegation_account) (coin (codes "ibc/A") 20))
      (codes "a") (codes "b") other refl refl refl refl refl refl refl refl
      (not_same (key_of_user_unbonding ann) (key_of_user_unbonding bob) refl) (tt, tt)

abbrev stores_after :
    Outcome Error (State list_stores Ledger)
    → List (Bytes × Unbonding) × List (Bytes × UserUnbonding)
stores_after (ok s) = (s.unbonding_store, s.user_store)
stores_after (err e) = ([], [])
stores_after panic = ([], [])

-- The whole claim of the chain: the second user is paid, and the first has a record and no unbonding.
claim_run :
    stores_after (
      do_claim list_stores ledger ibc_denom (chain two) (record before {
        unbonding_store = claiming.unbonding_store;
        user_store = claiming.user_store;
        world = funds;
      }))
    ≡ ([], (key_of_user_unbonding ann, ann) ∷ [])
unfolding do_claim same part filter_unbondings filter_user_unbondings coin_sub delete_unbonding
    delete_user_unbonding erase unbonding_key user_unbonding_key
claim_run = refl
