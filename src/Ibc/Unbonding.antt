-- ===== src/Ibc/Unbonding.antt =====
-- The unbondings of a chain and epoch, those of its users, and those of its validators
-- (x/liquidstakeibc/keeper: unbonding.go, user_unbonding.go, validator_unbonding.go).
pub mod Amounts
pub mod Loops
pub mod Users
use pstake_native_test.Base.{
  ℕ, ◌≡◌, Bool, true, false, ◌&&◌, ◌||◌, Option, none, some, List, [], ◌∷◌, select, sum_by, Outcome,
  ok, ◌>>=◌, Option-cases,
}
use pstake_native_test.Base.Text.{Bytes, same}
use pstake_native_test.Sdk.Coin.{Coin, coin_add}
use pstake_native_test.Sdk.Store.{KvStore}
use pstake_native_test.Sdk.Store.Content.{values}
use pstake_native_test.Sdk.Store.Update.{set_each, delete_each}
use pstake_native_test.Ibc.Types.{
  Unbonding, UnbondingState, UserUnbonding, ValidatorUnbonding, HostChain, Error,
}
use pstake_native_test.Ibc.Keys.{unbonding_key, user_unbonding_key, validator_unbonding_key}

-- `unbonding.State--`, except on a pending and on a failed one.
unfoldable pub previous_unbonding : UnbondingState → UnbondingState
previous_unbonding UnbondingState.pending = UnbondingState.pending
previous_unbonding UnbondingState.initiated = UnbondingState.pending
previous_unbonding UnbondingState.maturing = UnbondingState.initiated
previous_unbonding UnbondingState.matured = UnbondingState.maturing
previous_unbonding UnbondingState.claimable = UnbondingState.matured
previous_unbonding UnbondingState.failed = UnbondingState.failed

-- One step back in the life of an unbonding, with no sequence id.
unfoldable pub unbonding_reverted : Unbonding → Unbonding
unfolding previous_unbonding
unbonding_reverted u = record u { ibc_sequence_id = []; state = previous_unbonding u.state }

unfoldable pub unbonding_failed : Unbonding → Unbonding
unbonding_failed u = record u { ibc_sequence_id = []; state = UnbondingState.failed }

abbrev pub key_of_unbonding : Unbonding → Bytes
key_of_unbonding u = unbonding_key u.chain_id u.epoch_number

abbrev pub key_of_user_unbonding : UserUnbonding → Bytes
key_of_user_unbonding u = user_unbonding_key u.chain_id u.address u.epoch_number

abbrev pub key_of_validator_unbonding : ValidatorUnbonding → Bytes
key_of_validator_unbonding u = validator_unbonding_key u.chain_id u.validator_address u.epoch_number

module _ (kv : KvStore Unbonding) where
  open kv use {Store, entries, get, set, delete}

  unfoldable pub set_unbonding : Unbonding → Store → Store
  set_unbonding u s = set (unbonding_key u.chain_id u.epoch_number) u s

  unfoldable pub get_unbonding : Bytes → ℕ → Store → Option Unbonding
  get_unbonding chain_id epoch s = get (unbonding_key chain_id epoch) s

  unfoldable pub delete_unbonding : Unbonding → Store → Store
  delete_unbonding u s = delete (unbonding_key u.chain_id u.epoch_number) s

  unfoldable pub filter_unbondings : (Unbonding → Bool) → Store → List Unbonding
  filter_unbondings p s = select p (values (entries s))

  abbrev pub new_unbonding : Bytes → ℕ → Coin → Coin → Unbonding
  new_unbonding chain_id epoch burn unbond = record {
    chain_id = chain_id;
    epoch_number = epoch;
    mature_time = none;
    burn_amount = burn;
    unbond_amount = unbond;
    ibc_sequence_id = [];
    state = UnbondingState.pending;
  }

  -- The two amounts on top of those of the record. `Add` panics on another denomination.
  abbrev pub add_to_unbonding : Unbonding → Coin → Coin → Outcome Error Unbonding
  add_to_unbonding u burn unbond = coin_add u.unbond_amount unbond >>= λ unbond'.
      coin_add u.burn_amount burn >>= λ burn'.
      ok (record u { unbond_amount = unbond'; burn_amount = burn' })

  unfoldable pub increase_undelegating_amount_for_epoch :
      Bytes → ℕ → Coin → Coin → Store → Outcome Error Store
  unfolding set_unbonding get_unbonding
  increase_undelegating_amount_for_epoch chain_id epoch burn unbond s =
      elim (get_unbonding chain_id epoch s) [
        | none ↦ ok (set_unbonding (new_unbonding chain_id epoch burn unbond) s)
        | some u ↦ add_to_unbonding u burn unbond >>= λ u'. ok (set_unbonding u' s)
      ]

  unfoldable pub fail_all_unbondings_for_sequence_id : Bytes → Store → Store
  unfolding filter_unbondings set_each unbonding_failed
  fail_all_unbondings_for_sequence_id sequence_id s =
      set_each kv key_of_unbonding unbonding_failed
        (filter_unbondings (λ u. same u.ibc_sequence_id sequence_id) s) s

  unfoldable pub revert_unbondings_state : List Unbonding → Store → Store
  unfolding set_each unbonding_reverted
  revert_unbondings_state = set_each kv key_of_unbonding unbonding_reverted

module _ (kv : KvStore UserUnbonding) where
  open kv use {Store, entries, get, set, delete}

  unfoldable pub set_user_unbonding : UserUnbonding → Store → Store
  set_user_unbonding u s = set (user_unbonding_key u.chain_id u.address u.epoch_number) u s

  unfoldable pub get_user_unbonding : Bytes → Bytes → ℕ → Store → Option UserUnbonding
  get_user_unbonding chain_id address epoch s = get (user_unbonding_key chain_id address epoch) s

  unfoldable pub delete_user_unbonding : UserUnbonding → Store → Store
  delete_user_unbonding u s = delete (user_unbonding_key u.chain_id u.address u.epoch_number) s

  unfoldable pub filter_user_unbondings : (UserUnbonding → Bool) → Store → List UserUnbonding
  filter_user_unbondings p s = select p (values (entries s))

  abbrev pub new_user_unbonding : Bytes → Bytes → ℕ → Coin → Coin → UserUnbonding
  new_user_unbonding chain_id address epoch stk unbond = record {
    chain_id = chain_id;
    epoch_number = epoch;
    address = address;
    stk_amount = stk;
    unbond_amount = unbond;
  }

  abbrev pub add_to_user_unbonding : UserUnbonding → Coin → Coin → Outcome Error UserUnbonding
  add_to_user_unbonding u stk unbond = coin_add u.stk_amount stk >>= λ stk'.
      coin_add u.unbond_amount unbond >>= λ unbond'.
      ok (record u { stk_amount = stk'; unbond_amount = unbond' })

  unfoldable pub increase_user_unbonding_amount_for_epoch :
      Bytes → Bytes → ℕ → Coin → Coin → Store → Outcome Error Store
  unfolding set_user_unbonding get_user_unbonding
  increase_user_unbonding_amount_for_epoch chain_id address epoch stk unbond s =
      elim (get_user_unbonding chain_id address epoch s) [
        | none ↦ ok (set_user_unbonding (new_user_unbonding chain_id address epoch stk unbond) s)
        | some u ↦ add_to_user_unbonding u stk unbond >>= λ u'. ok (set_user_unbonding u' s)
      ]

-- `u.MatureTime != time.Time{}`
abbrev pub has_time : Option ℕ → Bool
has_time none = false
has_time (some t) = true

abbrev pub is_unbonded : Bytes → ValidatorUnbonding → Bool
is_unbonded chain_id u = same u.chain_id chain_id && has_time u.mature_time

module _ (kv : KvStore ValidatorUnbonding) where
  open kv use {Store, entries, get, set, delete}

  unfoldable pub set_validator_unbonding : ValidatorUnbonding → Store → Store
  set_validator_unbonding u s =
      set (validator_unbonding_key u.chain_id u.validator_address u.epoch_number) u s

  unfoldable pub get_validator_unbonding : Bytes → Bytes → ℕ → Store → Option ValidatorUnbonding
  get_validator_unbonding chain_id address epoch s =
      get (validator_unbonding_key chain_id address epoch) s

  unfoldable pub delete_validator_unbonding : ValidatorUnbonding → Store → Store
  delete_validator_unbonding u s =
      delete (validator_unbonding_key u.chain_id u.validator_address u.epoch_number) s

  unfoldable pub filter_validator_unbondings :
      (ValidatorUnbonding → Bool) → Store → List ValidatorUnbonding
  filter_validator_unbondings p s = select p (values (entries s))

  unfoldable pub get_all_validator_unbonded_amount : HostChain → Store → ℕ
  unfolding filter_validator_unbondings
  get_all_validator_unbonded_amount hc s =
      sum_by (λ u. u.amount.amount) (filter_validator_unbondings (is_unbonded hc.chain_id) s)

  unfoldable pub delete_validator_unbondings_for_sequence_id : Bytes → Store → Store
  unfolding filter_validator_unbondings delete_each
  delete_validator_unbondings_for_sequence_id sequence_id s =
      delete_each kv key_of_validator_unbonding
        (filter_validator_unbondings (λ u. same u.ibc_sequence_id sequence_id) s) s
