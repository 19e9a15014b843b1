-- ===== src/Ibc/Deposit.antt =====
-- The deposits of the module (x/liquidstakeibc/keeper/deposit.go), over the store that holds them.
pub mod Redeem
pub mod Amounts
use pstake_native_test.Base.{
  ℕ, ◌+◌, ◌-◌, ◌≡◌, Bool, true, false, not, ◌&&◌, ◌||◌, Option, none, some, List, [], ◌∷◌, ltb, leb,
  ◌==◌, if◌then◌else◌, select, sum_by, Outcome, ok, err, panic, ◌>>=◌,
}
use pstake_native_test.Base.Text.{Bytes, same}
use pstake_native_test.Sdk.Coin.{Coin, coin, is_zero, coin_sub}
use pstake_native_test.Sdk.Store.{KvStore}
use pstake_native_test.Sdk.Store.Content.{values}
use pstake_native_test.Sdk.Store.Update.{set_each}
use pstake_native_test.Ibc.Types.{Deposit, DepositState, HostChain, Error, insufficient_deposits}
use pstake_native_test.Ibc.Keys.{deposit_key}

-- `state == s` on the enumeration of the states.
abbrev pub state_is : DepositState → DepositState → Bool
state_is DepositState.pending DepositState.pending = true
state_is DepositState.sent DepositState.sent = true
state_is DepositState.received DepositState.received = true
state_is DepositState.delegating DepositState.delegating = true
state_is _ _ = false

-- `deposit.State--`, where it is not the first state.
unfoldable pub previous : DepositState → DepositState
previous DepositState.pending = DepositState.pending
previous DepositState.sent = DepositState.pending
previous DepositState.received = DepositState.sent
previous DepositState.delegating = DepositState.received

-- One step back in the life of a deposit, with no sequence id.
unfoldable pub reverted : Deposit → Deposit
unfolding previous
reverted d = record d { state = previous d.state; ibc_sequence_id = [] }

-- The tests by which the deposits are picked.
abbrev pub on_chain : Bytes → Deposit → Bool
on_chain chain_id d = same d.chain_id chain_id

abbrev pub is_redeemable : Bytes → Deposit → Bool
is_redeemable chain_id d =
    on_chain chain_id d && (state_is d.state DepositState.pending && not (is_zero d.amount))

abbrev pub is_on_persistence : Bytes → Deposit → Bool
is_on_persistence chain_id d =
    on_chain chain_id d
    && (state_is d.state DepositState.pending || state_is d.state DepositState.sent)

abbrev pub is_on_host_chain : Bytes → Deposit → Bool
is_on_host_chain chain_id d =
    on_chain chain_id d
    && (state_is d.state DepositState.received || state_is d.state DepositState.delegating)

-- The amount that a loop adds up.
abbrev pub coin_amount : Deposit → ℕ
coin_amount d = d.amount.amount

abbrev pub key_of : Deposit → Bytes
key_of d = deposit_key d.chain_id d.epoch

-- The first element that passes a test, as a loop that returns it.
abbrev pub first : (Deposit → Bool) → List Deposit → Option Deposit
first p [] = none
first p (d ∷ ds) = if p d then some d else first p ds

module _ (kv : KvStore Deposit) where
  open kv use {Store, entries, set, delete}

  unfoldable pub set_deposit : Deposit → Store → Store
  set_deposit d s = set (deposit_key d.chain_id d.epoch) d s

  unfoldable pub delete_deposit : Deposit → Store → Store
  delete_deposit d s = delete (deposit_key d.chain_id d.epoch) s

  unfoldable pub get_all_deposits : Store → List Deposit
  get_all_deposits s = values (entries s)

  -- The deposits that pass a test, in the order of the store.
  unfoldable pub filter_deposits : (Deposit → Bool) → Store → List Deposit
  filter_deposits p s = select p (values (entries s))

  -- `IBCDenom` hashes a denomination trace, which the transfer module of ibc-go does.
  module _ (ibc_denom : HostChain → Bytes) where
    unfoldable pub new_deposit : ℕ → HostChain → Deposit
    new_deposit epoch hc = record {
      chain_id = hc.chain_id;
      amount = coin (ibc_denom hc) 0;
      epoch = epoch;
      state = DepositState.pending;
      ibc_sequence_id = [];
    }

    -- One pending deposit of zero for each host chain.
    unfoldable pub create_deposits : List HostChain → ℕ → Store → Store
    create_deposits [] epoch s = s
    create_deposits (hc ∷ hcs) epoch s =
        create_deposits hcs epoch (set (deposit_key hc.chain_id epoch) (new_deposit epoch hc) s)

  unfoldable pub revert_deposits_state : List Deposit → Store → Store
  unfolding set_each
  revert_deposits_state = set_each kv key_of reverted

  unfoldable pub get_deposit_for_chain_and_epoch : Bytes → ℕ → Store → Option Deposit
  get_deposit_for_chain_and_epoch chain_id epoch s =
      first (λ d. d.epoch == epoch && on_chain chain_id d) (values (entries s))

  unfoldable pub get_deposits_for_host_chain : Bytes → Store → List Deposit
  unfolding filter_deposits
  get_deposits_for_host_chain chain_id = filter_deposits (on_chain chain_id)

  unfoldable pub get_deposits_with_sequence_id : Bytes → Store → List Deposit
  unfolding filter_deposits
  get_deposits_with_sequence_id sequence_id =
      filter_deposits (λ d. same d.ibc_sequence_id sequence_id)

  unfoldable pub get_pending_deposits_before_epoch : ℕ → Store → List Deposit
  unfolding filter_deposits
  get_pending_deposits_before_epoch epoch =
      filter_deposits (λ d. leb d.epoch epoch && state_is d.state DepositState.pending)

  -- The deposits, and their sum.
  unfoldable pub get_redeemable_deposits_for_host_chain : HostChain → Store → List Deposit × ℕ
  unfolding filter_deposits
  get_redeemable_deposits_for_host_chain hc s =
      let ds = filter_deposits (is_redeemable hc.chain_id) s in (ds, sum_by coin_amount ds)

  unfoldable pub get_delegable_deposits_for_chain : Bytes → Store → List Deposit
  unfolding filter_deposits
  get_delegable_deposits_for_chain chain_id =
      filter_deposits (λ d. on_chain chain_id d && state_is d.state DepositState.received)

  unfoldable pub get_delegating_deposits_for_chain : Bytes → Store → List Deposit
  unfolding filter_deposits
  get_delegating_deposits_for_chain chain_id =
      filter_deposits (λ d. on_chain chain_id d && state_is d.state DepositState.delegating)

  unfoldable pub get_deposit_amount_on_persistence : Bytes → Store → ℕ
  unfolding filter_deposits
  get_deposit_amount_on_persistence chain_id s =
      sum_by coin_amount (filter_deposits (is_on_persistence chain_id) s)

  unfoldable pub get_deposit_amount_on_host_chain : Bytes → Store → ℕ
  unfolding filter_deposits
  get_deposit_amount_on_host_chain chain_id s =
      sum_by coin_amount (filter_deposits (is_on_host_chain chain_id) s)

  -- The loop of `AdjustDepositsForRedemption`: deposits are used up in order, and the one that is
  -- larger than what is left keeps the difference.
  unfoldable pub redeem_from : List Deposit → Coin → Store → Outcome Error Store
  unfolding set_deposit
  redeem_from [] left s = ok s
  redeem_from (d ∷ ds) left s =
      let partly =
        coin_sub d.amount left >>= λ kept. ok (set_deposit (record d { amount = kept }) s) in
      let wholly = coin_sub left d.amount >>= λ left'. coin_sub d.amount d.amount >>= λ nothing.
      redeem_from ds left' (set_deposit (record d { amount = nothing }) s) in
      if is_zero left then ok s else if ltb left.amount d.amount.amount then partly else wholly

  unfoldable pub adjust_deposits_for_redemption : HostChain → Coin → Store → Outcome Error Store
  unfolding redeem_from get_redeemable_deposits_for_host_chain
  adjust_deposits_for_redemption hc amount s =
      let (ds, total) = get_redeemable_deposits_for_host_chain hc s in
      if ltb total amount.amount then err insufficient_deposits else redeem_from ds amount s
