-- ===== src/Ibc/Deposit/Amounts.antt =====
-- What the deposit amounts count, and what reverting deposits leaves alone.
use pstake_native_test.Base.{
  ◌==◌, ◌-◌, ◌∙◌, ℕ, ◌+◌, ◌≡◌, refl, List, [], ◌∷◌, arith, if◌then◌else◌, select, sum_by,
}
use pstake_native_test.Base.Text.{Bytes, same}
use pstake_native_test.Sdk.Store.{KvStore, StoreLaws}
use pstake_native_test.Sdk.Store.Content.{values}
use pstake_native_test.Sdk.Store.Update.{
  update_where-agrees, IsKeyed, update_where, set_each-select,
}
use pstake_native_test.Ibc.Types.{Deposit}
use pstake_native_test.Ibc.Deposit.{
  DepositState, previous, key_of, on_chain, coin_amount, is_on_persistence, is_on_host_chain,
  reverted, get_deposit_amount_on_persistence, get_deposit_amount_on_host_chain,
  get_deposits_for_host_chain, get_deposits_with_sequence_id, revert_deposits_state,
}

partition :
    (c : Bytes) (d : Deposit)
    → (if is_on_persistence c d then coin_amount d else 0)
        + (if is_on_host_chain c d then coin_amount d else 0)
      ≡ (if on_chain c d then coin_amount d else 0)
partition c d = ground arith

partition_all :
    (c : Bytes) (ds : List Deposit)
    → sum_by coin_amount (select (is_on_persistence c) ds)
        + sum_by coin_amount (select (is_on_host_chain c) ds)
      ≡ sum_by coin_amount (select (on_chain c) ds)
partition_all c [] = refl
partition_all c (d ∷ ds) = ground (arith, partition c d, partition_all c ds)

-- The number of a state in the protocol definition, and the state of a number.
abbrev pub number : DepositState → ℕ
number DepositState.pending = 0
number DepositState.sent = 1
number DepositState.received = 2
number DepositState.delegating = 3

abbrev pub numbered : ℕ → DepositState
numbered n =
    if n == 0
    then DepositState.pending
    else (if n == 1
        then DepositState.sent
        else (if n == 2 then DepositState.received else DepositState.delegating))

-- A deposit whose state has the number before, if there is one, and that has no sequence id.
abbrev pub taken_back : Deposit → Deposit
taken_back d = record d { state = numbered (number d.state - 1); ibc_sequence_id = [] }

previous-numbered : (x : DepositState) → previous x ≡ numbered (number x - 1)
unfolding previous
previous-numbered DepositState.pending = refl
previous-numbered DepositState.sent = refl
previous-numbered DepositState.received = refl
previous-numbered DepositState.delegating = refl

pub reverted-taken_back : (d : Deposit) → reverted d ≡ taken_back d
unfolding reverted
reverted-taken_back d = rw (previous-numbered d.state) refl

module _ (kv : KvStore Deposit) where
  open kv use {Store, entries}

  -- The amount on Persistence and the amount on the host chain count every deposit of the chain,
  -- and count it once.
  pub deposit_amounts_partition :
      (chain_id : Bytes) (s : Store)
      → get_deposit_amount_on_persistence kv chain_id s
          + get_deposit_amount_on_host_chain kv chain_id s
        ≡ sum_by coin_amount (get_deposits_for_host_chain kv chain_id s)
  unfolding get_deposit_amount_on_persistence get_deposit_amount_on_host_chain
      get_deposits_for_host_chain
  deposit_amounts_partition c s = partition_all c (values (entries s))

  module _ (laws : StoreLaws kv) where
    -- Reverting the deposits of a sequence id takes just those one state back, clears their id, and
    -- leaves every other entry, and all keys and amounts, as they are.
    pub entries-revert_deposits_state :
        (sequence_id : Bytes) (s : Store)
        → IsKeyed key_of (entries s)
        → entries (revert_deposits_state kv (get_deposits_with_sequence_id kv sequence_id s) s)
          ≡ update_where (λ d. same d.ibc_sequence_id sequence_id) reverted (entries s)
    unfolding revert_deposits_state get_deposits_with_sequence_id reverted
    entries-revert_deposits_state q s h =
        set_each-select kv laws key_of reverted (λ d. same d.ibc_sequence_id q) s (λ v. refl) h

-- Reverting the deposits of a sequence id takes just those back.
pub entries-taken_back :
    (kv : KvStore Deposit) (laws : StoreLaws kv) (sequence_id : Bytes) (s : kv.Store)
    → IsKeyed key_of (kv.entries s)
    → kv.entries (revert_deposits_state kv (get_deposits_with_sequence_id kv sequence_id s) s)
      ≡ update_where (λ d. same d.ibc_sequence_id sequence_id) taken_back (kv.entries s)
entries-taken_back kv laws q s h =
    entries-revert_deposits_state kv laws q s h
    ∙ update_where-agrees (λ d. same d.ibc_sequence_id q) reverted taken_back (kv.entries s)
        reverted-taken_back
