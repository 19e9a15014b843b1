-- ===== src/Ibc/Tests.antt =====
-- Runs of x/liquidstakeibc on small data, and the theorems at inputs that meet their hypotheses.
use pstake_native_test.Base.{
  ℕ, ◌≡◌, refl, ◌+◌, ◌*◌, ◌/◌, ◌≤◌, true, false, some, none, List, [], ◌∷◌, arith, ok, sum_by,
  select,
}
use pstake_native_test.Base.Int.{◌+ℤ◌, ◌-ℤ◌, ◌*ℤ◌, pos, negsuc}
use pstake_native_test.Base.Text.{Bytes, codes, same, less}
use pstake_native_test.Sdk.Coin.{coin, coin_sub}
use pstake_native_test.Sdk.Dec.{one}
use pstake_native_test.Sdk.Dec.Rounding.{integer_ops, integer_ops-DecLaws}
use pstake_native_test.Sdk.Store.Content.{Entries, insert}
use pstake_native_test.Sdk.Store.Sorted.{list_store, list_store-StoreLaws}
use pstake_native_test.Sdk.Store.Update.{IsKeyed}
use pstake_native_test.Ibc.Types.{
  Deposit, DepositState, HostChain, HostChainLsParams, Validator, IcaAccount, ChannelState,
}
use pstake_native_test.Ibc.Keys.{deposit_key}
use pstake_native_test.Ibc.Deposit.{
  get_deposits_for_host_chain, coin_amount, get_deposit_amount_on_host_chain,
  get_deposit_amount_on_persistence, key_of, adjust_deposits_for_redemption,
}
use pstake_native_test.Ibc.Deposit.Redeem.{Adjusts, adjust_deposits_for_redemption-Adjusts}
use pstake_native_test.Ibc.Deposit.Amounts.{deposit_amounts_partition}
use pstake_native_test.Ibc.Strategy.Exact.{GeneratesFor, generate_messages-Generates}
use pstake_native_test.Ibc.Strategy.Weights.{
  GeneratesShared, share_weights_total, generate_delegate_messages-Generates,
}
use pstake_native_test.Ibc.Strategy.{
  message, messages_from, delegate_amounts, difference, is_delegable, weight_of, share_weights,
  get_host_chain_total_delegations, generate_messages, generate_delegate_messages,
}

abbrev pub deposit : ℕ → ℕ → DepositState → Bytes → Deposit
deposit epoch amount state id = record {
  chain_id = codes "h-1";
  amount = coin (codes "ibc/A") amount;
  epoch = epoch;
  state = state;
  ibc_sequence_id = id;
}

-- Two pending deposits, and one that is being delegated.
abbrev pub deposits : Entries Deposit
deposits =
    (codes "h-11", deposit 1 40 DepositState.pending [])
    ∷ (codes "h-12", deposit 2 25 DepositState.delegating (codes "c-sequence-7"))
    ∷ (codes "h-13", deposit 3 30 DepositState.pending [])
    ∷ []

abbrev pub validator : ℕ → ℕ → ℕ → Validator
validator n weight delegated = record {
  operator_address = 118 ∷ n ∷ [];
  status = codes "BOND_STATUS_BONDED";
  weight = weight;
  delegated_amount = pos delegated;
  exchange_rate = one;
  unbonding_epoch = 0;
  delegable = true;
}

abbrev pub account : IcaAccount
account = record {
  address = codes "host1abc";
  balance = coin (codes "uatom") 0;
  owner = codes "h-1.delegate";
  channel_state = ChannelState.created;
}

abbrev pub params : HostChainLsParams
params = record {
  deposit_fee = 0;
  restake_fee = 0;
  unstake_fee = 0;
  redemption_fee = 0;
  lsm_validator_cap = one;
  lsm_bond_factor = negsuc 0;
  max_entries = 7;
  redelegation_acceptable_delta = pos 100;
  upper_c_value_limit = pos (2 * one);
  lower_c_value_limit = pos 1;
}

abbrev pub chain : List Validator → HostChain
chain vs = record {
  chain_id = codes "h-1";
  connection_id = codes "connection-0";
  params = params;
  host_denom = codes "uatom";
  channel_id = codes "channel-0";
  port_id = codes "transfer";
  delegation_account = some account;
  rewards_account = none;
  validators = vs;
  minimum_deposit = pos 1;
  c_value = one;
  last_c_value = one;
  unbonding_factor = 4;
  active = true;
  auto_compound_factor = 0;
  lsm = false;
}

pub deposits-IsKeyed : IsKeyed key_of deposits
unfolding deposit_key less
deposits-IsKeyed = (((refl, (refl, tt)), ((refl, tt), (tt, tt))), (refl, (refl, (refl, tt))))

adjust_deposits_for_redemption-Adjusts_example :
    let amount = coin (codes "ibc/A") 50 in
    Adjusts
      (list_store Deposit)
      (chain [])
      amount
      deposits
      (adjust_deposits_for_redemption (list_store Deposit) (chain []) amount deposits)
adjust_deposits_for_redemption-Adjusts_example =
    adjust_deposits_for_redemption-Adjusts (list_store Deposit) (list_store-StoreLaws Deposit)
      (chain []) (coin (codes "ibc/A") 50) deposits deposits-IsKeyed
      ((λ _. refl), ((λ _. refl), ((λ _. refl), tt)))

-- The first deposit is used up and the second keeps the rest.
adjusted :
    adjust_deposits_for_redemption
      (list_store Deposit)
      (chain [])
      (coin (codes "ibc/A") 50)
      deposits
    ≡ ok (
        (codes "h-11", deposit 1 0 DepositState.pending [])
        ∷ (codes "h-12", deposit 2 25 DepositState.delegating (codes "c-sequence-7"))
        ∷ (codes "h-13", deposit 3 20 DepositState.pending [])
        ∷ [])
unfolding adjust_deposits_for_redemption deposit_key same coin_sub insert
adjusted = refl

deposit_amounts_partition_example :
    get_deposit_amount_on_persistence (list_store Deposit) (codes "h-1") deposits
      + get_deposit_amount_on_host_chain (list_store Deposit) (codes "h-1") deposits
    ≡ sum_by coin_amount (get_deposits_for_host_chain (list_store Deposit) (codes "h-1") deposits)
deposit_amounts_partition_example =
    deposit_amounts_partition (list_store Deposit) (codes "h-1") deposits

-- Two validators of the same weight, of which the first holds 10 tokens; a third takes no more.
abbrev pub two : List Validator
two = validator 1 (one / 2) 10 ∷ validator 2 (one / 2) 0 ∷ []

abbrev three : List Validator
three =
    validator 1 (one / 4) 10
    ∷ record (validator 2 (one / 2) 5) { delegable = false }
    ∷ validator 3 (one / 4) 0
    ∷ []

generate_messages-Generates_example :
    GeneratesFor integer_ops
      (chain two)
      two
      (pos 10)
      11
      false
      (generate_messages integer_ops (chain two) two (pos 10) 11 false)
generate_messages-Generates_example =
    generate_messages-Generates integer_ops (chain two) two (pos 10) 11 false

generate_delegate_messages-Generates_example :
    GeneratesShared integer_ops
      (chain three)
      7
      (generate_delegate_messages integer_ops (chain three) 7)
    × (get_host_chain_total_delegations (generate_delegate_messages integer_ops (chain three) 7).0
        ≡ get_host_chain_total_delegations (chain three))
generate_delegate_messages-Generates_example =
    generate_delegate_messages-Generates integer_ops integer_ops-DecLaws (chain three) 7

share_weights_total_example :
    let after =
      sum_by weight_of (select is_delegable (share_weights integer_ops (chain three)).validators) in
    (2 * after ≤ 2 * one + 2) × (2 * one ≤ 2 * after + 2)
share_weights_total_example =
    share_weights_total integer_ops integer_ops-DecLaws (chain three) (omega arith)

-- A validator whose difference is below a whole token gets a message for an amount of zero.
generate_messages-run :
    let to = λ (address : Bytes) (n : ℕ).
      message (chain two) false account (record { val_address = address; amount = pos 0 }) n in
    generate_messages integer_ops (chain two) two (pos 10) 11 false
    ≡ ok (to (118 ∷ 1 ∷ []) 0 ∷ to (118 ∷ 2 ∷ []) 11 ∷ [])
unfolding generate_messages messages_from delegate_amounts difference ◌+ℤ◌ ◌-ℤ◌ ◌*ℤ◌
generate_messages-run = refl
