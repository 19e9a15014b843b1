-- ===== src/Ibc/MessageTests.antt =====
-- Runs of the messages on small data, and the theorems at inputs that meet their hypotheses.
use pstake_native_test.Base.Int.{◌+ℤ◌}
use pstake_native_test.Sdk.Store.Content.{insert, lookup}
use pstake_native_test.Ibc.Unbonding.{
  increase_user_unbonding_amount_for_epoch, increase_undelegating_amount_for_epoch, get_unbonding,
}
use pstake_native_test.Ibc.Strategy.{get_host_chain_total_delegations}
use pstake_native_test.Ibc.Epoch.{current_unbonding_epoch}
use pstake_native_test.Ibc.Keys.{
  unbonding_key, user_unbonding_key, cut_prefix, host_denom_to_mint_denom, mint_denom_to_host_denom,
}
use pstake_native_test.Ibc.Deposit.{get_deposit_for_chain_and_epoch, adjust_deposits_for_redemption}
use pstake_native_test.Ibc.HostChain.{get_host_chain_from_ibc_denom, get_host_chain_from_host_denom}
use pstake_native_test.Ibc.Messages.Stake.{EpochLaws}
use pstake_native_test.Ibc.Messages.{liquid_stake, redeem, liquid_unstake}
use pstake_native_test.Ibc.State.{undelegation_account, Stores, State, deposit_account}
use pstake_native_test.Ibc.Tests.{chain, two, params, deposits, deposits-IsKeyed}
use pstake_native_test.Sdk.Store.Sorted.{list_store, list_store-StoreLaws}
use pstake_native_test.Sdk.Dec.Rounding.{integer_ops, integer_ops-DecLaws}
use pstake_native_test.Sdk.Dec.{one}
use pstake_native_test.Base.{
  Bool, ◌/◌, refl, sym, ap, [], ◌∷◌, panic, Ends, Outcome, ℕ, ◌+◌, ◌-◌, ◌≤◌, ◌≡◌, arith, true,
  false, ltb, if◌then◌else◌, some, ok, err,
}
use pstake_native_test.Base.Text.{less, codes, same, Bytes, same_iff}
use pstake_native_test.Sdk.Coin.{coin_sub, coin, Coin}
use pstake_native_test.Ibc.Types.{
  HostChain, Deposit, LsmDeposit, Unbonding, UserUnbonding, ValidatorUnbonding, Error, other,
}
use pstake_native_test.Ibc.Redelegation.{Redelegations, RedelegateTx}
use pstake_native_test.Ibc.Bank.{BankLaws, Account, user, module_of, same_account, Bank, part}
use pstake_native_test.Ibc.Messages.Stake
use pstake_native_test.Ibc.Messages.Redeem
use pstake_native_test.Ibc.Messages.Unstake

abbrev pub Ledger : Type 0
Ledger = Account → Bytes → ℕ

-- A bank that keeps a function of balances, and refuses what an account does not have.
abbrev pub ledger : Bank Ledger
ledger = record {
  send = λ a b c w.
      if ltb (w a c.denom) c.amount
      then err other
      else ok (λ x d. w x d + part x d b c - part x d a c);
  mint = λ m c w. ok (λ x d. w x d + part x d (module_of m) c);
  burn = λ m c w.
      if ltb (w (module_of m) c.denom) c.amount
      then err other
      else ok (λ x d. w x d - part x d (module_of m) c);
  balance = λ w. w;
  parse_address = λ a. some a;
}

same_account_iff : (a b : Account) → same_account a b ≡ true → a ≡ b
same_account_iff (user a) (user b) h = ground (arith, same_iff a b)
same_account_iff (module_of a) (module_of b) h = ground (arith, same_iff a b)
same_account_iff (module_of a) (user b) h = cc
same_account_iff (user a) (module_of b) h = cc

part-le :
    (w : Ledger) (x a : Account) (d : Bytes) (c : Coin)
    → ltb (w a c.denom) c.amount ≡ false
    → part x d a c ≤ w x d
unfolding part
part-le w x a d c h = ground (arith, same_account_iff x a, same_iff d c.denom)

ledger_of : Ledger → Outcome Error Ledger → Ledger
ledger_of w (ok w') = w'
ledger_of w (err e) = w
ledger_of w panic = w

not_refused :
    (t : Bool) (w w' : Ledger) (x : Account) (d : Bytes)
    → if◌then◌else◌ {A = Outcome Error Ledger} t (err other) (ok w) ≡ ok w'
    → (t ≡ false) × (w x d ≡ w' x d)
unfolding ledger_of
not_refused true w w' x d h = cc h
not_refused false w w' x d h = (refl, ap (λ r. ledger_of w r x d) h)

pub ledger-BankLaws : BankLaws ledger
unfolding ledger_of
ledger-BankLaws = record {
  balance-send = λ a b c w w' h x d.
      let sent = not_refused (ltb (w a c.denom) c.amount) _ w' x d h in
      omega (arith, sent.1, part-le w x a d c sent.0);
  balance-mint = λ m c w w' h x d. sym (ap (λ r. ledger_of w r x d) h);
  balance-burn = λ m c w w' h x d.
      let burnt = not_refused (ltb (w (module_of m) c.denom) c.amount) _ w' x d h in
      omega (arith, burnt.1, part-le w x (module_of m) d c burnt.0);
}

-- A chain whose minted token is worth two of the host chain's, with fees of a tenth.
abbrev pub priced : HostChain
priced = record (chain two) {
  c_value = one / 2;
  params = record params {
    deposit_fee = one / 10;
    unstake_fee = one / 10;
    redemption_fee = one / 10;
  };
}

abbrev pub list_stores : Stores
list_stores = record {
  chains = list_store HostChain;
  deposits = list_store Deposit;
  lsm_deposits = list_store LsmDeposit;
  unbondings = list_store Unbonding;
  user_unbondings = list_store UserUnbonding;
  validator_unbondings = list_store ValidatorUnbonding;
  redelegations = list_store Redelegations;
  redelegation_txs = list_store RedelegateTx;
}

-- The user has 1000 of each denomination, and the deposit account as many.
abbrev holdings : Ledger
holdings x d =
    part x d (user (codes "u")) (coin d 1000) + part x d (module_of deposit_account) (coin d 1000)

abbrev pub before : State list_stores Ledger
before = record {
  chain_store = (codes "h-1", priced) ∷ [];
  deposit_store = deposits;
  lsm_store = [];
  unbonding_store = [];
  user_store = [];
  validator_store = [];
  redelegation_store = [];
  tx_store = [];
  params = record { admin_address = codes "admin"; fee_address = codes "fees" };
  world = holdings;
}

abbrev pub ibc_denom : HostChain → Bytes
ibc_denom hc = codes "ibc/A"

abbrev pub epochs : Bytes → Ledger → ℕ
epochs e w = 3

epochs-EpochLaws : EpochLaws ledger epochs
epochs-EpochLaws = record { epoch-send = λ a b c w w' e h. refl }

liquid_stake-Deposits_example :
    let amount = coin (codes "ibc/A") 100 in
    Ends
      (Stake.Deposits list_stores ledger integer_ops ibc_denom epochs (codes "u") amount before)
      (Stake.Refused list_stores ledger integer_ops ibc_denom epochs (codes "u") amount before)
      (Stake.Panics list_stores ledger integer_ops ibc_denom epochs (codes "u") amount before)
      (liquid_stake list_stores ledger integer_ops ibc_denom epochs (codes "u") amount before)
liquid_stake-Deposits_example =
    Stake.liquid_stake-Deposits list_stores ledger integer_ops ibc_denom epochs (codes "u")
      (coin (codes "ibc/A") 100) before ledger-BankLaws integer_ops-DecLaws
      (list_store-StoreLaws Deposit) epochs-EpochLaws deposits-IsKeyed

liquid_unstake-Unstakes_example :
    let amount = coin (codes "stk/uatom") 20 in
    Ends
      (Unstake.Unstakes list_stores ledger integer_ops ibc_denom epochs (codes "u") amount before)
      (Unstake.Refused list_stores ledger integer_ops ibc_denom epochs (codes "u") amount before)
      (Unstake.Panics list_stores ledger integer_ops ibc_denom epochs (codes "u") amount before)
      (liquid_unstake list_stores ledger integer_ops ibc_denom epochs (codes "u") amount before)
liquid_unstake-Unstakes_example =
    Unstake.liquid_unstake-Unstakes list_stores ledger integer_ops ibc_denom epochs (codes "u")
      (coin (codes "stk/uatom") 20) before ledger-BankLaws integer_ops-DecLaws epochs-EpochLaws
      (list_store-StoreLaws Unbonding) (list_store-StoreLaws UserUnbonding) (tt, tt) (tt, tt)

-- What a user and an account hold after a message.
abbrev held_after : Outcome Error (State list_stores Ledger) → Account → Bytes → ℕ
held_after (ok s) x d = s.world x d
held_after (err e) x d = 0
held_after panic x d = 0

-- 100 tokens are 50 minted ones, of which 5 are the fee.
stake_run :
    let r =
      liquid_stake list_stores ledger integer_ops ibc_denom epochs
        (codes "u")
        (coin (codes "ibc/A") 100)
        before in
    (held_after r (user (codes "u")) (codes "stk/uatom") ≡ 1045)
    × (held_after r (user (codes "fees")) (codes "stk/uatom") ≡ 5)
    × (held_after r (module_of deposit_account) (codes "ibc/A") ≡ 1100)
unfolding liquid_stake part same get_host_chain_from_ibc_denom get_deposit_for_chain_and_epoch
    coin_sub host_denom_to_mint_denom
stake_run = (refl, refl, refl)

-- 20 minted tokens, of which 2 are the fee, are redeemed for 36.
redeem_run :
    let r =
      redeem list_stores ledger integer_ops ibc_denom epochs
        (codes "u")
        (coin (codes "stk/uatom") 20)
        before in
    (held_after r (user (codes "u")) (codes "stk/uatom") ≡ 980)
    × (held_after r (user (codes "u")) (codes "ibc/A") ≡ 1036)
    × (held_after r (user (codes "fees")) (codes "stk/uatom") ≡ 2)
unfolding redeem part same mint_denom_to_host_denom cut_prefix get_host_chain_from_host_denom
    host_denom_to_mint_denom coin_sub adjust_deposits_for_redemption
redeem_run = (refl, refl, refl)

-- 4 minted tokens, with a fee below one, are unbonded.
unstake_run :
    let r =
      liquid_unstake list_stores ledger integer_ops ibc_denom epochs
        (codes "u")
        (coin (codes "stk/uatom") 4)
        before in
    (held_after r (user (codes "u")) (codes "stk/uatom") ≡ 996)
    × (held_after r (module_of undelegation_account) (codes "stk/uatom") ≡ 4)
unfolding liquid_unstake part same mint_denom_to_host_denom cut_prefix
    get_host_chain_from_host_denom host_denom_to_mint_denom coin_sub current_unbonding_epoch
    increase_user_unbonding_amount_for_epoch increase_undelegating_amount_for_epoch lookup
    get_unbonding get_host_chain_total_delegations ◌+ℤ◌ insert unbonding_key user_unbonding_key less
unstake_run = (refl, refl)
