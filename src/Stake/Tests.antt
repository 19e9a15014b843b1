-- ===== src/Stake/Tests.antt =====
-- Runs of x/liquidstake on small data, and the theorems at inputs that meet their hypotheses.
use pstake_native_test.Stake.Rebalance.Trace.{Traces}
use pstake_native_test.Base.{
  err, Outcome, sym, ap, panic, if◌then◌else◌, ℕ, ◌+◌, ◌*◌, ◌≤◌, ◌<◌, ◌≡◌, refl, false, List, [],
  ◌∷◌, arith, ok,
}
use pstake_native_test.Base.Text.{Bytes, codes, same}
use pstake_native_test.Sdk.Dec.{one, of_int}
use pstake_native_test.Sdk.Dec.Rounding.{integer_ops, integer_ops-DecLaws}
use pstake_native_test.Stake.Types.{
  WhitelistedValidator, LiquidValidator, whitelisted, get_weight, total_weight, total_liquid_tokens,
}
use pstake_native_test.Stake.Divide.{divide_by_weight, divide_by_current_weight}
use pstake_native_test.Stake.Divide.Current.{DividesTokens, divide_by_current_weight-Divides}
use pstake_native_test.Stake.Divide.Crumb.{Divides, divide_by_weight-Divides}
use pstake_native_test.Stake.Convert.{native_token_to_stk_xprt, stk_xprt_to_native_token}
use pstake_native_test.Stake.Convert.RoundTrip.{round_trip}
use pstake_native_test.Stake.Delegate.{ChainKeeper, Error, liquid_delegate, Params, liquid_stake}
use pstake_native_test.Stake.Delegate.Exact.{StakingLaws, Delegates, liquid_delegate-Delegates}
use pstake_native_test.Base.Int.{◌+ℤ◌, ◌-ℤ◌}
use pstake_native_test.Sdk.Coin.{coin}
use pstake_native_test.Stake.Rebalance.{
  Amounts, StakingKeeper, rebalance, total_of, target_map, target_shares,
}
use pstake_native_test.Stake.Rebalance.Loop.{IsDistinct}
use pstake_native_test.Stake.Rebalance.Targets.{target_map_total}
use pstake_native_test.Stake.Rebalance.Reach.{Reaches, rebalance-Reaches}

abbrev vals : List LiquidValidator
vals = record { operator_address = codes "v" } ∷ record { operator_address = codes "w" } ∷ []

abbrev listing : List WhitelistedValidator
listing =
    record { validator_address = codes "v"; target_weight = 1 }
    ∷ record { validator_address = codes "w"; target_weight = 2 }
    ∷ []

some_weight : 0 < total_weight listing vals
unfolding total_weight get_weight whitelisted same
some_weight = omega arith

divide_by_weight-Divides_example :
    Divides listing vals 100 (divide_by_weight integer_ops listing vals 100)
divide_by_weight-Divides_example =
    divide_by_weight-Divides integer_ops integer_ops-DecLaws listing vals 100 some_weight

round_trip_example :
    (minted : ℕ) × (back : ℕ) × (native_token_to_stk_xprt integer_ops {E = Unit {0}} 7 100
        (130 * one + 1)
      ≡ ok minted)
    × (stk_xprt_to_native_token integer_ops {E = Unit {0}} minted
          (100 + minted)
          (130 * one + 1 + of_int 7)
        ≡ ok back)
    × (back ≤ of_int 7)
round_trip_example =
    round_trip integer_ops integer_ops-DecLaws 7 100 (130 * one + 1) (omega arith) (omega arith)

-- Four tokens at the first validator and none at the second.
abbrev tokens : Amounts
tokens a = if same (codes "v") a then 4 else 0

abbrev weight : Amounts
weight a = 1

-- A staking module that makes every redelegation, and counts them.
abbrev keeper : StakingKeeper Bytes ℕ
keeper = record {
  has_receiving_redelegation = λ _ _. false;
  validate_unbond_amount = λ _ n _. ok n;
  del_shares = λ _ _. 0;
  begin_redelegation = λ _ _ _ w. ok (w + 1);
}

vals-IsDistinct : IsDistinct vals
unfolding same
vals-IsDistinct = (refl, (refl, tt))

rebalance-Reaches_example :
    Reaches
      (codes "transitive")
      keeper
      integer_ops
      weight
      tokens
      1000000000000000
      vals
      (rebalance (codes "transitive") keeper integer_ops weight tokens 1000000000000000 vals 0)
    × Traces
        (codes "transitive")
        keeper
        tokens
        0
        (rebalance (codes "transitive") keeper integer_ops weight tokens 1000000000000000 vals 0)
rebalance-Reaches_example =
    rebalance-Reaches (codes "transitive") keeper integer_ops weight tokens 1000000000000000 vals 0
      vals-IsDistinct

some_total : 0 < total_of vals weight
some_total = omega arith

some_shares : 0 < total_of vals (target_shares vals weight tokens)
unfolding target_shares same
some_shares = omega arith

target_map_total_example : total_of vals (target_map vals weight tokens) ≡ total_of vals tokens
target_map_total_example =
    target_map_total vals weight tokens vals-IsDistinct some_total some_shares

-- A staking module that adds up what it delegates, one share for a token.
abbrev adder : ChainKeeper ℕ
adder = record {
  bond_denom = λ _. codes "uxprt";
  net_amount_state = λ w. record {
    stkxprt_total_supply = 0;
    net_amount = 0;
    total_liquid_tokens = w;
    total_remaining_rewards = 0;
    total_unbonding_balance = 0;
    proxy_acc_balance = 0;
  };
  active_validators = λ _. vals;
  send_coins = λ _ _ _ w. ok w;
  mint_coins = λ _ w. ok w;
  send_coins_from_module = λ _ _ w. ok w;
  delegate = λ _ n w. ok (n, w + n);
}

-- The state of an outcome.
abbrev state_of : Outcome Error (ℕ × ℕ) → ℕ
state_of (ok r) = r.1
state_of (err e) = 0
state_of panic = 0

abbrev held_by : Outcome Error ℕ → ℕ
held_by (ok w) = w
held_by (err e) = 0
held_by panic = 0

adder-StakingLaws : StakingLaws adder (λ w. w)
adder-StakingLaws = record { delegate_adds = λ v n w shares w' e. sym (ap state_of e) }

liquid_delegate-Delegates_example :
    Delegates adder (λ w. w) 100 5 (liquid_delegate integer_ops adder vals 100 listing 5)
liquid_delegate-Delegates_example =
    liquid_delegate-Delegates integer_ops integer_ops-DecLaws adder (λ w. w) adder-StakingLaws
      listing vals 100 5 some_weight

abbrev stake_params : Params
stake_params = record {
  liquid_bond_denom = codes "stk/uxprt";
  whitelisted_validators = listing;
  min_liquid_stake_amount = 10;
}

-- The first stake mints a token for each one that is staked.
first_stake :
    liquid_stake integer_ops adder stake_params
      (codes "proxy")
      (codes "user")
      (coin (codes "uxprt") 100)
      5
    ≡ ok (100, 100, 105)
unfolding liquid_stake same total_weight get_weight whitelisted ◌+ℤ◌ ◌-ℤ◌
first_stake = refl

held : total_liquid_tokens tokens vals ≡ 4
unfolding same
held = refl

divide_by_current_weight-Divides_example :
    DividesTokens tokens 4 vals
      (10 * one + 1)
      (divide_by_current_weight integer_ops vals (10 * one + 1) 4 tokens)
divide_by_current_weight-Divides_example =
    divide_by_current_weight-Divides integer_ops integer_ops-DecLaws tokens vals (10 * one + 1) 4
      (omega arith) held
