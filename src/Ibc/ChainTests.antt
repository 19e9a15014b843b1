-- ===== src/Ibc/ChainTests.antt =====
-- Runs of the redistribution of a weight and of the redelegations on small data, and the theorems at
-- inputs that meet their hypotheses.
use pstake_native_test.Base.{some, ◌/◌, ◌≡◌, refl, false, List, [], ◌∷◌, arith, ok}
use pstake_native_test.Base.Int.{◌+ℤ◌, ◌-ℤ◌, ◌*ℤ◌}
use pstake_native_test.Base.Text.{codes, same, less}
use pstake_native_test.Sdk.Coin.{coin}
use pstake_native_test.Sdk.Dec.{one}
use pstake_native_test.Sdk.Dec.Rounding.{integer_ops, integer_ops-DecLaws}
use pstake_native_test.Sdk.Store.Sorted.{list_store, list_store-StoreLaws}
use pstake_native_test.Ibc.Types.{HostChain, Validator}
use pstake_native_test.Ibc.Strategy.{get_validator, total_from, get_host_chain_total_delegations}
use pstake_native_test.Ibc.HostChain.{redistribute_validator_weight}
use pstake_native_test.Ibc.HostChain.Weight.{IsDistinct}
use pstake_native_test.Ibc.HostChain.Redistribute.{
  Redistributes, redistribute_validator_weight-Redistributes,
}
use pstake_native_test.Ibc.Rebalance.{generate_redelegate_msgs}
use pstake_native_test.Ibc.Rebalance.Bounded.{Bounded, generate_redelegate_msgs-Bounded}
use pstake_native_test.Ibc.Tests.{chain, two, validator}

two-IsDistinct : IsDistinct two
unfolding same
two-IsDistinct = (refl, (refl, tt))

first_of_two :
    get_validator (validator 1 (one / 2) 10).operator_address (chain two).validators
    ≡ some (validator 1 (one / 2) 10)
unfolding get_validator same
first_of_two = refl

redistribute_validator_weight-Redistributes_example :
    Redistributes (list_store HostChain) integer_ops (chain two) (validator 1 (one / 2) 10) (
      redistribute_validator_weight
        (list_store HostChain)
        integer_ops
        (chain two)
        (validator 1 (one / 2) 10)
        [])
redistribute_validator_weight-Redistributes_example =
    redistribute_validator_weight-Redistributes (list_store HostChain) integer_ops
      (list_store-StoreLaws HostChain) integer_ops-DecLaws (chain two) (validator 1 (one / 2) 10) []
      two-IsDistinct first_of_two

-- The first validator has 150 more than its ideal, the second lacks them and takes no delegations,
-- and the third is at its ideal.
abbrev uneven : List Validator
uneven =
    validator 1 (one / 4) 400
    ∷ record (validator 2 (one / 2) 350) { delegable = false }
    ∷ validator 3 (one / 4) 250
    ∷ []

generate_redelegate_msgs-Bounded_example :
    Bounded (chain uneven) (generate_redelegate_msgs (chain uneven) [])
generate_redelegate_msgs-Bounded_example =
    generate_redelegate_msgs-Bounded (chain uneven) [] (omega arith)

-- The third one is sent a redelegation of nothing.
nothing_moved :
    generate_redelegate_msgs (chain uneven) []
    ≡ ok (
        record {
          delegator_address = codes "host1abc";
          validator_src_address = 118 ∷ 1 ∷ [];
          validator_dst_address = 118 ∷ 3 ∷ [];
          amount = coin (codes "uatom") 0;
        }
        ∷ [])
unfolding generate_redelegate_msgs same less total_from get_host_chain_total_delegations ◌+ℤ◌ ◌-ℤ◌
    ◌*ℤ◌
nothing_moved = refl
