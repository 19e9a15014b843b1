-- ===== src/Ibc/Rebalance/Bounded.antt =====
-- What the redelegation messages of a host chain move in all.
use pstake_native_test.Base.{
  ◌≤◌, ◌≡◌, refl, Option, none, some, List, [], ◌∷◌, map, arith, sum_by, sum_by-map, Outcome, ok,
  err, panic, Never,
}
use pstake_native_test.Base.Int.{pos, ◌≤ℤ◌}
use pstake_native_test.Ibc.Types.{HostChain, IcaAccount, Error}
use pstake_native_test.Ibc.Strategy.{get_host_chain_total_delegations}
use pstake_native_test.Ibc.Redelegation.{Redelegation}
use pstake_native_test.Ibc.Rebalance.{
  Delegation, Move, RedelegateMessage, ideal_list, sort_delegation_list_asc, reverse, to_message,
  planned_moves, generate_redelegate_msgs,
}
use pstake_native_test.Ibc.Rebalance.Surplus.{
  surplus, lack, moved, sort_sum, reverse_sum, passes-Within,
}

-- The differences of the validators of a chain from their ideals.
abbrev pub ideals : HostChain → List Delegation
ideals hc = ideal_list (get_host_chain_total_delegations hc) (pos 0) hc.validators

-- How the generation of the messages ends.
abbrev pub Bounded : HostChain → Outcome Error (List RedelegateMessage) → Type 0
Bounded hc (ok ms) =
    (sum_by (λ m. m.amount.amount) ms ≤ sum_by surplus (ideals hc))
    × (sum_by (λ m. m.amount.amount) ms ≤ sum_by lack (ideals hc))
Bounded hc (err e) = Never
Bounded hc panic = hc.delegation_account ≡ none

planned_moves-Bounds :
    (hc : HostChain) (held : List Redelegation)
    → pos 0 ≤ℤ hc.params.redelegation_acceptable_delta
    → (moved (planned_moves hc held) ≤ sum_by surplus (ideals hc))
      × (moved (planned_moves hc held) ≤ sum_by lack (ideals hc))
unfolding planned_moves
planned_moves-Bounds hc held h =
    let ds = sort_delegation_list_asc (ideals hc) in
    let (by_surplus, by_lack) =
      passes-Within held hc.params.redelegation_acceptable_delta hc.params.max_entries (reverse ds)
        ds h in
    (
      omega (arith, by_surplus, reverse_sum surplus ds, sort_sum surplus (ideals hc)),
      omega (arith, by_lack, sort_sum lack (ideals hc)),
    )

-- The messages for what is planned, with an account or without.
messages-Bounded :
    (hc : HostChain) (ms : List Move) (account : Option IcaAccount)
    → hc.delegation_account ≡ account
    → (moved ms ≤ sum_by surplus (ideals hc)) × (moved ms ≤ sum_by lack (ideals hc))
    → Bounded hc (elim ms as (λ _. Outcome Error (List RedelegateMessage)) [
      | [] ↦ ok []
      | m ∷ rest ↦ elim account as (λ _. Outcome Error (List RedelegateMessage)) [
        | none ↦ panic
        | some a ↦ ok (map (to_message hc a) (m ∷ rest))
      ]
    ])
messages-Bounded hc [] account e b = (omega arith, omega arith)
messages-Bounded hc (m ∷ ms) none e b = e
messages-Bounded hc (m ∷ ms) (some a) e (b, c) =
    let same_sum =
      sum_by-map (λ (x : RedelegateMessage). x.amount.amount) (to_message hc a) (m ∷ ms) in
    (omega (arith, same_sum, b), omega (arith, same_sum, c))

-- When the accepted difference is not negative, the messages move in all no more than what validators
-- have above their ideals, and no more than what validators lack; without a delegation account the
-- generation may panic, and else it does not.
pub generate_redelegate_msgs-Bounded :
    (hc : HostChain) (held : List Redelegation)
    → pos 0 ≤ℤ hc.params.redelegation_acceptable_delta
    → Bounded hc (generate_redelegate_msgs hc held)
unfolding generate_redelegate_msgs
generate_redelegate_msgs-Bounded hc held h =
    messages-Bounded hc (planned_moves hc held) hc.delegation_account refl
      (planned_moves-Bounds hc held h)
