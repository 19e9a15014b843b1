-- ===== src/Ibc/Rebalance.antt =====
-- How delegations on a host chain are moved towards their ideal (x/liquidstakeibc/keeper/rebalance.go).
pub mod Surplus
pub mod Bounded
use pstake_native_test.Base.{
  ℕ, ◌+◌, ◌-◌, ◌*◌, ◌/◌, ◌%◌, ◌^◌, Bool, true, false, not, ◌&&◌, ◌||◌, Option, none, some, List, [],
  ◌∷◌, ◌++◌, map, ltb, ◌==◌, if◌then◌else◌, length, Outcome, ok, panic,
}
use pstake_native_test.Base.Int.{ℤ, pos, negsuc, pos_part, neg_part, sub_ℕ, ◌+ℤ◌, ◌-ℤ◌, ◌*ℤ◌, ltb_ℤ}
use pstake_native_test.Base.Text.{Bytes, codes, same, less}
use pstake_native_test.Sdk.Coin.{Coin, coin}
use pstake_native_test.Sdk.Dec.{one}
use pstake_native_test.Ibc.Types.{HostChain, Validator, IcaAccount, Error}
use pstake_native_test.Ibc.Strategy.{get_host_chain_total_delegations}
use pstake_native_test.Ibc.Redelegation.{Redelegation}

pub record Delegation : Type 0 where
  pub validator : Bytes
  pub ideal : ℤ
  pub delegation : ℤ
  pub diff : ℤ
  pub validator_details : Validator

-- What a message moves.
pub record Move : Type 0 where
  pub src : Bytes
  pub dst : Bytes
  pub amount : ℕ

pub record RedelegateMessage : Type 0 where
  pub delegator_address : Bytes
  pub validator_src_address : Bytes
  pub validator_dst_address : Bytes
  pub amount : Coin

-- `.TruncateInt()`, towards zero, and `.Abs()`.
abbrev pub truncate_ℤ : ℤ → ℤ
truncate_ℤ z = sub_ℕ (pos_part z / one) (neg_part z / one)

abbrev pub abs : ℤ → ℕ
abs z = pos_part z + neg_part z

abbrev pub smaller : ℕ → ℕ → ℕ
smaller a b = if ltb a b then a else b

abbrev pub is_empty : List Validator → Bool
is_empty [] = true
is_empty (v ∷ vs) = false

-- The ideal of each validator is its weight's part of the sum; the last one has what is left.
unfoldable pub ideal_list : ℤ → ℤ → List Validator → List Delegation
ideal_list sum sum2 [] = []
ideal_list sum sum2 (v ∷ vs) =
    let ideal = if is_empty vs then sum -ℤ sum2 else truncate_ℤ (pos v.weight *ℤ sum) in
    record {
      validator = v.operator_address;
      ideal = ideal;
      delegation = v.delegated_amount;
      diff = v.delegated_amount -ℤ ideal;
      validator_details = v;
    }
    ∷ ideal_list sum (sum2 +ℤ ideal) vs

-- The order of the sort: by difference, then by address.
unfoldable pub comes_before : Delegation → Delegation → Bool
comes_before a b =
    if ltb_ℤ a.diff b.diff
    then true
    else if ltb_ℤ b.diff a.diff
    then false
    else less a.validator b.validator

-- A stable sort.
unfoldable pub put_in_order : Delegation → List Delegation → List Delegation
unfolding comes_before
put_in_order d [] = d ∷ []
put_in_order d (e ∷ es) = if comes_before e d then e ∷ put_in_order d es else d ∷ e ∷ es

unfoldable pub sort_delegation_list_asc : List Delegation → List Delegation
unfolding put_in_order
sort_delegation_list_asc [] = []
sort_delegation_list_asc (d ∷ ds) = put_in_order d (sort_delegation_list_asc ds)

unfoldable pub reverse : List Delegation → List Delegation
reverse [] = []
reverse (d ∷ ds) = reverse ds ++ (d ∷ [])

unfoldable pub redelegation_exists_to_validator : List Redelegation → Bytes → Bool
redelegation_exists_to_validator [] to = false
redelegation_exists_to_validator (r ∷ rs) to =
    (same r.dst to && ltb 0 (length r.times)) || redelegation_exists_to_validator rs to

-- The number of entries is a `uint32`, and zero where there is no redelegation.
unfoldable pub redelegation_from_a_to_b : List Redelegation → Bytes → Bytes → ℕ
redelegation_from_a_to_b [] src dst = 0
redelegation_from_a_to_b (r ∷ rs) src dst =
    if same r.dst dst && same r.src src
    then length r.times % 2 ^ 32
    else redelegation_from_a_to_b rs src dst

-- What the loop over the destinations leaves: whether it ends the outer one, too.
pub record Pass : Type 0 where
  pub stop : Bool
  pub source : Delegation
  pub destinations : List Delegation
  pub moves : List Move

abbrev pub cannot_take : Delegation → Bool
cannot_take d =
    not d.validator_details.delegable
    || not (same d.validator_details.status (codes "BOND_STATUS_BONDED"))

abbrev pub kept : Delegation → Pass → Pass
kept d p = record p { destinations = d ∷ p.destinations }

abbrev pub move_amount : Delegation → Delegation → ℕ
move_amount s d = smaller (abs s.diff) (abs d.diff)

abbrev pub with_move : Delegation → Delegation → Pass → Pass
with_move s d p = record p {
  destinations = record d { diff = d.diff +ℤ pos (move_amount s d) } ∷ p.destinations;
  moves = record { src = s.validator; dst = d.validator; amount = move_amount s d } ∷ p.moves;
}

abbrev pub paid : Delegation → Delegation → Delegation
paid s d = record s { diff = s.diff -ℤ pos (move_amount s d) }

module _ (held : List Redelegation) (delta : ℤ) (max_entries : ℕ) where
  -- The inner loop, from one source.
  unfoldable pub pass : Delegation → List Delegation → Pass
  unfolding redelegation_from_a_to_b
  pass s [] = record { stop = false; source = s; destinations = []; moves = [] }
  pass s (d ∷ ds) =
      let ended : Bool → Pass =
        λ b. record { stop = b; source = s; destinations = d ∷ ds; moves = [] } in
      let skipped = kept d (pass s ds) in
      let moving = with_move s d (pass (paid s d) ds) in
      if same s.validator d.validator
      then ended true
      else if ltb_ℤ s.diff delta || ltb_ℤ (pos 0) d.diff
      then ended false
      else if cannot_take d
      then skipped
      else if ltb (redelegation_from_a_to_b held s.validator d.validator) max_entries
      then moving
      else skipped

  -- The outer loop, over the sources with the largest difference first.
  unfoldable pub passes : List Delegation → List Delegation → List Move
  unfolding pass sort_delegation_list_asc redelegation_exists_to_validator
  passes [] ds = []
  passes (s ∷ ss) ds =
      let p = pass s (sort_delegation_list_asc ds) in
      let unsorted = passes ss ds in
      let next = passes ss p.destinations in
      if ltb_ℤ s.diff delta
      then []
      else if redelegation_exists_to_validator held s.validator
      then unsorted
      else (p.moves ++ (if p.stop then [] else next))

abbrev pub to_message : HostChain → IcaAccount → Move → RedelegateMessage
to_message hc account m = record {
  delegator_address = account.address;
  validator_src_address = m.src;
  validator_dst_address = m.dst;
  amount = coin hc.host_denom m.amount;
}

unfoldable pub planned_moves : HostChain → List Redelegation → List Move
unfolding passes ideal_list sort_delegation_list_asc reverse
planned_moves hc held =
    let ds =
      sort_delegation_list_asc
        (ideal_list (get_host_chain_total_delegations hc) (pos 0) hc.validators) in
    passes held hc.params.redelegation_acceptable_delta hc.params.max_entries (reverse ds) ds

-- A message without a delegation account panics.
unfoldable pub generate_redelegate_msgs :
    HostChain → List Redelegation → Outcome Error (List RedelegateMessage)
unfolding planned_moves
generate_redelegate_msgs hc held =
    elim (planned_moves hc held) as (λ _. Outcome Error (List RedelegateMessage)) [
      | [] ↦ ok []
      | m ∷ ms ↦ elim hc.delegation_account as (λ _. Outcome Error (List RedelegateMessage)) [
        | none ↦ panic
        | some account ↦ ok (map (to_message hc account) (m ∷ ms))
      ]
    ]
