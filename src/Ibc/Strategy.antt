-- ===== src/Ibc/Strategy.antt =====
-- How an amount is split over the validators of a host chain
-- (x/liquidstakeibc/keeper/delegation_strategy.go, types/host_chain.go).
pub mod Exact
pub mod Weights
use pstake_native_test.Base.{
  ℕ, ◌+◌, ◌-◌, ◌/◌, ◌*◌, ◌≡◌, Bool, true, false, not, ◌||◌, Option, none, some, List, [], ◌∷◌, map,
  leb, ltb, if◌then◌else◌, select, sum_by, length, Outcome, ok, err, panic, ◌>>=◌,
}
use pstake_native_test.Base.Int.{ℤ, pos, negsuc, pos_part, neg_part, ◌+ℤ◌, ◌-ℤ◌, ◌*ℤ◌, leb_ℤ}
use pstake_native_test.Base.Text.{Bytes, same}
use pstake_native_test.Sdk.Coin.{Coin, coin}
use pstake_native_test.Sdk.Dec.{DecOps, one}
use pstake_native_test.Ibc.Types.{HostChain, Validator, IcaAccount, Error, invalid_messages}

-- `GetValidator`: the first validator with the address.
unfoldable pub get_validator : Bytes → List Validator → Option Validator
get_validator address [] = none
get_validator address (v ∷ vs) =
    if same v.operator_address address then some v else get_validator address vs

-- `GetHostChainTotalDelegations`, from the sum so far.
unfoldable pub total_from : ℤ → List Validator → ℤ
total_from sum [] = sum
total_from sum (v ∷ vs) = total_from (sum +ℤ v.delegated_amount) vs

unfoldable pub get_host_chain_total_delegations : HostChain → ℤ
unfolding total_from
get_host_chain_total_delegations hc = total_from (pos 0) hc.validators

pub record DelegateAmount : Type 0 where
  pub val_address : Bytes
  pub amount : ℤ

-- `MsgDelegate` or `MsgUndelegate`, by the flag.
pub record Message : Type 0 where
  pub undelegate : Bool
  pub delegator_address : Bytes
  pub validator_address : Bytes
  pub amount : Coin

-- `sdk.NewDecFromInt` of an integer with a sign.
abbrev pub dec_of_int : ℤ → ℤ
dec_of_int a = a *ℤ pos one

-- `.TruncateInt()` of a positive decimal.
abbrev pub whole : ℤ → ℕ
whole d = pos_part d / one

module _ (dec : DecOps) where
  -- How far the validator is from its share of the total after the operation, in units.
  unfoldable pub difference : Bool → ℤ → ℕ → Validator → ℤ
  difference undelegating total actionable v =
      let future = if undelegating then total -ℤ pos actionable else total +ℤ pos actionable in
      let target = dec.mul (pos v.weight) (dec_of_int future) in
      let current = dec_of_int v.delegated_amount in
      if undelegating then current -ℤ target else target -ℤ current

  -- The validators with a positive difference.
  unfoldable pub delegate_amounts : Bool → ℤ → ℕ → List Validator → List DelegateAmount
  delegate_amounts undelegating total actionable [] = []
  delegate_amounts undelegating total actionable (v ∷ vs) =
      let d = difference undelegating total actionable v in
      let rest = delegate_amounts undelegating total actionable vs in
      if leb_ℤ d (pos 0)
      then rest
      else record { val_address = v.operator_address; amount = d } ∷ rest

-- Is this the last element?
abbrev pub is_last : List DelegateAmount → Bool
is_last [] = true
is_last (x ∷ xs) = false

abbrev pub message : HostChain → Bool → IcaAccount → DelegateAmount → ℕ → Message
message hc undelegating account x amount = record {
  undelegate = undelegating;
  delegator_address = account.address;
  validator_address = x.val_address;
  amount = coin hc.host_denom amount;
}

-- The loop over the differences, with what is left of the amount. The last message, or the first
-- that needs no less than what is left, takes all of it.
unfoldable pub messages_from :
    HostChain → Bool → List DelegateAmount → ℕ → Outcome Error (List Message)
messages_from hc undelegating [] left = ok []
messages_from hc undelegating (x ∷ xs) left = elim hc.delegation_account [
  | none ↦ panic
  | some account ↦
      let rest = messages_from hc undelegating xs (left - whole x.amount) >>= λ ms.
      ok (message hc undelegating account x (whole x.amount) ∷ ms) in
      if leb left (whole x.amount) || is_last xs
      then ok (message hc undelegating account x left ∷ [])
      else rest
]

-- No messages are an error.
abbrev pub some_messages : List Message → Outcome Error (List Message)
some_messages [] = err invalid_messages
some_messages (m ∷ ms) = ok (m ∷ ms)

-- A share of the weight of the others on top of a validator's own.
abbrev pub add_weight : ℕ → Validator → Validator
add_weight delta v = if v.delegable then record v { weight = v.weight + delta } else v

abbrev pub is_delegable : Validator → Bool
is_delegable v = v.delegable

abbrev pub not_delegable : Validator → Bool
not_delegable v = not v.delegable

abbrev pub weight_of : Validator → ℕ
weight_of v = v.weight

module _ (dec : DecOps) where
  unfoldable pub generate_messages :
      HostChain → List Validator → ℤ → ℕ → Bool → Outcome Error (List Message)
  generate_messages hc validators total actionable undelegating =
      messages_from hc undelegating (delegate_amounts dec undelegating total actionable validators)
        actionable
      >>= some_messages

  -- The host chain whose delegable validators share the weight of the others. The source changes
  -- the validators in place, so the caller's host chain is the one that is returned.
  unfoldable pub share_weights : HostChain → HostChain
  share_weights hc =
      let idle = sum_by weight_of (select not_delegable hc.validators) in
      let delta = dec.quo idle (length (select is_delegable hc.validators) * one) in
      if ltb 0 idle then record hc { validators = map (add_weight delta) hc.validators } else hc

  abbrev delegate_to : HostChain → ℕ → List Validator → HostChain × Outcome Error (List Message)
  delegate_to hc amount [] = (hc, err invalid_messages)
  delegate_to hc amount (v ∷ vs) =
      let hc' = share_weights hc in
      let idle = total_from (pos 0) (select not_delegable hc.validators) in
      (
        hc',
        generate_messages hc' (select is_delegable hc'.validators)
            (get_host_chain_total_delegations hc' -ℤ idle) amount false,
      )

  unfoldable pub generate_delegate_messages :
      HostChain → ℕ → HostChain × Outcome Error (List Message)
  generate_delegate_messages hc amount = delegate_to hc amount (select is_delegable hc.validators)

  unfoldable pub generate_undelegate_messages : HostChain → ℕ → Outcome Error (List Message)
  generate_undelegate_messages hc amount =
      generate_messages hc hc.validators (get_host_chain_total_delegations hc) amount true
