-- ===== src/Ibc/HostChain.antt =====
-- The host chains and their validators (x/liquidstakeibc/keeper/host_chain.go). The validators of a
-- chain have different addresses, so that a change of one in place is the change that is stored.
pub mod Weight
pub mod Redistribute
use pstake_native_test.Base.{
  ℕ, ◌+◌, ◌*◌, Bool, true, false, not, ◌&&◌, Option, none, some, List, [], ◌∷◌, ◌++◌, length, ltb,
  ◌==◌, if◌then◌else◌, select, Outcome, ok, err, panic, ◌>>=◌,
}
use pstake_native_test.Base.Text.{Bytes, same}
use pstake_native_test.Sdk.Dec.{DecOps, of_int}
use pstake_native_test.Sdk.Store.{KvStore}
use pstake_native_test.Sdk.Store.Content.{values}
use pstake_native_test.Ibc.Types.{
  HostChain, Validator, IcaAccount, Error, validator_not_found, other,
}
use pstake_native_test.Ibc.Strategy.{get_validator}

-- The validator in place of the first with its address, or behind the others.
unfoldable pub put_validator : Validator → List Validator → List Validator
put_validator v [] = v ∷ []
put_validator v (w ∷ ws) =
    if same v.operator_address w.operator_address then v ∷ ws else w ∷ put_validator v ws

-- The first chain that passes a test, as the loops that stop there.
abbrev pub first_chain : (HostChain → Bool) → List HostChain → Option HostChain
first_chain p [] = none
first_chain p (hc ∷ hcs) = if p hc then some hc else first_chain p hcs

abbrev pub has_delegator : Bytes → HostChain → Bool
has_delegator address hc = elim hc.delegation_account [
  | none ↦ false
  | some account ↦ same account.address address
]

-- The other validators with a weight.
abbrev pub with_weight : Validator → Validator → Bool
with_weight v w = ltb 0 w.weight && not (same w.operator_address v.operator_address)

module _ (kv : KvStore HostChain) where
  open kv use {Store, entries, get, set}

  unfoldable pub set_host_chain : HostChain → Store → Store
  set_host_chain hc s = set hc.chain_id hc s

  -- The source changes the host chain that it is given, so the caller's is the one returned.
  unfoldable pub set_host_chain_validator : HostChain → Validator → Store → HostChain × Store
  unfolding put_validator set_host_chain
  set_host_chain_validator hc v s =
      let hc' = record hc { validators = put_validator v hc.validators } in
      (hc', set_host_chain hc' s)

  unfoldable pub get_host_chain : Bytes → Store → Option HostChain
  get_host_chain chain_id s = get chain_id s

  unfoldable pub get_all_host_chains : Store → List HostChain
  get_all_host_chains s = values (entries s)

  unfoldable pub get_host_chain_from_ibc_denom :
      (HostChain → Bytes) → Bytes → Store → Option HostChain
  get_host_chain_from_ibc_denom ibc_denom_of ibc_denom s =
      first_chain (λ hc. same (ibc_denom_of hc) ibc_denom) (values (entries s))

  unfoldable pub get_host_chain_from_host_denom : Bytes → Store → Option HostChain
  get_host_chain_from_host_denom host_denom s =
      first_chain (λ hc. same hc.host_denom host_denom) (values (entries s))

  unfoldable pub get_host_chain_from_channel_id : Bytes → Store → Option HostChain
  get_host_chain_from_channel_id channel_id s =
      first_chain (λ hc. same hc.channel_id channel_id) (values (entries s))

  unfoldable pub get_host_chain_from_delegator_address : Bytes → Store → Option HostChain
  get_host_chain_from_delegator_address address s =
      first_chain (has_delegator address) (values (entries s))

  -- `NewDecFromStr` is a parameter; the weights that it reads are not negative, as the message's
  -- validation has it.
  unfoldable pub update_host_chain_validator_weight :
      (Bytes → Option ℕ) → HostChain → Bytes → Bytes → Store → Outcome Error (HostChain × Store)
  unfolding set_host_chain_validator get_validator
  update_host_chain_validator_weight parse_dec hc address weight s = elim (parse_dec weight) [
    | none ↦ err other
    | some new_weight ↦ elim (get_validator address hc.validators) [
      | none ↦ err validator_not_found
      | some v ↦ ok (set_host_chain_validator hc (record v { weight = new_weight }) s)
    ]
  ]

  -- Each of the validators gets `diff` on top of its weight.
  unfoldable pub add_weights : ℕ → List Validator → HostChain → Store → HostChain × Store
  unfolding set_host_chain_validator
  add_weights diff [] hc s = (hc, s)
  add_weights diff (v ∷ vs) hc s =
      let (hc', s') = set_host_chain_validator hc (record v { weight = v.weight + diff }) s in
      add_weights diff vs hc' s'

  -- The division by the number of the others panics when there are none.
  unfoldable pub redistribute_validator_weight :
      DecOps → HostChain → Validator → Store → Outcome Error (HostChain × Store)
  unfolding add_weights set_host_chain_validator
  redistribute_validator_weight dec hc v s =
      let others = select (with_weight v) hc.validators in
      let diff = dec.quo v.weight (of_int (length others)) in
      let (hc', s') = add_weights diff others hc s in
      if length others == 0
      then panic
      else ok (set_host_chain_validator hc' (record v { weight = 0 }) s')
