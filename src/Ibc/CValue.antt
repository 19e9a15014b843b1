-- ===== src/Ibc/CValue.antt =====
-- The value of the minted token of a host chain, and the limits in which it must stay
-- (x/liquidstakeibc/keeper/keeper.go, invariants.go).
pub mod Limits
pub mod Update
use pstake_native_test.Base.{
  ℕ, ◌+◌, ◌*◌, ◌≡◌, Bool, true, false, not, ◌&&◌, ◌||◌, List, [], ◌∷◌, Option, ◌==◌, if◌then◌else◌,
  select, Outcome, ok, panic, ◌>>=◌,
}
use pstake_native_test.Base.Int.{ℤ, pos, negsuc, pos_part, ◌+ℤ◌, ◌-ℤ◌, ltb_ℤ}
use pstake_native_test.Base.Text.{Bytes}
use pstake_native_test.Sdk.Dec.{DecOps, one, of_int}
use pstake_native_test.Sdk.Store.{KvStore}
use pstake_native_test.Sdk.Store.Content.{values}
use pstake_native_test.Ibc.Types.{
  Deposit, LsmDeposit, ValidatorUnbonding, HostChain, HostChainLsParams, Error,
}
use pstake_native_test.Ibc.Keys.{host_denom_to_mint_denom}
use pstake_native_test.Ibc.Deposit.{
  get_deposit_amount_on_persistence, get_deposit_amount_on_host_chain,
}
use pstake_native_test.Ibc.LsmDeposit.{get_lsm_deposit_amount_untokenized}
use pstake_native_test.Ibc.Unbonding.{get_all_validator_unbonded_amount}
use pstake_native_test.Ibc.Strategy.{get_host_chain_total_delegations}

unfoldable pub c_value_within_limits : HostChain → Bool
c_value_within_limits hc =
    ltb_ℤ (pos hc.c_value) hc.params.upper_c_value_limit
    && ltb_ℤ hc.params.lower_c_value_limit (pos hc.c_value)

-- The chains that break the invariant, and whether there are any.
unfoldable pub c_value_limits : List HostChain → List HostChain × Bool
unfolding c_value_within_limits
c_value_limits hcs =
    let broken = select (λ hc. not (c_value_within_limits hc)) hcs in
    (broken, elim broken [ [] ↦ false | _ ∷ _ ↦ true ])

-- What the chain holds for the minted tokens, in the order in which the code adds it up.
pub record Amounts : Type 0 where
  pub tokenized : ℕ
  pub staked : ℕ
  pub on_persistence : ℕ
  pub on_host_chain : ℕ
  pub unbonding : ℕ

abbrev pub liquid_staked : Amounts → ℕ
liquid_staked a = a.tokenized + a.staked + a.on_persistence + a.on_host_chain + a.unbonding

-- What the update reads and writes. The supply is the bank's, and `outside` is the state of the
-- modules behind the hook, whose error is only logged.
module _ (chains : KvStore HostChain) (deposits : KvStore Deposit)
    (lsm_deposits : KvStore LsmDeposit) (unbondings : KvStore ValidatorUnbonding) (W : Type 0) where
  pub record State : Type 0 where
    pub chain_store : chains.Store
    pub deposit_store : deposits.Store
    pub lsm_store : lsm_deposits.Store
    pub unbonding_store : unbondings.Store
    pub supply : Bytes → ℕ
    pub outside : W

  abbrev pub amounts : HostChain → ℕ → State → Amounts
  amounts hc staked s = record {
    tokenized = get_lsm_deposit_amount_untokenized lsm_deposits hc.chain_id s.lsm_store;
    staked = staked;
    on_persistence = get_deposit_amount_on_persistence deposits hc.chain_id s.deposit_store;
    on_host_chain = get_deposit_amount_on_host_chain deposits hc.chain_id s.deposit_store;
    unbonding = get_all_validator_unbonded_amount unbondings hc s.unbonding_store;
  }

  abbrev pub minted_of : HostChain → State → ℕ
  minted_of hc s = s.supply (host_denom_to_mint_denom hc.host_denom)

module _ (dec : DecOps) where
  -- `Mul` of decimals that are not negative.
  abbrev pub mul : ℕ → ℕ → ℕ
  mul a b = pos_part (dec.mul (pos a) (pos b))

  unfoldable pub calculate_autocompound_limit : ℕ → ℕ
  calculate_autocompound_limit factor = dec.quo (dec.quo factor (of_int 100)) (of_int 365)

  -- The value: a token each while nothing is minted or staked.
  unfoldable pub c_value_of : ℕ → ℕ → ℕ
  c_value_of minted liquid =
      if minted == 0 || liquid == 0 then one else dec.quo (of_int minted) (of_int liquid)

  unfoldable pub new_lower_limit : HostChain → ℕ → ℕ → ℕ → ℕ
  new_lower_limit hc minted liquid staked =
      let diff = mul (mul (of_int staked) hc.auto_compound_factor) (of_int 2) in
      dec.quo (of_int minted) (of_int liquid + diff)

  unfoldable pub new_upper_limit : ℕ → ℕ → ℤ
  new_upper_limit c lower = pos c +ℤ dec.mul (pos c -ℤ pos lower) (pos (of_int 10))

  -- The chain with the limits around its value.
  unfoldable pub with_limits : HostChain → ℕ → ℕ → ℕ → HostChain
  unfolding new_lower_limit new_upper_limit
  with_limits hc minted liquid staked =
      let lower = new_lower_limit hc minted liquid staked in
      let params = record hc.params {
        lower_c_value_limit = pos lower;
        upper_c_value_limit = new_upper_limit hc.c_value lower;
      } in
      record hc { params = params }

  -- While nothing is delegated, the limits stand.
  unfoldable pub recalculate_c_value_limits : HostChain → ℕ → ℕ → ℕ → HostChain
  unfolding with_limits
  recalculate_c_value_limits hc minted liquid staked =
      if staked == 0 then hc else with_limits hc minted liquid staked

  -- The chain with the new value, before the limits are looked at.
  unfoldable pub with_c_value : HostChain → ℕ → ℕ → HostChain
  unfolding c_value_of
  with_c_value hc minted liquid = record hc {
    last_c_value = hc.c_value;
    c_value = c_value_of minted liquid;
  }

  -- A chain out of its limits is disabled; one within gets new limits.
  unfoldable pub checked : HostChain → ℕ → ℕ → ℕ → HostChain
  unfolding c_value_within_limits recalculate_c_value_limits
  checked hc minted liquid staked =
      if c_value_within_limits hc
      then recalculate_c_value_limits hc minted liquid staked
      else record hc { active = false }

  module _ (chains : KvStore HostChain) (deposits : KvStore Deposit)
      (lsm_deposits : KvStore LsmDeposit) (unbondings : KvStore ValidatorUnbonding) (W : Type 0)
      (post_c_value_update : Bytes → Bytes → ℕ → W → W) where
    abbrev Run : Type 0
    Run = State chains deposits lsm_deposits unbondings W

    -- With delegations of `staked` in all. The chain is stored with its value, and once more when it
    -- is disabled or has new limits.
    unfoldable pub update_with : HostChain → ℕ → Run → HostChain × Run
    unfolding with_c_value checked
    update_with hc staked s =
        let minted = minted_of chains deposits lsm_deposits unbondings W hc s in
        let liquid =
          liquid_staked (amounts chains deposits lsm_deposits unbondings W hc staked s) in
        let hc1 = with_c_value hc minted liquid in
        let hc2 = checked hc1 minted liquid staked in
        let store1 = chains.set hc1.chain_id hc1 s.chain_store in
        let outside =
          post_c_value_update (host_denom_to_mint_denom hc1.host_denom) hc1.host_denom hc1.c_value
            s.outside in
        let store2 = chains.set hc2.chain_id hc2 store1 in
        let store = if c_value_within_limits hc1 && (staked == 0) then store1 else store2 in
        (hc2, record s { chain_store = store; outside = outside })

    -- The amount of a coin in the event must not be negative, or `NewCoin` panics.
    unfoldable pub update_c_value : HostChain → Run → Outcome Error (HostChain × Run)
    unfolding update_with
    update_c_value hc s = elim (get_host_chain_total_delegations hc) [
      | pos staked ↦ ok (update_with hc staked s)
      | negsuc _ ↦ panic
    ]

    -- Every chain that is stored, one after the other.
    update_each : List HostChain → Run → Outcome Error Run
    update_each [] s = ok s
    update_each (hc ∷ hcs) s = update_c_value hc s >>= λ r. update_each hcs r.1

    unfoldable pub update_c_values : Run → Outcome Error Run
    unfolding update_each
    update_c_values s = update_each (values (chains.entries s.chain_store)) s
