-- ===== src/Ibc/CValue/Update.antt =====
-- How an update of the value ends, and what it stores.
use pstake_native_test.Ibc.Unbonding.{get_all_validator_unbonded_amount}
use pstake_native_test.Ibc.LsmDeposit.{get_lsm_deposit_amount_untokenized}
use pstake_native_test.Ibc.Deposit.{
  get_deposit_amount_on_persistence, get_deposit_amount_on_host_chain,
}
use pstake_native_test.Ibc.Keys.{host_denom_to_mint_denom}
use pstake_native_test.Base.{
  ◌+◌, ℕ, ◌≡◌, ◌⊎◌, refl, sym, ◌∙◌, ap, Bool, true, false, ◌&&◌, ◌==◌, if◌then◌else◌, arith, some,
  Bool-cases, inl, inr, Outcome, ok, err, panic, Never,
}
use pstake_native_test.Base.Int.{ℤ, pos, negsuc}
use pstake_native_test.Base.Text.{Bytes}
use pstake_native_test.Sdk.Dec.{DecOps, DecLaws}
use pstake_native_test.Sdk.Store.{KvStore, StoreLaws}
use pstake_native_test.Sdk.Store.Content.{lookup, lookup-insert_self}
use pstake_native_test.Ibc.Types.{Deposit, LsmDeposit, ValidatorUnbonding, HostChain, Error}
use pstake_native_test.Ibc.Strategy.{get_host_chain_total_delegations}
use pstake_native_test.Ibc.CValue.{
  c_value_within_limits, recalculate_c_value_limits, with_limits, with_c_value, checked, State,
  minted_of, update_with, update_c_value,
}
use pstake_native_test.Ibc.CValue.Limits.{Updates, checked-Updates, checked-Rest}

and_parts : (a b : Bool) → (a && b) ≡ true → (a ≡ true) × (b ≡ true)
and_parts a b h = (ground arith, ground arith)

checked_idle :
    (dec : DecOps) (hc : HostChain) (minted liquid staked : ℕ)
    → (c_value_within_limits hc && (staked == 0)) ≡ true
    → checked dec hc minted liquid staked ≡ hc
unfolding checked recalculate_c_value_limits
checked_idle dec hc m l st h =
    let (within, idle) = and_parts (c_value_within_limits hc) (st == 0) h in
    ap (λ w. if w then recalculate_c_value_limits dec hc m l st else record hc { active = false })
      within
    ∙ ap (λ z. if z then hc else with_limits dec hc m l st) idle

module _ (dec : DecOps) (laws : DecLaws dec) (chains : KvStore HostChain)
    (deposits : KvStore Deposit) (lsm_deposits : KvStore LsmDeposit)
    (unbondings : KvStore ValidatorUnbonding) (W : Type 0)
    (post_c_value_update : Bytes → Bytes → ℕ → W → W) (chain_laws : StoreLaws chains) where
  abbrev Run : Type 0
  Run = State chains deposits lsm_deposits unbondings W

  abbrev pub liquid_of : HostChain → ℕ → Run → ℕ
  liquid_of hc staked s =
      get_lsm_deposit_amount_untokenized lsm_deposits hc.chain_id s.lsm_store
      + staked
      + get_deposit_amount_on_persistence deposits hc.chain_id s.deposit_store
      + get_deposit_amount_on_host_chain deposits hc.chain_id s.deposit_store
      + get_all_validator_unbonded_amount unbondings hc s.unbonding_store

  abbrev update : HostChain → Run → Outcome Error (HostChain × Run)
  update = update_c_value dec chains deposits lsm_deposits unbondings W post_c_value_update

  abbrev with_staked : HostChain → ℕ → Run → HostChain × Run
  with_staked = update_with dec chains deposits lsm_deposits unbondings W post_c_value_update

  -- How the update ends: the chain has its value, its flag and its limits, and is stored so. It
  -- panics when the delegations are negative in all.
  abbrev pub Ends : HostChain → Run → Outcome Error (HostChain × Run) → Type 0
  Ends hc s (ok (hc', t)) =
      (staked : ℕ) × (get_host_chain_total_delegations hc ≡ pos staked)
      × Updates dec hc (s.supply (host_denom_to_mint_denom hc.host_denom)) (liquid_of hc staked s)
          staked hc'
      × (chains.get hc.chain_id t.chain_store ≡ some hc')
  Ends hc s (err e) = Never
  Ends hc s panic = (n : ℕ) × (get_host_chain_total_delegations hc ≡ negsuc n)

  get-set :
      (hc : HostChain) (s : chains.Store)
      → chains.get hc.chain_id (chains.set hc.chain_id hc s) ≡ some hc
  get-set hc s =
      chain_laws.get-entries hc.chain_id _
      ∙ ap (lookup hc.chain_id) (chain_laws.entries-set hc.chain_id hc s)
      ∙ lookup-insert_self hc.chain_id hc _

  -- The chain that is stored at last, when the second time is left out only if it changes nothing.
  get-set_twice :
      (b : Bool) (hc1 hc2 : HostChain) (s : chains.Store)
      → hc2.chain_id ≡ hc1.chain_id
      → (b ≡ false) ⊎ (hc2 ≡ hc1)
      → chains.get hc1.chain_id (
          if b
          then chains.set hc1.chain_id hc1 s
          else chains.set hc2.chain_id hc2 (chains.set hc1.chain_id hc1 s))
        ≡ some hc2
  get-set_twice false hc1 hc2 s e h =
      let s1 = chains.set hc1.chain_id hc1 s in
      ap (λ k. chains.get k (chains.set hc2.chain_id hc2 s1)) (sym e) ∙ get-set hc2 s1
  get-set_twice true hc1 hc2 s e (inl h) = cc h
  get-set_twice true hc1 hc2 s e (inr h) = get-set hc1 s ∙ ap some (sym h)

  stored :
      (hc : HostChain) (staked : ℕ) (s : Run)
      → chains.get hc.chain_id (with_staked hc staked s).1.chain_store
        ≡ some (with_staked hc staked s).0
  unfolding update_with
  stored hc staked s =
      let minted = minted_of chains deposits lsm_deposits unbondings W hc s in
      let liquid = liquid_of hc staked s in
      let hc1 = with_c_value dec hc minted liquid in
      let idle = c_value_within_limits hc1 && (staked == 0) in
      get-set_twice idle hc1 (checked dec hc1 minted liquid staked) s.chain_store
        ((checked-Rest dec laws hc1 minted liquid staked).3)
        (elim (Bool-cases idle) [
          | inl b ↦ inr (checked_idle dec hc1 minted liquid staked b)
          | inr b ↦ inl b
        ])

  with_staked-Ends :
      (hc : HostChain) (staked : ℕ) (s : Run)
      → get_host_chain_total_delegations hc ≡ pos staked
      → Ends hc s (ok (with_staked hc staked s))
  unfolding update_with
  with_staked-Ends hc staked s e = (
    staked,
    e,
    checked-Updates dec laws hc _ (liquid_of hc staked s) staked (omega arith),
    stored hc staked s,
  )

  update-Ends :
      (hc : HostChain) (s : Run) (z : ℤ)
      → get_host_chain_total_delegations hc ≡ z
      → Ends hc s (elim z [ pos staked ↦ ok (with_staked hc staked s) | negsuc _ ↦ panic ])
  update-Ends hc s (pos staked) e = with_staked-Ends hc staked s e
  update-Ends hc s (negsuc n) e = (n, e)

  -- An update of the value of a host chain gives it the ratio of what is minted to what is held for
  -- it: the untokenized deposits, what is staked, the deposits on both chains and what is unbonding. It
  -- keeps the old value as the last one, and disables the chain just when the value is out of its limits;
  -- else, if anything is staked, it sets the limits around the value. The chain is stored so. It panics only when
  -- the delegations are negative in all.
  pub update_c_value-Ends : (hc : HostChain) (s : Run) → Ends hc s (update hc s)
  unfolding update_c_value
  update_c_value-Ends hc s = update-Ends hc s _ refl
