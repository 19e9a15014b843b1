-- ===== src/Rate/Validate/Active.antt =====
-- What a valid host chain with a feature that is enabled has.
use pstake_native_test.Rate.Validate.{validate_host_chain, validate_account}
use pstake_native_test.Ibc.Types.{ChannelState}
use pstake_native_test.Base.{
  refuse, Bool, panic, Bool-cases, ◌≡◌, ◌≢◌, refl, ◌⊎◌, inl, inr, true, false, List, [], ◌∷◌, All,
  arith, Outcome, ok, err, ◌>>◌, require,
}
use pstake_native_test.Base.Text.{Bytes}
use pstake_native_test.Ibc.Keys.{is_liquid_staking_denom}
use pstake_native_test.Rate.Types.{
  all_liquid, Feature, HostChain, validate_feature, same_type, type_liquid_stake, other, is_active,
  LiquidStake, InstantiationState, not_initiated, initiated, completed, Identifiers, Error,
  is_empty, is_allow_all, validate_instantiation, validate_liquid_stake,
  validate_liquid_stake_denoms,
}

module _ (ids : Identifiers) where
  -- The contract is there, and every denomination may be reported.
  abbrev pub Runs : LiquidStake → Type 0
  Runs ls =
      (ls.instantiation ≡ completed)
      × (is_empty ls.contract_address ≡ false)
      × (ids.bech32 ls.contract_address ≡ true)
      × (ls.code_id ≢ 0)

  instantiated :
      (ls : LiquidStake) (state : InstantiationState)
      → ls.instantiation ≡ state
      → ls.enabled ≡ true
      → validate_instantiation ids state ls ≡ ok tt
      → Runs ls
  unfolding validate_instantiation
  instantiated ls not_initiated e on h = ground (arith)
  instantiated ls initiated e on h = ground arith
  instantiated ls completed e on h = (e, ground arith, ground arith, λ z. ground arith)

  -- The calls before a last one have succeeded too.
  before_last : (a b : Outcome Error (Unit {0})) → (a >> b) ≡ ok tt → (a ≡ ok tt) × (b ≡ ok tt)
  before_last (ok u) b h = (refl, h)
  before_last (err e) b h = cc h
  before_last panic b h = cc h

  all_liquid-All :
      (ds : List Bytes) → all_liquid ds ≡ ok tt → All (λ d. is_liquid_staking_denom d ≡ true) ds
  all_liquid-All [] h = tt
  all_liquid-All (d ∷ ds) h = ground (arith, all_liquid-All ds)

  -- All denominations, or each is one of a minted token.
  abbrev pub Denoms : List Bytes → Type 0
  Denoms ds = (is_allow_all ds ≡ true) ⊎ All (λ d. is_liquid_staking_denom d ≡ true) ds

  validate-Denoms : (ds : List Bytes) → validate_liquid_stake_denoms ds ≡ ok tt → Denoms ds
  unfolding validate_liquid_stake_denoms
  validate-Denoms ds h = elim (Bool-cases (is_allow_all ds)) [
    | inl b ↦ inl b
    | inr b ↦ inr (all_liquid-All ds (ground arith))
  ]

  -- What an enabled feature has.
  abbrev pub Enabled : LiquidStake → Type 0
  Enabled ls = ls.enabled ≡ true → Runs ls × Denoms ls.denoms

  validate-Enabled : (ls : LiquidStake) → validate_liquid_stake ids ls ≡ ok tt → Enabled ls
  unfolding validate_liquid_stake
  validate-Enabled ls h on =
      let (first, denoms) = before_last _ (validate_liquid_stake_denoms ls.denoms) h in
      let (_, state) = before_last _ (validate_instantiation ids ls.instantiation ls) first in
      (instantiated ls ls.instantiation refl on state, validate-Denoms ls.denoms denoms)

  validate_feature-Enabled :
      (f : Feature)
      → validate_feature ids f ≡ ok tt
      → Enabled f.liquid_stake_ibc × Enabled f.liquid_stake
  unfolding validate_feature
  validate_feature-Enabled f h =
      let (a, second) = before_last _ (validate_liquid_stake ids f.liquid_stake) h in
      let (b, _) =
        before_last _ (require (same_type f.liquid_stake.feature_type type_liquid_stake) other) a in
      let (_, first) = before_last _ (validate_liquid_stake ids f.liquid_stake_ibc) b in
      (validate-Enabled f.liquid_stake_ibc first, validate-Enabled f.liquid_stake second)

  -- An account that was created.
  abbrev pub Created : HostChain → Type 0
  Created hc =
      (hc.ica_account.channel_state ≡ ChannelState.created)
      × (is_empty hc.ica_account.address ≡ false)
      × (ids.bech32 hc.ica_account.address ≡ true)

  validate_account-Created :
      (hc : HostChain) (state : ChannelState)
      → hc.ica_account.channel_state ≡ state
      → validate_account ids state hc ≡ ok tt
      → is_active hc ≡ true
      → Created hc
  unfolding validate_account
  validate_account-Created hc ChannelState.creating e h on = ground arith
  validate_account-Created hc ChannelState.created e h on = (e, ground arith, ground arith)

  -- A host chain that is valid and active has an interchain account that was created, with an address;
  -- a feature of it that is enabled has a contract that was instantiated, with its address and its
  -- code, and allows all denominations or only those of minted tokens.
  pub validate_host_chain-Active :
      (hc : HostChain)
      → validate_host_chain ids hc ≡ ok tt
      → is_active hc ≡ true
      → Created hc × Enabled hc.features.liquid_stake_ibc × Enabled hc.features.liquid_stake
  unfolding validate_host_chain
  validate_host_chain-Active hc h on =
      let (a, _) = before_last _ (require (ids.port hc.transfer_port_id) other) h in
      let (b, _) = before_last _ (require (ids.channel hc.transfer_channel_id) other) a in
      let (c, features) = before_last _ (validate_feature ids hc.features) b in
      let (_, account) = before_last _ (validate_account ids hc.ica_account.channel_state hc) c in
      let (ibc, native) = validate_feature-Enabled hc.features features in
      (validate_account-Created hc hc.ica_account.channel_state refl account on, ibc, native)

-- A validation ends without a panic.
quiet_then : (a b : Outcome Error (Unit {0})) → a ≢ panic → b ≢ panic → (a >> b) ≢ panic
quiet_then (ok u) b h k = k
quiet_then (err e) b h k = λ p. cc p
quiet_then panic b h k = λ p. h refl

require_quiet : (b : Bool) (e : Error) → require b e ≢ panic
require_quiet true e p = cc p
require_quiet false e p = cc p

refuse_quiet : (b : Bool) (e : Error) → refuse b e ≢ panic
refuse_quiet true e p = cc p
refuse_quiet false e p = cc p

all_liquid-quiet : (ds : List Bytes) → all_liquid ds ≢ panic
all_liquid-quiet [] p = cc p
all_liquid-quiet (d ∷ ds) p =
    quiet_then _ (all_liquid ds) (require_quiet _ other) (all_liquid-quiet ds) p

denoms-quiet : (ds : List Bytes) → validate_liquid_stake_denoms ds ≢ panic
unfolding validate_liquid_stake_denoms
denoms-quiet ds = elim (Bool-cases (is_allow_all ds)) [
  | inl b ↦ rw b (λ p. cc p)
  | inr b ↦ rw b (all_liquid-quiet ds)
]

module _ (ids : Identifiers) where
  instantiation_quiet :
      (state : InstantiationState) (ls : LiquidStake) → validate_instantiation ids state ls ≢ panic
  unfolding validate_instantiation
  instantiation_quiet not_initiated ls =
      quiet_then _ _ (require_quiet _ other) (refuse_quiet ls.enabled other)
  instantiation_quiet initiated ls =
      quiet_then _ _ (quiet_then _ _ (require_quiet _ other) (refuse_quiet _ other))
        (refuse_quiet ls.enabled other)
  instantiation_quiet completed ls =
      quiet_then _ _ (quiet_then _ _ (refuse_quiet _ other) (require_quiet _ other))
        (refuse_quiet _ other)

  validate_liquid_stake-quiet : (ls : LiquidStake) → validate_liquid_stake ids ls ≢ panic
  unfolding validate_liquid_stake
  validate_liquid_stake-quiet ls =
      quiet_then _ _
        (quiet_then _ _ (refuse_quiet _ other) (instantiation_quiet ls.instantiation ls))
        (denoms-quiet ls.denoms)

  pub validate_feature-quiet : (f : Feature) → validate_feature ids f ≢ panic
  unfolding validate_feature
  validate_feature-quiet f =
      quiet_then _ _
        (quiet_then _ _
          (quiet_then _ _ (require_quiet _ other) (validate_liquid_stake-quiet f.liquid_stake_ibc))
          (require_quiet _ other))
        (validate_liquid_stake-quiet f.liquid_stake)
