-- ===== src/Rate/Types.antt =====
-- The host chains of x/ratesync and their validation (proto/pstake/ratesync/v1beta1/ratesync.proto,
-- x/ratesync/types/types.go).
pub mod PortId
use pstake_native_test.Base.{
  ℕ, Bool, true, false, not, ◌&&◌, ◌||◌, ◌==◌, Option, none, some, List, [], ◌∷◌, ◌++◌,
  if◌then◌else◌, Outcome, ok, err, ◌>>=◌, ◌>>◌, require, refuse, found_or,
}
use pstake_native_test.Base.Text.{Bytes, codes, same}
use pstake_native_test.Base.Decimal.{format, parse_uint}
use pstake_native_test.Ibc.Types.{IcaAccount, ChannelState}
use pstake_native_test.Ibc.Keys.{cut_prefix, is_liquid_staking_denom}

pub data FeatureType : Type 0 where
  type_liquid_stake_ibc type_liquid_stake : FeatureType

pub data InstantiationState : Type 0 where
  not_initiated initiated completed : InstantiationState

pub record LiquidStake : Type 0 where
  pub feature_type : FeatureType
  pub code_id : ℕ
  pub instantiation : InstantiationState
  pub contract_address : Bytes
  pub denoms : List Bytes
  pub enabled : Bool

pub record Feature : Type 0 where
  pub liquid_stake_ibc : LiquidStake
  pub liquid_stake : LiquidStake

pub record HostChain : Type 0 where
  pub id : ℕ
  pub chain_id : Bytes
  pub connection_id : Bytes
  pub ica_account : IcaAccount
  pub features : Feature
  pub transfer_channel_id : Bytes
  pub transfer_port_id : Bytes

-- The errors of x/ratesync/types/errors.go and of the SDK that the operations return, and those that
-- have no code as one case.
pub data Error : Type 0 where
  register_failed invalid invalid_request invalid_signer not_found invalid_chain_id key_not_found
        channel_not_found sequence_send_not_found sequence_ack_not_found packet_out_of_order other :
      Error

-- What ibc-go and the SDK check of identifiers and addresses.
pub record Identifiers : Type 0 where
  pub connection : Bytes → Bool
  pub channel : Bytes → Bool
  pub port : Bytes → Bool
  pub localhost_connection : Bytes
  pub new_controller_port_id : Bytes → Option Bytes
  pub bech32 : Bytes → Bool

abbrev pub is_empty : Bytes → Bool
is_empty [] = true
is_empty (c ∷ cs) = false

abbrev pub same_type : FeatureType → FeatureType → Bool
same_type type_liquid_stake_ibc type_liquid_stake_ibc = true
same_type type_liquid_stake type_liquid_stake = true
same_type _ _ = false

abbrev pub same_instantiation : InstantiationState → InstantiationState → Bool
same_instantiation not_initiated not_initiated = true
same_instantiation initiated initiated = true
same_instantiation completed completed = true
same_instantiation _ _ = false

abbrev pub same_bool : Bool → Bool → Bool
same_bool true b = b
same_bool false b = not b

-- `slices.Equal` and `slices.Contains`
abbrev pub same_list : List Bytes → List Bytes → Bool
same_list [] [] = true
same_list (x ∷ xs) (y ∷ ys) = same x y && same_list xs ys
same_list _ _ = false

abbrev pub contains : List Bytes → Bytes → Bool
contains [] d = false
contains (x ∷ xs) d = same x d || contains xs d

abbrev pub allow_all_denoms : Bytes
allow_all_denoms = codes "*"

abbrev pub is_allow_all : List Bytes → Bool
is_allow_all [] = false
is_allow_all (d ∷ []) = same d allow_all_denoms
is_allow_all (d ∷ e ∷ ds) = false

abbrev pub allows_all_denoms : LiquidStake → Bool
allows_all_denoms ls = is_allow_all ls.denoms

unfoldable pub allows_denom : LiquidStake → Bytes → Bool
allows_denom ls denom = allows_all_denoms ls || contains ls.denoms denom

unfoldable pub equals : LiquidStake → LiquidStake → Bool
equals a b =
    (a.code_id == b.code_id)
    && (same_instantiation a.instantiation b.instantiation
        && (same a.contract_address b.contract_address
            && (same_list a.denoms b.denoms
                && (same_type a.feature_type b.feature_type && same_bool a.enabled b.enabled))))

unfoldable pub is_active : HostChain → Bool
is_active hc = hc.features.liquid_stake_ibc.enabled || hc.features.liquid_stake.enabled

abbrev pub all_liquid : List Bytes → Outcome Error (Unit {0})
all_liquid [] = ok tt
all_liquid (d ∷ ds) = require (is_liquid_staking_denom d) other >> all_liquid ds

unfoldable pub validate_liquid_stake_denoms : List Bytes → Outcome Error (Unit {0})
validate_liquid_stake_denoms denoms = if is_allow_all denoms then ok tt else all_liquid denoms

module _ (ids : Identifiers) where
  -- The switch on the state of the instantiation.
  unfoldable pub validate_instantiation :
      InstantiationState → LiquidStake → Outcome Error (Unit {0})
  validate_instantiation not_initiated ls =
      require (is_empty ls.contract_address) other >> refuse ls.enabled other
  validate_instantiation initiated ls =
      require (is_empty ls.contract_address) other
      >> refuse (ls.code_id == 0) other
      >> refuse ls.enabled other
  validate_instantiation completed ls =
      refuse (is_empty ls.contract_address) other
      >> require (ids.bech32 ls.contract_address) other
      >> refuse (ls.code_id == 0) other

  unfoldable pub validate_liquid_stake : LiquidStake → Outcome Error (Unit {0})
  unfolding validate_instantiation validate_liquid_stake_denoms
  validate_liquid_stake ls =
      refuse ((ls.code_id == 0) && not (same_instantiation ls.instantiation not_initiated)) other
      >> validate_instantiation ls.instantiation ls
      >> validate_liquid_stake_denoms ls.denoms

  unfoldable pub validate_feature : Feature → Outcome Error (Unit {0})
  unfolding validate_liquid_stake
  validate_feature f =
      require (same_type f.liquid_stake_ibc.feature_type type_liquid_stake_ibc) other
      >> validate_liquid_stake f.liquid_stake_ibc
      >> require (same_type f.liquid_stake.feature_type type_liquid_stake) other
      >> validate_liquid_stake f.liquid_stake
