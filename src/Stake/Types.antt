-- ===== src/Stake/Types.antt =====
-- The validators of x/liquidstake and their weights (types/liquidstake.go). A target weight is
-- positive, as the validation of the parameters has it.
use pstake_native_test.Base.{
  ℕ, ◌+◌, Bool, true, false, not, ◌&&◌, Option, none, some, List, [], ◌∷◌, if◌then◌else◌,
}
use pstake_native_test.Base.Text.{Bytes, same}

pub record WhitelistedValidator : Type 0 where
  pub validator_address : Bytes
  pub target_weight : ℕ

pub record LiquidValidator : Type 0 where
  pub operator_address : Bytes

pub data ValidatorStatus : Type 0 where
  active inactive : ValidatorStatus

-- What the map of `GetWhitelistedValsMap` holds for an address: the last entry of the list with it.
unfoldable pub whitelisted : Bytes → List WhitelistedValidator → Option WhitelistedValidator
whitelisted address [] = none
whitelisted address (wv ∷ wvs) = elim (whitelisted address wvs) [
  | some found ↦ some found
  | none ↦ if same wv.validator_address address then some wv else none
]

unfoldable pub is_listed : Bytes → List WhitelistedValidator → Bool
unfolding whitelisted
is_listed address wvs = elim (whitelisted address wvs) [ none ↦ false | some _ ↦ true ]

unfoldable pub get_weight : List WhitelistedValidator → LiquidValidator → Bool → ℕ
unfolding whitelisted
get_weight wvs v is_active = elim (whitelisted v.operator_address wvs) [
  | none ↦ 0
  | some wv ↦ if is_active then wv.target_weight else 0
]

abbrev pub get_status : Bool → ValidatorStatus
get_status true = ValidatorStatus.active
get_status false = ValidatorStatus.inactive

-- What the condition asks of a validator of the staking module.
pub record StakingValidator : Type 0 where
  pub unspecified : Bool
  pub tokens_nil : Bool
  pub shares_nil : Bool
  pub invalid_ex_rate : Bool

unfoldable pub active_condition : StakingValidator → Bool → Bool → Bool
active_condition v is_whitelisted tombstoned =
    is_whitelisted
    && (not tombstoned
        && (not v.unspecified && (not v.tokens_nil && (not v.shares_nil && not v.invalid_ex_rate))))

-- The total weight of active validators.
unfoldable pub total_weight : List WhitelistedValidator → List LiquidValidator → ℕ
unfolding get_weight
total_weight wvs [] = 0
total_weight wvs (v ∷ vs) = get_weight wvs v true + total_weight wvs vs

-- The tokens that the proxy account has at the validators, from those at each one.
abbrev pub total_liquid_tokens : (Bytes → ℕ) → List LiquidValidator → ℕ
total_liquid_tokens tokens [] = 0
total_liquid_tokens tokens (v ∷ vs) = tokens v.operator_address + total_liquid_tokens tokens vs
