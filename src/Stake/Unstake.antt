-- ===== src/Stake/Unstake.antt =====
-- Unstaking (`LiquidUnstake` and `LiquidUnbond` of x/liquidstake/keeper/liquidstake.go), over the
-- bank and the staking module as an interface.
pub mod Unbonds
pub mod FromAll
pub mod Settles
use pstake_native_test.Base.{
  ◌&&◌, ℕ, ◌+◌, Bool, true, false, List, [], ◌∷◌, ltb, ◌==◌, if◌then◌else◌, Outcome, ok, err, panic,
  ◌>>=◌, ◌>>◌, refuse, require, length, Option, none, some, ◌++◌, leb,
}
use pstake_native_test.Base.Int.{ℤ, pos, pos_part, ◌-ℤ◌}
use pstake_native_test.Base.Text.{Bytes, same}
use pstake_native_test.Sdk.Coin.{Coin, coin}
use pstake_native_test.Sdk.Dec.{DecOps, truncate_int}
use pstake_native_test.Stake.Types.{LiquidValidator, total_liquid_tokens}
use pstake_native_test.Stake.Divide.{divide_by_current_weight}
use pstake_native_test.Stake.Convert.{NetAmountState, stk_xprt_to_native_token, deduct_fee_rate}

-- The errors of an unstake: those of x/liquidstake, those of x/staking that `LiquidUnbond` names,
-- and the ones that other modules return as one case.
pub data UnstakeError : Type 0 where
  invalid_liquid_bond_denom invalid_stk_xprt_supply too_small_liquid_unstaking_amount
        insufficient_proxy_acc_balance liquid_validators_not_exists no_delegator_for_address
        max_unbonding_delegation_entries other_module :
      UnstakeError

-- The calls of other modules on a state `W` of the chain, where `U` is an unbonding delegation.
-- `validator` tells whether the validator is bonded; `queue` sets an entry for the staker and puts
-- it into the queue of unbondings; `liquid_tokens` is what the proxy account has at a validator.
pub record UnstakeKeeper (W U : Type 0) : Type 0 where
  pub bond_denom : W → Bytes
  pub net_amount_state : W → NetAmountState
  pub liquid_validators : W → List LiquidValidator
  pub liquid_tokens : W → Bytes → ℕ
  pub send_coins_to_module : Bytes → Coin → W → Outcome UnstakeError W
  pub burn_coins : Coin → W → Outcome UnstakeError W
  pub pay_from_proxy : Bytes → Coin → W → Outcome UnstakeError W
  pub validate_unbond_amount : Bytes → Bytes → ℕ → W → Outcome UnstakeError ℕ
  pub validator : W → Bytes → Option Bool
  pub has_max_entries : W → Bytes → Bytes → Bool
  pub unbond : Bytes → Bytes → ℕ → W → Outcome UnstakeError (ℕ × W)
  pub send_to_not_bonded : Coin → W → Outcome UnstakeError W
  pub completion_time : W → ℕ
  pub queue : Bytes → Bytes → ℕ → ℕ → W → U × W

-- What the loop over the validators has done so far. A zero time is `none`.
pub record Progress (U : Type 0) : Type 0 where
  pub time : Option ℕ
  pub total : ℕ
  pub entries : List U

abbrev pub start : {U : Type 0} → Progress U
start = record { time = none; total = 0; entries = [] }

-- An entry that was made at a time for an amount.
abbrev pub advance : {U : Type 0} → ℕ → ℕ → U → Progress U → Progress U
advance t n u p = record { time = some t; total = p.total + n; entries = p.entries ++ (u ∷ []) }

abbrev pub panic_on_error : {W : Type 0} → Outcome UnstakeError W → Outcome UnstakeError W
panic_on_error (ok w) = ok w
panic_on_error (err e) = panic
panic_on_error panic = panic

module _ {W U : Type 0} (k : UnstakeKeeper W U) (proxy staker : Bytes) where
  -- Whether a validator is bonded, or the error of one that does not exist.
  abbrev pub is_bonded : Option Bool → Outcome UnstakeError Bool
  is_bonded none = err no_delegator_for_address
  is_bonded (some b) = ok b

  -- What is unbonded leaves the pool of the bonded tokens; a transfer that fails is a panic.
  unfoldable pub leave_pool : Bool → ℕ → W → Outcome UnstakeError W
  leave_pool bonded n w =
      if bonded then panic_on_error (k.send_to_not_bonded (coin (k.bond_denom w) n) w) else ok w

  -- The completion time, the amount, the entry and the state.
  unfoldable pub liquid_unbond : Bytes → ℕ → Bool → W → Outcome UnstakeError (ℕ × ℕ × U × W)
  unfolding leave_pool
  liquid_unbond v shares check w = is_bonded (k.validator w v) >>= λ bonded.
      refuse (check && k.has_max_entries w staker v) max_unbonding_delegation_entries
      >> (k.unbond proxy v shares w >>= λ r. leave_pool bonded r.0 r.1 >>= λ w2.
          let q = k.queue staker v (k.completion_time w2) r.0 w2 in
          ok (k.completion_time w2, r.0, q.0, q.1))

  -- The loop over the validators and their amounts.
  unfoldable pub unbond_each :
      List LiquidValidator → List ℕ → Progress U → W → Outcome UnstakeError (Progress U × W)
  unfolding liquid_unbond
  unbond_each [] amounts p w = ok (p, w)
  unbond_each (v ∷ vs) [] p w = panic
  unbond_each (v ∷ vs) (a ∷ amounts) p w =
      let skipped = unbond_each vs amounts p w in
      let unbonded =
        k.validate_unbond_amount proxy v.operator_address (truncate_int a) w >>= λ shares.
        if shares == 0
        then skipped
        else liquid_unbond v.operator_address shares true w >>= λ r.
            unbond_each vs amounts (advance r.0 r.1 r.2 p) r.3 in
      if a == 0 then skipped else unbonded

  -- Without delegations, the proxy account pays. The second part of the result is what it paid.
  unfoldable pub withdraw : ℕ → ℕ → W → Outcome UnstakeError (Progress U × ℕ × W)
  withdraw balance amount w =
      if leb amount balance
      then (k.pay_from_proxy staker (coin (k.bond_denom w) amount) w >>= λ w2.
          ok (start, amount, w2))
      else err insufficient_proxy_acc_balance

  module _ (dec : DecOps) where
    unfoldable pub unbond_from_all : ℕ → W → Outcome UnstakeError (Progress U × ℕ × W)
    unfolding unbond_each divide_by_current_weight
    unbond_from_all amount w =
        let vs = k.liquid_validators w in
        let tokens = k.liquid_tokens w in
        let r = divide_by_current_weight dec vs amount (total_liquid_tokens tokens vs) tokens in
        refuse (length vs == 0) liquid_validators_not_exists
        >> (refuse (pos_part (pos amount -ℤ r.1) == 0) too_small_liquid_unstaking_amount
            >> (unbond_each vs r.0 start w >>= λ x. ok (x.0, 0, x.1)))

    -- What was unbonded, what was paid at once, and the state. The net amount is computed before the
    -- minted tokens are burnt.
    unfoldable pub liquid_unstake : Bytes → ℕ → Coin → W → Outcome UnstakeError (Progress U × ℕ × W)
    unfolding withdraw unbond_from_all stk_xprt_to_native_token deduct_fee_rate
    liquid_unstake bond fee_rate unstaking w =
        let nas = k.net_amount_state w in
        let supply = nas.stkxprt_total_supply in
        require (same unstaking.denom bond) invalid_liquid_bond_denom
        >> (refuse (ltb supply unstaking.amount) invalid_stk_xprt_supply
            >> (stk_xprt_to_native_token dec unstaking.amount supply nas.net_amount >>= λ native.
                let amount = deduct_fee_rate dec native fee_rate in
                refuse (truncate_int amount == 0) too_small_liquid_unstaking_amount
                >> (k.send_coins_to_module staker unstaking w >>= λ w1.
                    k.burn_coins (coin bond unstaking.amount) w1 >>= λ w2.
                    if total_liquid_tokens (k.liquid_tokens w2) (k.liquid_validators w2) == 0
                    then withdraw nas.proxy_acc_balance (truncate_int amount) w2
                    else unbond_from_all amount w2)))
