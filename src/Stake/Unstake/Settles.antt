-- ===== src/Stake/Unstake/Settles.antt =====
-- How an unstake ends: what it returns and pays, and why it may be refused.
use pstake_native_test.Base.{ℕ, ◌+◌, ◌*◌, ◌≤◌, ◌<◌, ◌≡◌, ◌⊎◌, false, Outcome, ok, err, panic}
use pstake_native_test.Base.Text.{Bytes, same}
use pstake_native_test.Sdk.Coin.{Coin, coin}
use pstake_native_test.Sdk.Dec.{DecOps, truncate_int, one}
use pstake_native_test.Stake.Convert.{stk_xprt_to_native_token, deduct_fee_rate}
use pstake_native_test.Stake.Unstake.{
  UnstakeKeeper, UnstakeError, invalid_liquid_bond_denom, invalid_stk_xprt_supply,
  too_small_liquid_unstaking_amount, insufficient_proxy_acc_balance, Progress, unbond_from_all,
}
use pstake_native_test.Stake.Unstake.Unbonds.{Fails}

-- The calls of the bank leave the validators' tokens alone.
pub record BankLaws {W U : Type 0} (k : UnstakeKeeper W U) (tokens : W → ℕ) : Type 0 where
  pub collect_keeps :
      (a : Bytes) (c : Coin) (w w' : W)
      → k.send_coins_to_module a c w ≡ ok w'
      → tokens w' ≡ tokens w
  pub burn_keeps : (c : Coin) (w w' : W) → k.burn_coins c w ≡ ok w' → tokens w' ≡ tokens w
  pub pay_keeps :
      (a : Bytes) (c : Coin) (w w' : W) → k.pay_from_proxy a c w ≡ ok w' → tokens w' ≡ tokens w

module _ {W U : Type 0} (k : UnstakeKeeper W U) (tokens : W → ℕ) (proxy staker : Bytes)
    (dec : DecOps) (bond : Bytes) (fee_rate : ℕ) (unstaking : Coin) (w : W) where
  -- A call of the bank that ended in some way.
  abbrev pub BankCall : Outcome UnstakeError W → Type 0
  BankCall r =
      ((c : Coin) × (w1 : W) × (k.send_coins_to_module staker c w1 ≡ r))
      ⊎ ((c : Coin) × (w1 : W) × (k.burn_coins c w1 ≡ r))
      ⊎ ((c : Coin) × (w1 : W) × (k.pay_from_proxy staker c w1 ≡ r))

  -- The value of the minted tokens, in units of the native one.
  abbrev pub value : Outcome UnstakeError ℕ
  value =
      stk_xprt_to_native_token dec unstaking.amount (k.net_amount_state w).stkxprt_total_supply
        (k.net_amount_state w).net_amount

  -- The minted tokens are collected and burnt.
  abbrev pub Burnt : W → Type 0
  Burnt w2 =
      (w1 : W) × (k.send_coins_to_module staker unstaking w ≡ ok w1)
      × (k.burn_coins (coin bond unstaking.amount) w1 ≡ ok w2)

  -- The value less the fee is below a token, or too little of it to unbond.
  abbrev pub TooSmall : Type 0
  TooSmall =
      (native : ℕ) × (value ≡ ok native)
      × ((truncate_int (deduct_fee_rate dec native fee_rate) ≡ 0)
          ⊎ ((w2 : W) × Burnt w2
              × (unbond_from_all k proxy staker dec (deduct_fee_rate dec native fee_rate) w2
                  ≡ err too_small_liquid_unstaking_amount)))

  -- The proxy account has less than the value less the fee.
  abbrev pub Insufficient : Type 0
  Insufficient =
      (native : ℕ) × (value ≡ ok native)
      × ((k.net_amount_state w).proxy_acc_balance
          < truncate_int (deduct_fee_rate dec native fee_rate))

  -- Why an unstake is refused.
  abbrev pub Refused : UnstakeError → Type 0
  Refused e =
      ((same unstaking.denom bond ≡ false) × (e ≡ invalid_liquid_bond_denom))
      ⊎ (((k.net_amount_state w).stkxprt_total_supply < unstaking.amount)
          × (e ≡ invalid_stk_xprt_supply))
      ⊎ (TooSmall × (e ≡ too_small_liquid_unstaking_amount))
      ⊎ (Insufficient × (e ≡ insufficient_proxy_acc_balance))
      ⊎ BankCall (err e)
      ⊎ Fails k tokens proxy staker (err e) (err e)

  -- How an unstake ends. The minted tokens are burnt, and what it returns and pays is at most the
  -- value less the fee; what it pays comes from the proxy account, and what it returns from the
  -- validators' tokens.
  abbrev pub Settles : Outcome UnstakeError (Progress U × ℕ × W) → Type 0
  Settles (ok r) =
      (unstaking.amount ≤ (k.net_amount_state w).stkxprt_total_supply)
      × ((native : ℕ) × (value ≡ ok native)
          × ((r.0.total + r.1) * one ≤ deduct_fee_rate dec native fee_rate))
      × ((w2 : W) × Burnt w2
          × ((r.1 ≡ 0) ⊎ (k.pay_from_proxy staker (coin (k.bond_denom w2) r.1) w2 ≡ ok r.2)))
      × (tokens r.2 + r.0.total ≡ tokens w)
  Settles (err e) = Refused e
  Settles panic = (value ≡ panic) ⊎ BankCall panic ⊎ Fails k tokens proxy staker panic panic
