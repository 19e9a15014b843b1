-- ===== src/Stake/Delegate/Minted.antt =====
-- How a stake ends: what it mints and stakes, and why it may be refused.
use pstake_native_test.Base.{
  ℕ, ◌+◌, ◌≤◌, ◌<◌, ◌≡◌, ◌⊎◌, Bool, true, false, ◌||◌, ◌==◌, if◌then◌else◌, length, Outcome, ok,
  err, panic,
}
use pstake_native_test.Base.Text.{Bytes, same}
use pstake_native_test.Sdk.Coin.{Coin, coin}
use pstake_native_test.Sdk.Dec.{DecOps}
use pstake_native_test.Stake.Types.{total_weight}
use pstake_native_test.Stake.Delegate.{
  Error, less_than_min_liquid_stake_amount, invalid_bond_denom, active_liquid_validators_not_exists,
  too_small_liquid_stake_amount, ChainKeeper, Params, liquid_delegate, mint_amount,
}

abbrev tested : Bool → Bool → ℕ → ℕ → Outcome Error ℕ
tested b c x y = if b then ok x else if c then panic else ok y

-- Sending and minting leave what is staked as it is.
pub record BankLaws {W : Type 0} (k : ChainKeeper W) (staked : W → ℕ) : Type 0 where
  pub send_keeps :
      (a b : Bytes) (c : Coin) (w w' : W) → k.send_coins a b c w ≡ ok w' → staked w' ≡ staked w
  pub mint_keeps : (c : Coin) (w w' : W) → k.mint_coins c w ≡ ok w' → staked w' ≡ staked w
  pub pay_keeps :
      (a : Bytes) (c : Coin) (w w' : W)
      → k.send_coins_from_module a c w ≡ ok w'
      → staked w' ≡ staked w

module _ {W : Type 0} (k : ChainKeeper W) (dec : DecOps) (params : Params) (proxy staker : Bytes)
    (staking : Coin) where
  -- A call of the bank, in the order of a stake.
  abbrev pub BankCall : Outcome Error W → Type 0
  BankCall r =
      ((w : W) × (k.send_coins staker proxy staking w ≡ r))
      ⊎ ((n : ℕ) × (w : W) × (k.mint_coins (coin params.liquid_bond_denom n) w ≡ r))
      ⊎ ((n : ℕ) × (w : W) × (k.send_coins_from_module staker (coin params.liquid_bond_denom n) w
            ≡ r))

  abbrev pub no_validators : W → Bool
  no_validators w =
      (length (k.active_validators w) == 0)
      || (total_weight params.whitelisted_validators (k.active_validators w) == 0)

  -- Why a stake is refused.
  abbrev pub Refused : W → Error → Type 0
  Refused w e =
      ((staking.amount < params.min_liquid_stake_amount) × (e ≡ less_than_min_liquid_stake_amount))
      ⊎ ((same staking.denom (k.bond_denom w) ≡ false) × (e ≡ invalid_bond_denom))
      ⊎ ((no_validators w ≡ true) × (e ≡ active_liquid_validators_not_exists))
      ⊎ ((mint_amount dec k (k.net_amount_state w) staking.amount ≡ ok 0)
          × (e ≡ too_small_liquid_stake_amount))
      ⊎ BankCall (err e)
      ⊎ ((v : Bytes) × (m : ℕ) × (w1 : W) × (k.delegate v m w1 ≡ err e))

  -- Why it panics: a net amount below one token, or a call.
  abbrev pub Panicked : W → Type 0
  Panicked w =
      (mint_amount dec k (k.net_amount_state w) staking.amount ≡ panic)
      ⊎ BankCall panic
      ⊎ ((v : Bytes) × (m : ℕ) × (w1 : W) × (k.delegate v m w1 ≡ panic))

  -- The staker sends the amount to the proxy account, exactly the minted amount is minted, and the
  -- staker is paid it.
  abbrev pub Minted : ℕ → W → W → Type 0
  Minted minted w w3 =
      (w1 : W) × (w2 : W) × (k.send_coins staker proxy staking w ≡ ok w1)
      × (k.mint_coins (coin params.liquid_bond_denom minted) w1 ≡ ok w2)
      × (k.send_coins_from_module staker (coin params.liquid_bond_denom minted) w2 ≡ ok w3)

  abbrev pub Stakes : (W → ℕ) → W → Outcome Error (ℕ × ℕ × W) → Type 0
  Stakes staked w (ok (shares, minted, w')) =
      (params.min_liquid_stake_amount ≤ staking.amount)
      × (0 < minted)
      × (mint_amount dec k (k.net_amount_state w) staking.amount ≡ ok minted)
      × ((w3 : W) × Minted minted w w3
          × (liquid_delegate dec k (k.active_validators w) staking.amount
                params.whitelisted_validators w3
              ≡ ok (shares, w')))
      × (staked w' ≡ staked w + staking.amount)
  Stakes staked w (err e) = Refused w e
  Stakes staked w panic = Panicked w
