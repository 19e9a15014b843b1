-- ===== src/Sdk/Coin.antt =====
-- The SDK's coins (`sdk.Coin`): a denomination and an amount, which is not negative. `Sub` panics
-- on another denomination and on a negative result, `Add` on another denomination.
use pstake_native_test.Base.{
  refl, inr, inl, Bool-cases, ◌<◌, false, ◌⊎◌, ◌≤◌, arith, ◌≡◌, ℕ, ◌+◌, ◌-◌, Bool, ◌&&◌, leb, ◌==◌,
  if◌then◌else◌, Outcome, ok, panic,
}
use pstake_native_test.Base.Text.{same_iff, same_iff, Bytes, same}

pub record Coin : Type 0 where
  pub denom : Bytes
  pub amount : ℕ

abbrev pub coin : Bytes → ℕ → Coin
coin d a = record { denom = d; amount = a }

abbrev pub is_zero : Coin → Bool
is_zero c = c.amount == 0

unfoldable pub coin_add {ℓ} : {E : Type ℓ} → Coin → Coin → Outcome E Coin
unfolding same
coin_add a b = if same a.denom b.denom then ok (coin a.denom (a.amount + b.amount)) else panic

unfoldable pub coin_sub {ℓ} : {E : Type ℓ} → Coin → Coin → Outcome E Coin
unfolding same
coin_sub a b =
    if same a.denom b.denom && leb b.amount a.amount
    then ok (coin a.denom (a.amount - b.amount))
    else panic

pub coin_sub-ok {ℓ} :
    {E : Type ℓ} (a b : Coin)
    → a.denom ≡ b.denom
    → b.amount ≤ a.amount
    → coin_sub {E = E} a b ≡ ok (coin a.denom (a.amount - b.amount))
unfolding coin_sub
coin_sub-ok a b e h = ground (arith, same_iff a.denom b.denom)

pub coin_add-ok {ℓ} :
    {E : Type ℓ} (a b : Coin)
    → a.denom ≡ b.denom
    → coin_add {E = E} a b ≡ ok (coin a.denom (a.amount + b.amount))
unfolding coin_add
coin_add-ok a b e = ground (arith, same_iff a.denom b.denom)

-- When `Sub` returns, and when it panics.
pub coin_sub-cases {ℓ} :
    {E : Type ℓ} (a b : Coin)
    → ((a.denom ≡ b.denom)
        × (b.amount ≤ a.amount)
        × (coin_sub {E = E} a b ≡ ok (coin a.denom (a.amount - b.amount))))
      ⊎ (((same a.denom b.denom ≡ false) ⊎ (a.amount < b.amount)) × (coin_sub {E = E} a b ≡ panic))
unfolding coin_sub
coin_sub-cases {E} a b = elim (Bool-cases (same a.denom b.denom)) [
  | inl e ↦ elim (Bool-cases (leb b.amount a.amount)) [
    | inl l ↦ inl (ground (arith, same_iff a.denom b.denom), ground arith, rw (e, l) refl)
    | inr l ↦ inr (inr (ground arith), rw (e, l) refl)
  ]
  | inr e ↦ inr (inl e, rw e refl)
]
