-- ===== src/Ibc/Messages/Worth.antt =====
-- What minted tokens are redeemed and unbonded for.
use pstake_native_test.Base.{
  ◌/◌, le_mul, ℕ, ◌+◌, ◌*◌, ◌≤◌, ◌<◌, ◌≡◌, inl, inr, refl, arith, ok, err, panic, Outcome, ◌==◌,
  Bool-cases,
}
use pstake_native_test.Base.Text.{Bytes}
use pstake_native_test.Sdk.Coin.{Coin}
use pstake_native_test.Sdk.Dec.{DecOps, DecLaws, of_int, one}
use pstake_native_test.Ibc.Types.{HostChain, Error}
use pstake_native_test.Ibc.Messages.{redeemed_for, unbonded_for}

-- What a number of minted tokens is redeemed for, unless the value is zero.
abbrev pub RedeemsFor : (HostChain → Bytes) → HostChain → ℕ → Outcome Error Coin → Type 0
RedeemsFor ibc_denom hc n (ok token) =
    (token.denom ≡ ibc_denom hc)
    × (hc.c_value < 2 * one → token.amount * hc.c_value ≤ n * one)
    × (n * (2 * (one * one)) ≤ 2 * ((token.amount + 1) * hc.c_value * one) + hc.c_value)
RedeemsFor ibc_denom hc n (err e) = ⊥
RedeemsFor ibc_denom hc n panic = hc.c_value ≡ 0

worth_bound :
    (q t n c : ℕ)
    → 2 * (q * c) ≤ 2 * (n * one * one) + c
    → t * one ≤ q
    → c < 2 * one
    → t * c ≤ n * one
worth_bound q t n c h k l = omega (arith, le_mul (t * one) q c k)

-- A quotient is less than one more of its whole part.
below_next : (q : ℕ) → q ≤ (q / one + 1) * one
below_next q = grind arith

worth_least :
    (q n c : ℕ)
    → 2 * (n * one * one) ≤ 2 * (q * c) + c
    → n * (2 * (one * one)) ≤ 2 * ((q / one + 1) * c * one) + c
worth_least q n c h = omega (arith, h, le_mul q ((q / one + 1) * one) c (below_next q))

pub redeemed_for-RedeemsFor :
    (dec : DecOps) (laws : DecLaws dec) (ibc_denom : HostChain → Bytes) (hc : HostChain) (n : ℕ)
    → RedeemsFor ibc_denom hc n (redeemed_for dec ibc_denom hc n)
unfolding redeemed_for
redeemed_for-RedeemsFor dec laws ibc_denom hc n = elim (Bool-cases (hc.c_value == 0)) [
  | inl z ↦ rw z (ground arith)
  | inr nz ↦ rw nz (
    refl,
    λ small.
        worth_bound (dec.quo (of_int n) hc.c_value) _ n hc.c_value
          (laws.quo_nearest (of_int n) hc.c_value (ground arith)).0 (grind arith) small,
    worth_least _ n hc.c_value (laws.quo_nearest (of_int n) hc.c_value (ground arith)).1,
  )
]

-- What a number of minted tokens is unbonded for: the inverse of the value is rounded before it is
-- multiplied, so the bound moves with the number.
abbrev pub UnbondsFor : HostChain → ℕ → Outcome Error Coin → Type 0
UnbondsFor hc n (ok unbond) =
    (unbond.denom ≡ hc.host_denom)
    × (2 * (unbond.amount * hc.c_value * one) ≤ n * (2 * (one * one) + hc.c_value))
    × (n * (2 * (one * one)) ≤ 2 * ((unbond.amount + 1) * hc.c_value * one) + n * hc.c_value)
UnbondsFor hc n (err e) = ⊥
UnbondsFor hc n panic = hc.c_value ≡ 0

inverse_bound :
    (t n inv c m : ℕ) → t * one ≤ n * inv → 2 * (inv * c) ≤ m → 2 * (t * c * one) ≤ n * m
inverse_bound t n inv c m h k =
    omega (arith, le_mul (t * one) (n * inv) c h, le_mul (2 * (inv * c)) m n k)

truncated_product :
    (r n inv : ℕ) → 2 * (r * one) ≤ 2 * (n * one * inv) + one → r / one * one ≤ n * inv
truncated_product r n inv h =
    let whole : r / one * one ≤ r = grind arith in
    let exact : r ≤ n * inv = omega (arith, h) in omega (arith, whole, exact)

inverse_least :
    (r n inv c : ℕ)
    → 2 * (n * one * inv) ≤ 2 * (r * one) + one
    → 2 * (one * one) ≤ 2 * (inv * c) + c
    → n * (2 * (one * one)) ≤ 2 * ((r / one + 1) * c * one) + n * c
inverse_least r n inv c h k =
    let exact : n * inv ≤ r = omega (arith, h) in
    let whole : r ≤ (r / one + 1) * one = below_next r in
    let most : n * inv ≤ (r / one + 1) * one = omega (arith, exact, whole) in
    omega (
      arith,
      le_mul (n * inv) ((r / one + 1) * one) c most,
      le_mul (2 * (one * one)) (2 * (inv * c) + c) n k,
    )

pub unbonded_for-UnbondsFor :
    (dec : DecOps) (laws : DecLaws dec) (hc : HostChain) (n : ℕ)
    → UnbondsFor hc n (unbonded_for dec hc n)
unfolding unbonded_for
unbonded_for-UnbondsFor dec laws hc n = elim (Bool-cases (hc.c_value == 0)) [
  | inl z ↦ rw z (ground arith)
  | inr nz ↦ rw nz (
    refl,
    inverse_bound _ n (dec.quo one hc.c_value) hc.c_value _
        (truncated_product _ n (dec.quo one hc.c_value)
          (laws.mul_nearest (of_int n) (dec.quo one hc.c_value)).0)
        (laws.quo_nearest one hc.c_value (ground arith)).0,
    inverse_least _ n (dec.quo one hc.c_value) hc.c_value
        (laws.mul_nearest (of_int n) (dec.quo one hc.c_value)).1
        (laws.quo_nearest one hc.c_value (ground arith)).1,
  )
]
