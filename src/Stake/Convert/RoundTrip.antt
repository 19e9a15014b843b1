-- ===== src/Stake/Convert/RoundTrip.antt =====
-- Staking and unstaking at once does not pay.
use pstake_native_test.Base.{
  refl, leb, Bool-cases, inl, inr, ℕ, ◌+◌, ◌*◌, ◌/◌, ◌≤◌, ◌<◌, ◌≡◌, false, ◌==◌, arith, ok,
}
use pstake_native_test.Sdk.Dec.{DecOps, DecLaws, one, of_int, truncate_int, truncate_dec}
use pstake_native_test.Stake.Convert.{native_token_to_stk_xprt, stk_xprt_to_native_token}

floor_le : (q : ℕ) → q / one * one ≤ q
floor_le q = grind arith

le_mul : (a b c : ℕ) → a ≤ b → a * c ≤ b * c
le_mul a b c h = grind arith

-- The minted amount, against the whole tokens `f` of the net amount.
mint_bound :
    (supply amount f product q : ℕ)
    → product * one ≤ supply * one * (amount * one)
    → q * (f * one) ≤ product * one
    → q / one * f ≤ supply * amount
mint_bound supply amount f product q h k = omega (arith, le_mul (q / one * one) q f (floor_le q))

-- The amount that comes back cannot be a token more than was put in; `u` units are a token.
no_gain :
    (supply amount net f minted u : ℕ)
    → 0 < supply
    → 0 < u
    → minted * f ≤ supply * amount
    → net + 1 ≤ f * u + u
    → 2 * ((amount + 1) * u * (supply + minted))
      ≤ 2 * (minted * (net + amount * u)) + (supply + minted)
    → ⊥
no_gain supply amount net f minted u pos_supply pos_u h k m = omega (
  arith,
  le_mul (net + 1) (f * u + u) minted k,
  le_mul (minted * f) (supply * amount) u h,
  le_mul 1 u supply pos_u,
)

return_bound :
    (supply amount net f minted q : ℕ)
    → 0 < supply
    → minted * f ≤ supply * amount
    → net + 1 ≤ f * one + one
    → 2 * (q * (supply + minted)) ≤ 2 * (minted * (net + amount * one)) + (supply + minted)
    → q / one ≤ amount
return_bound supply amount net f minted q p h k m = elim (Bool-cases (leb (q / one) amount)) [
  | inl b ↦ ground arith
  | inr b ↦
      let more : amount + 1 ≤ q / one = ground arith in
      let units : (amount + 1) * one ≤ q = omega (arith, floor_le q) in
      absurd (
        no_gain supply amount net f minted one p (omega arith) h k
          (omega (arith, le_mul ((amount + 1) * one) q (supply + minted) units)))
]

module _ (dec : DecOps) (laws : DecLaws dec) where
  -- The minted amount.
  abbrev minted_for : ℕ → ℕ → ℕ → ℕ
  minted_for amount supply net =
      truncate_int
        (dec.quo_truncate (dec.mul_truncate (of_int supply) (of_int amount)) (truncate_dec net))

  abbrev worth : ℕ → ℕ → ℕ → ℕ
  worth minted supply net = dec.quo (dec.mul_truncate (of_int minted) net) (of_int supply)

  minted_bound :
      (amount supply net : ℕ)
      → one ≤ net
      → minted_for amount supply net * (net / one) ≤ supply * amount
  minted_bound amount supply net h =
      let product = dec.mul_truncate (of_int supply) (of_int amount) in
      let some_net : 0 < truncate_dec net = grind arith in
      mint_bound supply amount (net / one) product (dec.quo_truncate product (truncate_dec net))
        (laws.mul_truncate_floor (of_int supply) (of_int amount)).0
        (laws.quo_truncate_floor product (truncate_dec net) some_net).0

  worth_bound :
      (minted supply net : ℕ)
      → 0 < supply
      → 2 * (worth minted supply net * supply) ≤ 2 * (minted * net) + supply
  worth_bound minted supply net h =
      let product = dec.mul_truncate (of_int minted) net in
      omega (
        arith,
        laws.mul_truncate_floor (of_int minted) net,
        laws.quo_nearest product (of_int supply) (omega arith),
      )

  -- Whoever stakes an amount, while some is staked already and the net amount is a token at least,
  -- and unstakes what is minted for it before anything else happens, gets back no more than that
  -- amount; neither conversion panics.
  pub round_trip :
      {E : Type 0} (amount supply net : ℕ)
      → 0 < supply
      → one ≤ net
      → (minted : ℕ) × (back : ℕ) × (native_token_to_stk_xprt dec {E = E} amount supply net
          ≡ ok minted)
        × (stk_xprt_to_native_token dec {E = E} minted (supply + minted) (net + of_int amount)
            ≡ ok back)
        × (back ≤ of_int amount)
  unfolding native_token_to_stk_xprt stk_xprt_to_native_token
  round_trip amount supply net p h =
      let minted = minted_for amount supply net in
      let q = worth minted (supply + minted) (net + of_int amount) in
      let some_net : (truncate_dec net == 0) ≡ false = grind arith in
      let some_supply : (supply + minted == 0) ≡ false = ground arith in
      let whole : q / one ≤ amount =
        return_bound supply amount net (net / one) minted q p (minted_bound amount supply net h)
          (grind arith)
          (worth_bound minted (supply + minted) (net + of_int amount) (omega arith)) in
      (minted, truncate_dec q, rw some_net refl, rw some_supply refl, omega (arith, whole))
