-- ===== src/Stake/Unstake/FromAll.antt =====
-- An unstake over all validators: the shares of the amount are unbonded and no more.
use pstake_native_test.Base.{
  ℕ, ◌+◌, ◌*◌, ◌≤◌, ◌<◌, ◌≡◌, inl, inr, refl, ap, List, [], ◌∷◌, ◌==◌, ◌⊎◌, arith, length, Outcome,
  ok, err, panic, ◌>>=◌, ◌>>◌, refuse, Bool, true, false,
}
use pstake_native_test.Base.Int.{ℤ, pos, pos_part, neg_part, ◌-ℤ◌, ◌+ℤ◌, int_laws}
use pstake_native_test.Base.Text.{Bytes}
use pstake_native_test.Sdk.Dec.{DecOps, DecLaws, truncate_int, one}
use pstake_native_test.Stake.Types.{LiquidValidator, total_liquid_tokens}
use pstake_native_test.Stake.Divide.{total_output, divide_by_current_weight}
use pstake_native_test.Stake.Divide.Current.{WholeShares, divide_by_current_weight-Divides}
use pstake_native_test.Stake.Unstake.{
  UnstakeKeeper, UnstakeError, too_small_liquid_unstaking_amount, Progress, start, unbond_from_all,
}
use pstake_native_test.Stake.Unstake.Unbonds.{
  UnbondLaws, Fails, Unbonds, whole_total, unbond_each-Unbonds,
}

length-WholeShares :
    (tokens : Bytes → ℕ) (input total : ℕ) (vs : List LiquidValidator) (os : List ℕ)
    → WholeShares tokens input total vs os
    → length os ≡ length vs
length-WholeShares tokens input total [] [] h = refl
length-WholeShares tokens input total (v ∷ vs) (o ∷ os) h =
    omega (arith, length-WholeShares tokens input total vs os h.2)
length-WholeShares tokens input total [] (o ∷ os) h = absurd h
length-WholeShares tokens input total (v ∷ vs) [] h = absurd h

whole_total_bound : (os : List ℕ) → whole_total os * one ≤ total_output os
whole_total_bound [] = omega arith
whole_total_bound (o ∷ os) =
    let whole : truncate_int o * one ≤ o = grind arith in omega (arith, whole, whole_total_bound os)

outputs_bound : (out input : ℕ) (r : ℤ) (c : ℕ) → pos out +ℤ r ≡ pos input → r ≡ pos c → out ≤ input
outputs_bound out input r c e is_c =
    omega (int_laws, ap pos_part e, ap neg_part e, ap pos_part is_c, ap neg_part is_c)

no_validators :
    (tokens : Bytes → ℕ) (vs : List LiquidValidator)
    → 0 < total_liquid_tokens tokens vs
    → (length vs == 0) ≡ false
no_validators tokens [] h = absurd (omega arith)
no_validators tokens (v ∷ vs) h = ground arith

module _ {W U : Type 0} (k : UnstakeKeeper W U) (tokens : W → ℕ) (proxy staker : Bytes) where
  -- How unbonding an amount, in units, ends: what is returned is taken from the validators' tokens
  -- and at most the amount, and nothing is paid at once; or the shares are too small, or a
  -- validation or an unbonding failed.
  abbrev pub UnbondsAmount : ℕ → W → Outcome UnstakeError (Progress U × ℕ × W) → Type 0
  UnbondsAmount amount w (ok r) =
      (tokens r.2 + r.0.total ≡ tokens w) × (r.0.total * one ≤ amount) × (r.1 ≡ 0)
  UnbondsAmount amount w (err e) =
      (e ≡ too_small_liquid_unstaking_amount) ⊎ Fails k tokens proxy staker (err e) (err e)
  UnbondsAmount amount w panic = Fails k tokens proxy staker panic panic

  each-UnbondsAmount :
      (amount n : ℕ) (w : W) (r : Outcome UnstakeError (Progress U × W))
      → n * one ≤ amount
      → Unbonds k tokens proxy staker n start w r
      → UnbondsAmount amount w (r >>= λ x. ok (x.0, 0, x.1))
  each-UnbondsAmount amount n w (ok r) h u = (omega (arith, u.0), omega (arith, u.1, h), refl)
  each-UnbondsAmount amount n w (err e) h u = inr u
  each-UnbondsAmount amount n w panic h u = u

  small-UnbondsAmount :
      (small : Bool) (amount : ℕ) (w : W) (r : Outcome UnstakeError (Progress U × ℕ × W))
      → UnbondsAmount amount w r
      → UnbondsAmount amount w (refuse small too_small_liquid_unstaking_amount >> r)
  small-UnbondsAmount true amount w r h = inl refl
  small-UnbondsAmount false amount w r h = h

  -- When the proxy account has tokens at the validators, unbonding an amount from all of them returns
  -- exactly what it takes from the validators' tokens, at most the amount, and pays nothing at once;
  -- or it is refused as too small, or ends as a validation or an unbonding that failed.
  pub unbond_from_all-Unbonds :
      (laws : UnbondLaws k tokens) (dec : DecOps) (dec_laws : DecLaws dec) (amount : ℕ) (w : W)
      → 0 < total_liquid_tokens (k.liquid_tokens w) (k.liquid_validators w)
      → UnbondsAmount amount w (unbond_from_all k proxy staker dec amount w)
  unfolding unbond_from_all
  unbond_from_all-Unbonds laws dec dec_laws amount w h =
      let vs = k.liquid_validators w in
      let held = k.liquid_tokens w in
      let total = total_liquid_tokens held vs in
      let r = divide_by_current_weight dec vs amount total held in
      let d = divide_by_current_weight-Divides dec dec_laws held vs amount total h refl in
      let enough : total_output r.0 ≤ amount =
        outputs_bound (total_output r.0) amount r.1 d.crumb.0 d.exact d.crumb.1 in
      rw (no_validators held vs h) (
        small-UnbondsAmount (pos_part (pos amount -ℤ r.1) == 0) amount w _ (
          each-UnbondsAmount amount (whole_total r.0) w _
            (omega (arith, whole_total_bound r.0, enough))
            (unbond_each-Unbonds k tokens proxy staker laws vs r.0 start w
              (length-WholeShares held amount total vs r.0 d.shares))))
