-- ===== src/Stake/Delegate/Exact.antt =====
-- What is delegated adds up to the amount that was staked.
use mathlib.Core.Path.{subst}
use pstake_native_test.Base.{
  ℕ, ◌+◌, ◌<◌, ◌≡◌, inl, inr, refl, ap, List, [], ◌∷◌, ◌==◌, arith, length, Outcome, ok, err, panic,
  ◌>>=◌, Bool-cases,
}
use pstake_native_test.Base.Int.{ℤ, pos, pos_part, neg_part, ◌+ℤ◌, int_laws, parts_disjoint}
use pstake_native_test.Base.Text.{Bytes}
use pstake_native_test.Sdk.Dec.{DecOps, DecLaws}
use pstake_native_test.Stake.Types.{WhitelistedValidator, LiquidValidator, total_weight}
use pstake_native_test.Stake.Divide.{divide_by_weight, total_output}
use pstake_native_test.Stake.Divide.Crumb.{Divides, AtMostShares, divide_by_weight-Divides}
use pstake_native_test.Stake.Delegate.{
  Error, ChainKeeper, delegate_each, with_crumb, liquid_delegate,
}

-- A delegation adds its amount to what the proxy account has staked.
pub record StakingLaws {W : Type 0} (k : ChainKeeper W) (staked : W → ℕ) : Type 0 where
  pub delegate_adds :
      (v : Bytes) (n : ℕ) (w : W) (shares : ℕ) (w' : W)
      → k.delegate v n w ≡ ok (shares, w')
      → staked w' ≡ staked w + n

module _ {W : Type 0} (k : ChainKeeper W) (staked : W → ℕ) where
  -- How delegating `n` in all ends: it is all staked, or some delegation failed.
  abbrev pub Delegates : ℕ → W → Outcome Error (ℕ × W) → Type 0
  Delegates n w (ok (shares, w')) = staked w' ≡ staked w + n
  Delegates n w (err e) = (v : Bytes) × (m : ℕ) × (w1 : W) × (k.delegate v m w1 ≡ err e)
  Delegates n w panic = (v : Bytes) × (m : ℕ) × (w1 : W) × (k.delegate v m w1 ≡ panic)

  Delegates-later :
      (n m : ℕ) (w w' : W) (r : Outcome Error (ℕ × W))
      → staked w' ≡ staked w + m
      → Delegates n w' r
      → Delegates (m + n) w r
  Delegates-later n m w w' (ok r) e h = omega (arith, e, h)
  Delegates-later n m w w' (err x) e h = h
  Delegates-later n m w w' panic e h = h

  module _ (dec : DecOps) (laws : StakingLaws k staked) where
    step-Delegates :
        (a : Bytes) (n m shares : ℕ) (vs : List LiquidValidator) (amounts : List ℕ) (w : W)
        (r : Outcome Error (ℕ × W))
        → k.delegate a m w ≡ r
        → ((shares' : ℕ) (w' : W) → Delegates n w' (delegate_each dec k vs amounts shares' w'))
        → Delegates (m + n) w (r >>= λ x. delegate_each dec k vs amounts (shares + x.0) x.1)
    step-Delegates a n m shares vs amounts w (ok (s, w')) e ih =
        Delegates-later n m w w' _ (laws.delegate_adds a m w s w' e) (ih (shares + s) w')
    step-Delegates a n m shares vs amounts w (err x) e ih = (a, m, w, e)
    step-Delegates a n m shares vs amounts w panic e ih = (a, m, w, e)

    each-Delegates :
        (vs : List LiquidValidator) (amounts : List ℕ) (shares : ℕ) (w : W)
        → length amounts ≡ length vs
        → Delegates (total_output amounts) w (delegate_each dec k vs amounts shares w)
    unfolding delegate_each
    each-Delegates [] [] shares w h = omega arith
    each-Delegates [] (a ∷ amounts) shares w h = ground arith
    each-Delegates (v ∷ vs) [] shares w h = ground arith
    each-Delegates (v ∷ vs) (a ∷ amounts) shares w h = elim (Bool-cases (a == 0)) [
      | inl b ↦ rw b (
          Delegates-later (total_output amounts) a w w _ (ground arith)
            (each-Delegates vs amounts shares w (omega arith)))
      | inr b ↦ rw b (
          step-Delegates v.operator_address (total_output amounts) a shares vs amounts w _ refl
            (λ s w'. each-Delegates vs amounts s w' (omega arith)))
    ]

length-AtMostShares :
    (wvs : List WhitelistedValidator) (input total : ℕ) (vs : List LiquidValidator) (os : List ℕ)
    → AtMostShares wvs input total vs os
    → length os ≡ length vs
length-AtMostShares wvs input total [] [] h = refl
length-AtMostShares wvs input total (v ∷ vs) (o ∷ os) h =
    omega (arith, length-AtMostShares wvs input total vs os h.1)
length-AtMostShares wvs input total [] (o ∷ os) h = absurd h
length-AtMostShares wvs input total (v ∷ vs) [] h = absurd h

module _ (dec : DecOps) (dec_laws : DecLaws dec) {W : Type 0} (k : ChainKeeper W) (staked : W → ℕ)
    (laws : StakingLaws k staked) where
  divided-Delegates :
      (wvs : List WhitelistedValidator) (vs : List LiquidValidator) (amount : ℕ) (w : W)
      (r : List ℕ × ℤ)
      → 0 < total_weight wvs vs
      → Divides wvs vs amount r
      → Delegates k staked amount w
          (with_crumb dec k r >>= λ amounts. delegate_each dec k vs amounts 0 w)
  unfolding with_crumb total_weight
  divided-Delegates wvs [] amount w r h d = absurd (omega arith)
  divided-Delegates wvs (v ∷ vs) amount w ([], crumb) h d = absurd d.shares
  divided-Delegates wvs (v ∷ vs) amount w (a ∷ os, crumb) h d =
      let (c, is_c, _) = d.crumb in
      let first = pos_part (pos a +ℤ crumb) in
      let total : first + total_output os ≡ amount = omega (
        int_laws,
        ap pos_part is_c,
        ap neg_part is_c,
        ap pos_part d.exact,
        ap neg_part d.exact,
        parts_disjoint (pos a +ℤ crumb),
      ) in
      subst (λ n. Delegates k staked n w (delegate_each dec k (v ∷ vs) (first ∷ os) 0 w)) total
        (each-Delegates k staked dec laws (v ∷ vs) (first ∷ os) 0 w
          (length-AtMostShares wvs amount (total_weight wvs (v ∷ vs)) (v ∷ vs) (a ∷ os) d.shares))

  -- For a positive total weight, delegating an amount to the active validators raises what the proxy
  -- account has staked by exactly that amount, or ends as a delegation of the staking module that
  -- failed.
  pub liquid_delegate-Delegates :
      (wvs : List WhitelistedValidator) (vs : List LiquidValidator) (amount : ℕ) (w : W)
      → 0 < total_weight wvs vs
      → Delegates k staked amount w (liquid_delegate dec k vs amount wvs w)
  unfolding liquid_delegate
  liquid_delegate-Delegates wvs vs amount w h =
      divided-Delegates wvs vs amount w (divide_by_weight dec wvs vs amount) h
        (divide_by_weight-Divides dec dec_laws wvs vs amount h)
