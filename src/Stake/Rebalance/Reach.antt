-- ===== src/Stake/Rebalance/Reach.antt =====
-- How a rebalancing ends: it moves nothing, or every validator is at its target.
use pstake_native_test.Stake.Rebalance.Trace.{Traces, rebalance-Traces}
use pstake_native_test.Base.{
  ℕ, suc, ◌≤◌, ◌≡◌, ◌⊎◌, inl, inr, refl, sym, true, false, ◌&&◌, ◌||◌, List, [], ◌∷◌, arith, leb,
  ◌==◌, Bool-cases, length, Outcome, ok, err, panic, Never,
}
use pstake_native_test.Sdk.Dec.{DecOps}
use pstake_native_test.Stake.Types.{LiquidValidator}
use pstake_native_test.Stake.Rebalance.{
  Amounts, min_max_gap, StakingKeeper, Rebalancing, total_of, target_shares, target_map,
  rebalancing_threshold, rebalance,
}
use pstake_native_test.Stake.Rebalance.Loop.{IsDistinct, sum_over, off_target}
use pstake_native_test.Stake.Rebalance.Balanced.{
  Panics, Settles, loop-Settles, loop_step, gap_at, loop, round-Settles,
}
use pstake_native_test.Stake.Rebalance.Targets.{target_map_total}

off_count :
    (target tokens : Amounts) (vs : List LiquidValidator)
    → sum_over (off_target target tokens) vs ≤ length vs
off_count target tokens [] = omega arith
off_count target tokens (v ∷ vs) = ground (arith, off_count target tokens vs)

module _ {E W : Type 0} (transitive : E) (sk : StakingKeeper E W) (dec : DecOps)
    (weight tokens : Amounts) (trigger : ℕ) (vs : List LiquidValidator) where
  abbrev target : Amounts
  target = target_map vs weight tokens

  abbrev threshold : ℕ
  threshold = rebalancing_threshold transitive sk dec weight tokens trigger vs

  -- Why nothing is moved.
  abbrev pub Idle : Type 0
  Idle =
      (total_of vs tokens ≡ 0)
      ⊎ (total_of vs weight ≡ 0)
      ⊎ (total_of vs (target_shares vs weight tokens) ≡ 0)
      ⊎ ((min_max_gap target tokens vs).amount_needed ≤ threshold)

  abbrev pub Reaches : Outcome E (Rebalancing transitive sk) → Type 0
  Reaches (ok r) =
      (total_of vs r.tokens ≡ total_of vs tokens)
      × (length r.redelegations ≤ length vs)
      × ((Idle × (r.redelegations ≡ []) × (r.tokens ≡ tokens))
          ⊎ (sum_over (off_target target r.tokens) vs ≡ 0))
  Reaches (err e) = Never
  Reaches panic = Panics transitive sk

  none_made :
      (w : W) → Idle → Reaches (ok (record { redelegations = []; tokens = tokens; world = w }))
  none_made w idle = (refl, omega arith, inl (idle, refl, refl))

  Reaches-Settles :
      (d : IsDistinct vs) (r : Outcome E (Rebalancing transitive sk))
      → Settles transitive sk target threshold vs d (length vs) tokens r
      → Reaches r
  Reaches-Settles d (ok r) (a, b, c) = (b, c, inr a)
  Reaches-Settles d (err e) h = h
  Reaches-Settles d panic h = h

module _ {E W : Type 0} (transitive : E) (sk : StakingKeeper E W) (dec : DecOps)
    (weight tokens : Amounts) (trigger : ℕ) where
  -- The first round, in which a small amount stops the loop.
  first_round :
      (vs : List LiquidValidator) (d : IsDistinct vs) (n : ℕ) (w : W)
      → length vs ≡ suc n
      → total_of vs tokens ≡ total_of vs (target_map vs weight tokens)
      → Reaches transitive sk dec weight tokens trigger vs (
          loop transitive sk
            (target_map vs weight tokens)
            (rebalancing_threshold transitive sk dec weight tokens trigger vs)
            vs
            d
            (suc n)
            true
            tokens
            w)
  first_round vs d n w e total =
      let target = target_map vs weight tokens in
      let threshold = rebalancing_threshold transitive sk dec weight tokens trigger vs in
      let k = (gap_at transitive sk target threshold vs d tokens).amount_needed in
      rw (loop_step transitive sk target threshold vs d n true tokens w)
        (elim (Bool-cases ((k == 0) || (true && leb k threshold))) [
          | inl b ↦ rw b (
              none_made transitive sk dec weight tokens trigger vs w
                (inr (inr (inr (ground arith)))))
          | inr b ↦ rw b (
              Reaches-Settles transitive sk dec weight tokens trigger vs d _ (
                rw e (
                  round-Settles transitive sk target threshold vs d n tokens w false total
                    (omega (arith, off_count target tokens vs, e))
                    (loop-Settles transitive sk target threshold vs d n) (ground arith))))
        ])

  reaches :
      (vs : List LiquidValidator) (w : W)
      → IsDistinct vs
      → Reaches transitive sk dec weight tokens trigger vs
          (rebalance transitive sk dec weight tokens trigger vs w)
  unfolding rebalance
  reaches [] w d = none_made transitive sk dec weight tokens trigger [] w (inl refl)
  reaches (v ∷ vs) w d =
      let none = none_made transitive sk dec weight tokens trigger (v ∷ vs) w in
      let shares = target_shares (v ∷ vs) weight tokens in
      elim (Bool-cases (total_of (v ∷ vs) tokens == 0)) [
        | inl a ↦ rw a (none (inl (ground arith)))
        | inr a ↦ rw a (elim (Bool-cases (total_of (v ∷ vs) weight == 0)) [
          | inl b ↦ rw b (none (inr (inl (ground arith))))
          | inr b ↦ rw b (elim (Bool-cases (total_of (v ∷ vs) shares == 0)) [
            | inl c ↦ rw c (none (inr (inr (inl (ground arith)))))
            | inr c ↦ rw c (
                first_round (v ∷ vs) d (length vs) w refl
                  (sym (target_map_total (v ∷ vs) weight tokens d (ground arith) (ground arith))))
          ])
        ])
      ]

  -- When the validators have different addresses, a rebalancing moves nothing, because there are no
  -- tokens, no weights or no shares, or because the first move would not be above the threshold; or
  -- it ends with every validator at its target in the amounts that the loop keeps, which count a failed
  -- redelegation as made. The total of these stays the same, there are at most as many redelegations as
  -- validators, and a panic is one of the staking module. In order, each redelegation without an error
  -- was made by the staking module, with the shares of its amount or with all in the last one, each with
  -- an error failed so and changed nothing, and each moved its amount from its source to its
  -- destination in the loop's amounts.
  pub rebalance-Reaches :
      (vs : List LiquidValidator) (w : W)
      → IsDistinct vs
      → Reaches transitive sk dec weight tokens trigger vs
          (rebalance transitive sk dec weight tokens trigger vs w)
        × Traces transitive sk tokens w (rebalance transitive sk dec weight tokens trigger vs w)
  rebalance-Reaches vs w d =
      (reaches vs w d, rebalance-Traces transitive sk dec weight tokens trigger vs w d)
