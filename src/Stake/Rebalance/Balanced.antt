-- ===== src/Stake/Rebalance/Balanced.antt =====
-- The rounds of the rebalancing are enough to bring every validator to its target.
use pstake_native_test.Base.{
  ℕ, zero, suc, ◌≤◌, ◌<◌, ◌≡◌, inl, inr, refl, ◌∙◌, Bool, true, false, ◌&&◌, ◌||◌, Option, List, [],
  ◌∷◌, All, arith, if◌then◌else◌, leb, ◌==◌, length, Outcome, ok, err, panic, some, none, Never,
}
use pstake_native_test.Stake.Types.{LiquidValidator}
use pstake_native_test.Stake.Rebalance.{
  Amounts, MinMaxGap, min_max_gap, StakingKeeper, Rebalancing, try_redelegation, moved, recorded,
  rebalance_loop,
}
use pstake_native_test.Stake.Rebalance.Next.{min_max_gap-IsNext, min_max_gap_zero}
use pstake_native_test.Stake.Rebalance.Loop.{
  IsDistinct, sum_over, off_target, shift_total, shift_settles,
}

-- Amounts that are all on one side of their targets, with the same sum, are at their targets.
module _ (target tokens : Amounts) where
  off_below :
      (vs : List LiquidValidator)
      → All (λ v. tokens v.operator_address ≤ target v.operator_address) vs
      → (sum_over tokens vs ≤ sum_over target vs)
        × ((sum_over target vs ≤ sum_over tokens vs → sum_over (off_target target tokens) vs ≡ 0))
  off_below [] h = (omega arith, λ _. refl)
  off_below (v ∷ vs) (h, hs) = (
    omega (arith, (off_below vs hs).0),
    λ k.
        ground
          (arith, (off_below vs hs).0, (off_below vs hs).1 (omega (arith, (off_below vs hs).0))),
  )

  off_above :
      (vs : List LiquidValidator)
      → All (λ v. target v.operator_address ≤ tokens v.operator_address) vs
      → (sum_over target vs ≤ sum_over tokens vs)
        × ((sum_over tokens vs ≤ sum_over target vs → sum_over (off_target target tokens) vs ≡ 0))
  off_above [] h = (omega arith, λ _. refl)
  off_above (v ∷ vs) (h, hs) = (
    omega (arith, (off_above vs hs).0),
    λ k.
        ground
          (arith, (off_above vs hs).0, (off_above vs hs).1 (omega (arith, (off_above vs hs).0))),
  )

module _ {E W : Type 0} (transitive : E) (sk : StakingKeeper E W) where
  abbrev pub tried : MinMaxGap → W → Outcome E W
  tried g w =
      try_redelegation transitive sk g.max_val g.min_val g.amount_needed g.last_redelegation w

  -- The staking module panics on some redelegation.
  abbrev pub Panics : Type 0
  Panics = (g : MinMaxGap) × (w : W) × (tried g w ≡ panic)

module _ {E W : Type 0} (transitive : E) (sk : StakingKeeper E W) (target : Amounts) (threshold : ℕ)
    (vs : List LiquidValidator) (distinct : IsDistinct vs) where
  -- How the rounds end: at the targets, with the same total, after at most so many redelegations.
  abbrev pub Settles : ℕ → Amounts → Outcome E (Rebalancing transitive sk) → Type 0
  Settles n tokens (ok r) =
      (sum_over (off_target target r.tokens) vs ≡ 0)
      × (sum_over r.tokens vs ≡ sum_over tokens vs)
      × (length r.redelegations ≤ n)
  Settles n tokens (err e) = Never
  Settles n tokens panic = Panics transitive sk

  pub Settles-recorded :
      (n : ℕ) (tokens tokens' : Amounts) (g : MinMaxGap) (error : Option E)
      (r : Outcome E (Rebalancing transitive sk))
      → sum_over tokens' vs ≡ sum_over tokens vs
      → Settles n tokens' r
      → Settles (suc n) tokens (recorded transitive sk g error r)
  Settles-recorded n tokens tokens' g error (ok r) e (a, b, c) = (a, b ∙ e, omega arith)
  Settles-recorded n tokens tokens' g error (err x) e h = elim h [ ]
  Settles-recorded n tokens tokens' g error panic e h = h

  abbrev pub loop : ℕ → Bool → Amounts → W → Outcome E (Rebalancing transitive sk)
  loop = rebalance_loop transitive sk target threshold vs

  -- The rest of a round, once its redelegation has been tried.
  abbrev pub after :
      MinMaxGap → ℕ → Amounts → W → Outcome E W → Outcome E (Rebalancing transitive sk)
  after g n tokens w t = elim t as (λ _. Outcome E (Rebalancing transitive sk)) [
    | ok w' ↦ recorded transitive sk g none (loop n false (moved transitive sk g tokens) w')
    | err e ↦ recorded transitive sk g (some e) (loop n false (moved transitive sk g tokens) w)
    | panic ↦ panic
  ]

  abbrev pub stopped : Amounts → W → Outcome E (Rebalancing transitive sk)
  stopped tokens w = ok (record { redelegations = []; tokens = tokens; world = w })

  abbrev pub gap_at : Amounts → MinMaxGap
  gap_at tokens = min_max_gap target tokens vs

  pub loop_step :
      (n : ℕ) (initial : Bool) (tokens : Amounts) (w : W)
      → loop (suc n) initial tokens w ≡ (
          if ((gap_at tokens).amount_needed == 0)
            || (initial && leb (gap_at tokens).amount_needed threshold)
          then stopped tokens w
          else after (gap_at tokens) n tokens w (tried transitive sk (gap_at tokens) w))
  unfolding rebalance_loop
  loop_step n initial tokens w = refl

  pub after-Settles :
      (n : ℕ) (tokens : Amounts) (w : W) (t : Outcome E W)
      → tried transitive sk (gap_at tokens) w ≡ t
      → sum_over (moved transitive sk (gap_at tokens) tokens) vs ≡ sum_over tokens vs
      → ((w' : W)
          → Settles n
              (moved transitive sk (gap_at tokens) tokens)
              (loop n false (moved transitive sk (gap_at tokens) tokens) w'))
      → Settles (suc n) tokens (after (gap_at tokens) n tokens w t)
  after-Settles n tokens w (ok w') h e ih =
      Settles-recorded n tokens _ (gap_at tokens) none _ e (ih w')
  after-Settles n tokens w (err x) h e ih =
      Settles-recorded n tokens _ (gap_at tokens) (some x) _ e (ih w)
  after-Settles n tokens w panic h e ih = (gap_at tokens, w, h)

  -- Nothing to move means that all are at their targets.
  at_target :
      (tokens : Amounts)
      → sum_over tokens vs ≡ sum_over target vs
      → (gap_at tokens).amount_needed ≡ 0
      → sum_over (off_target target tokens) vs ≡ 0
  at_target tokens e z = elim (min_max_gap_zero target tokens vs z) [
    | inl below ↦ (off_below target tokens vs below).1 (omega arith)
    | inr above ↦ (off_above target tokens vs above).1 (omega arith)
  ]

  or_false : (b : Bool) → (b || (false && leb 0 0)) ≡ b
  or_false b = ground arith

  -- A round that does not stop at the threshold.
  pub round-Settles :
      (n : ℕ) (tokens : Amounts) (w : W) (stop : Bool)
      → sum_over tokens vs ≡ sum_over target vs
      → sum_over (off_target target tokens) vs ≤ suc n
      → ((tokens' : Amounts) (w' : W)
          → sum_over tokens' vs ≡ sum_over target vs
          → sum_over (off_target target tokens') vs ≤ n
          → Settles n tokens' (loop n false tokens' w'))
      → stop ≡ ((gap_at tokens).amount_needed == 0)
      → Settles (suc n) tokens (
          if stop
          then stopped tokens w
          else after (gap_at tokens) n tokens w (tried transitive sk (gap_at tokens) w))
  round-Settles n tokens w true e h ih s = (at_target tokens e (ground arith), refl, omega arith)
  round-Settles n tokens w false e h ih s =
      let g = gap_at tokens in
      let max = g.max_val.operator_address in
      let min = g.min_val.operator_address in
      let some_amount : 0 < g.amount_needed = ground arith in
      let next = min_max_gap-IsNext target tokens vs some_amount in
      let same_total =
        shift_total target tokens vs distinct max min g.amount_needed some_amount next in
      let settled =
        shift_settles target tokens vs distinct max min g.amount_needed some_amount next in
      after-Settles n tokens w _ refl same_total
        (λ w'. ih (moved transitive sk g tokens) w' (same_total ∙ e) (omega (arith, settled)))

  -- Rounds for all that are off their targets.
  pub loop-Settles :
      (n : ℕ) (tokens : Amounts) (w : W)
      → sum_over tokens vs ≡ sum_over target vs
      → sum_over (off_target target tokens) vs ≤ n
      → Settles n tokens (loop n false tokens w)
  unfolding rebalance_loop
  loop-Settles zero tokens w e h = (omega arith, refl, omega arith)
  loop-Settles (suc n) tokens w e h = round-Settles n tokens w _ e h (loop-Settles n) (or_false _)
