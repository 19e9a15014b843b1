-- ===== src/Stake/Rebalance/Trace.antt =====
-- What the redelegations of a rebalancing did, one after the other.
use mathlib.Core.Path.{subst}
use pstake_native_test.Base.{
  ℕ, suc, zero, ◌+◌, ◌-◌, ◌≡◌, ◌⊎◌, inl, inr, refl, Bool, true, false, ◌&&◌, ◌||◌, List, [], ◌∷◌,
  Option, none, some, ◌==◌, leb, Bool-cases, if◌then◌else◌, Outcome, ok, err, panic, length,
}
use pstake_native_test.Base.Text.{Bytes, same}
use pstake_native_test.Sdk.Dec.{DecOps}
use pstake_native_test.Stake.Types.{LiquidValidator}
use pstake_native_test.Stake.Rebalance.{
  Amounts, assign, MinMaxGap, StakingKeeper, Redelegation, Rebalancing, try_redelegation, moved,
  recorded, begin_with, redelegation_of, rebalance_loop, total_of, target_shares, target_map,
  rebalancing_threshold, rebalance,
}
use pstake_native_test.Stake.Rebalance.Balanced.{loop, loop_step, gap_at, after, tried}
use pstake_native_test.Stake.Rebalance.Loop.{IsDistinct}

module _ {E W : Type 0} (transitive : E) (sk : StakingKeeper E W) where
  abbrev src_of : Redelegation E → Bytes
  src_of r = r.src_validator.operator_address

  abbrev dst_of : Redelegation E → Bytes
  dst_of r = r.dst_validator.operator_address

  -- The shares that are redelegated: those of the amount, or all in the last redelegation.
  abbrev pub Begun : Redelegation E → W → Outcome E W → Type 0
  Begun r w o =
      (shares : ℕ) × (sk.validate_unbond_amount (src_of r) r.amount w ≡ ok shares)
      × (sk.begin_redelegation (src_of r) (dst_of r)
            (if r.last then sk.del_shares (src_of r) w else shares) w
          ≡ o)

  -- A redelegation without an error was made by the staking module.
  abbrev pub Made : Redelegation E → W → W → Type 0
  Made r w w' =
      (r.error ≡ none) × (sk.has_receiving_redelegation (src_of r) w ≡ false) × Begun r w (ok w')

  -- One with an error changed nothing.
  abbrev pub Failed : Redelegation E → W → W → Type 0
  Failed r w w' =
      (e : E) × (r.error ≡ some e)
      × (w' ≡ w)
      × (((sk.has_receiving_redelegation (src_of r) w ≡ true) × (e ≡ transitive))
          ⊎ (sk.validate_unbond_amount (src_of r) r.amount w ≡ err e)
          ⊎ Begun r w (err e))

  -- The amount goes from the one validator to the other in the loop's amounts.
  abbrev pub shifted : Redelegation E → Amounts → Amounts
  shifted r tokens =
      let less =
        λ (b : Bytes). if same (src_of r) b then tokens (src_of r) - r.amount else tokens b in
      λ b. if same (dst_of r) b then less (dst_of r) + r.amount else less b

  -- The redelegations in order, from amounts and a state to others.
  abbrev pub Trace : Amounts → W → List (Redelegation E) → Amounts → W → Type 0
  Trace tokens w [] tokens' w' = (tokens' ≡ tokens) × (w' ≡ w)
  Trace tokens w (r ∷ rs) tokens' w' =
      (next : W) × (Made r w next ⊎ Failed r w next) × Trace (shifted r tokens) next rs tokens' w'

  abbrev pub Traces : Amounts → W → Outcome E (Rebalancing transitive sk) → Type 0
  Traces tokens w (ok r) = Trace tokens w r.redelegations r.tokens r.world
  Traces tokens w (err e) = Unit
  Traces tokens w panic = Unit

  module _ (r : Redelegation E) (w : W) where
    -- What an attempt shows of a redelegation that is recorded with its outcome.
    abbrev Shows : Outcome E W → Type 0
    Shows (ok w') = r.error ≡ none → Made r w w'
    Shows (err e) = r.error ≡ some e → Failed r w w
    Shows panic = Unit

    begun-Shows :
        (shares : ℕ) (o : Outcome E W)
        → sk.has_receiving_redelegation (src_of r) w ≡ false
        → sk.validate_unbond_amount (src_of r) r.amount w ≡ ok shares
        → sk.begin_redelegation
            (src_of r)
            (dst_of r)
            (if r.last then sk.del_shares (src_of r) w else shares)
            w
          ≡ o
        → Shows o
    begun-Shows shares (ok w') first valid begun =
        λ no_error. (no_error, first, (shares, valid, begun))
    begun-Shows shares (err e) first valid begun =
        λ error. (e, error, refl, inr (inr (shares, valid, begun)))
    begun-Shows shares panic first valid begun = tt

    tested-Shows :
        (b : Bool) (o : Outcome E ℕ)
        → sk.has_receiving_redelegation (src_of r) w ≡ b
        → sk.validate_unbond_amount (src_of r) r.amount w ≡ o
        → Shows (
            if b
            then err transitive
            else begin_with transitive sk r.src_validator r.dst_validator r.last w o)
    tested-Shows true o h e = λ error. (transitive, error, refl, inl (h, refl))
    tested-Shows false (ok shares) h e = begun-Shows shares _ h e refl
    tested-Shows false (err x) h e = λ error. (x, error, refl, inr (inl e))
    tested-Shows false panic h e = tt

    try_redelegation-Shows :
        Shows (try_redelegation transitive sk r.src_validator r.dst_validator r.amount r.last w)
    unfolding try_redelegation
    try_redelegation-Shows = tested-Shows _ _ refl refl

  recorded-Traces :
      (g : MinMaxGap) (error : Option E) (tokens : Amounts) (w next : W)
      (o : Outcome E (Rebalancing transitive sk))
      → let r = redelegation_of transitive sk g error in
        Made r w next ⊎ Failed r w next
        → Traces (moved transitive sk g tokens) next o
        → Traces tokens w (recorded transitive sk g error o)
  unfolding assign
  recorded-Traces g error tokens w next (ok r) m h = (next, m, h)
  recorded-Traces g error tokens w next (err e) m h = tt
  recorded-Traces g error tokens w next panic m h = tt

  module _ (target : Amounts) (threshold : ℕ) (vs : List LiquidValidator) (d : IsDistinct vs) where
    after-Traces :
        (n : ℕ) (tokens : Amounts) (w : W) (t : Outcome E W)
        → let g = gap_at transitive sk target threshold vs d tokens in
          tried transitive sk g w ≡ t
          → ((w' : W)
              → Traces (moved transitive sk g tokens) w' (
                  loop transitive sk target threshold vs d n false
                    (moved transitive sk g tokens)
                    w'))
          → Traces tokens w (after transitive sk target threshold vs d g n tokens w t)
    after-Traces n tokens w (ok w') h ih =
        let g = gap_at transitive sk target threshold vs d tokens in
        let r = redelegation_of transitive sk g none in
        let made = subst (Shows r w) h (try_redelegation-Shows r w) in
        recorded-Traces g none tokens w w' _ (inl (made refl)) (ih w')
    after-Traces n tokens w (err e) h ih =
        let g = gap_at transitive sk target threshold vs d tokens in
        let r = redelegation_of transitive sk g (some e) in
        let failed = subst (Shows r w) h (try_redelegation-Shows r w) in
        recorded-Traces g (some e) tokens w w _ (inr (failed refl)) (ih w)
    after-Traces n tokens w panic h ih = tt

    loop-Traces :
        (n : ℕ) (initial : Bool) (tokens : Amounts) (w : W)
        → Traces tokens w (loop transitive sk target threshold vs d n initial tokens w)
    unfolding rebalance_loop
    loop-Traces zero initial tokens w = (refl, refl)
    loop-Traces (suc n) initial tokens w =
        let k = (gap_at transitive sk target threshold vs d tokens).amount_needed in
        rw (loop_step transitive sk target threshold vs d n initial tokens w)
          (elim (Bool-cases ((k == 0) || (initial && leb k threshold))) [
            | inl b ↦ rw b (refl, refl)
            | inr b ↦ rw b (after-Traces n tokens w _ refl (λ w'. loop-Traces n false _ w'))
          ])

  module _ (dec : DecOps) (weight tokens : Amounts) (trigger : ℕ) where
    pub rebalance-Traces :
        (vs : List LiquidValidator) (w : W)
        → IsDistinct vs
        → Traces tokens w (rebalance transitive sk dec weight tokens trigger vs w)
    unfolding rebalance
    rebalance-Traces vs w d =
        let run =
          loop-Traces (target_map vs weight tokens)
            (rebalancing_threshold transitive sk dec weight tokens trigger vs) vs d (length vs) true
            tokens w in
        elim (Bool-cases (total_of vs tokens == 0)) [
          | inl a ↦ rw a (refl, refl)
          | inr a ↦ rw a (elim (Bool-cases (total_of vs weight == 0)) [
            | inl b ↦ rw b (refl, refl)
            | inr b ↦ rw b (elim (Bool-cases (total_of vs (target_shares vs weight tokens) == 0)) [
              | inl c ↦ rw c (refl, refl)
              | inr c ↦ rw c run
            ])
          ])
        ]
