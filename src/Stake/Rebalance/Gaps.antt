-- ===== src/Stake/Rebalance/Gaps.antt =====
-- What the loop of `MinMaxGap` finds: the largest and the smallest gap, with their validators.
use pstake_native_test.Base.{
  ◌≡◌, ◌⊎◌, inl, inr, refl, sym, ◌∙◌, ap, Bool, true, false, ◌||◌, List, [], ◌∷◌, All, arith,
  if◌then◌else◌,
}
use pstake_native_test.Base.Int.{ℤ, pos_part, neg_part, ◌≤ℤ◌, ltb_ℤ}
use pstake_native_test.Base.Text.{Bytes, same, same_refl}
use pstake_native_test.Stake.Types.{LiquidValidator}
use pstake_native_test.Stake.Rebalance.{
  Amounts, Extremes, gap_of, raise_max, lower_min, extremes_from,
}

-- Is the address one of the validators'?
abbrev pub listed : Bytes → List LiquidValidator → Bool
listed a [] = false
listed a (v ∷ vs) = same v.operator_address a || listed a vs

module _ (target tokens : Amounts) where
  abbrev pub gap : LiquidValidator → ℤ
  gap v = gap_of target tokens v

  -- An extreme is the one from before, or a listed validator's gap.
  abbrev pub IsFrom : ℤ → LiquidValidator → ℤ → LiquidValidator → List LiquidValidator → Type 0
  IsFrom g v g' v' vs =
      ((g' ≡ g) × (v' ≡ v)) ⊎ ((listed v'.operator_address vs ≡ true) × (g' ≡ gap v'))

  abbrev pub Bounds : List LiquidValidator → Extremes → Extremes → Type 0
  Bounds vs e e' =
      (e.max_gap ≤ℤ e'.max_gap)
      × (e'.min_gap ≤ℤ e.min_gap)
      × All (λ v. (gap v ≤ℤ e'.max_gap) × (e'.min_gap ≤ℤ gap v)) vs

  raise_bounds :
      (g : ℤ) (v : LiquidValidator) (e : Extremes)
      → (e.max_gap ≤ℤ (raise_max g v e).max_gap) × (g ≤ℤ (raise_max g v e).max_gap)
  unfolding raise_max
  raise_bounds g v e = (ground arith, ground arith)

  raise_rest :
      (g : ℤ) (v : LiquidValidator) (e : Extremes)
      → ((raise_max g v e).min_gap ≡ e.min_gap) × ((raise_max g v e).min_val ≡ e.min_val)
  unfolding raise_max
  raise_rest g v e = (ground arith, ground arith)

  raise_from :
      (g : ℤ) (v : LiquidValidator) (e : Extremes)
      → (((raise_max g v e).max_gap ≡ e.max_gap) × ((raise_max g v e).max_val ≡ e.max_val))
        ⊎ (((raise_max g v e).max_gap ≡ g) × ((raise_max g v e).max_val ≡ v))
  unfolding raise_max
  raise_from g v e =
      elim (ltb_ℤ e.max_gap g)
        as (λ b.
          (((if b then record e { max_gap = g; max_val = v } else e).max_gap ≡ e.max_gap)
            × ((if b then record e { max_gap = g; max_val = v } else e).max_val ≡ e.max_val))
          ⊎ (((if b then record e { max_gap = g; max_val = v } else e).max_gap ≡ g)
              × ((if b then record e { max_gap = g; max_val = v } else e).max_val ≡ v))) [
                | true ↦ inr (refl, refl)
                | false ↦ inl (refl, refl)
              ]

  lower_bounds :
      (g : ℤ) (v : LiquidValidator) (e : Extremes)
      → ((lower_min g v e).min_gap ≤ℤ e.min_gap) × ((lower_min g v e).min_gap ≤ℤ g)
  unfolding lower_min
  lower_bounds g v e = (ground arith, ground arith)

  lower_rest :
      (g : ℤ) (v : LiquidValidator) (e : Extremes)
      → ((lower_min g v e).max_gap ≡ e.max_gap) × ((lower_min g v e).max_val ≡ e.max_val)
  unfolding lower_min
  lower_rest g v e = (ground arith, ground arith)

  lower_from :
      (g : ℤ) (v : LiquidValidator) (e : Extremes)
      → (((lower_min g v e).min_gap ≡ e.min_gap) × ((lower_min g v e).min_val ≡ e.min_val))
        ⊎ (((lower_min g v e).min_gap ≡ g) × ((lower_min g v e).min_val ≡ v))
  unfolding lower_min
  lower_from g v e =
      elim (ltb_ℤ g e.min_gap)
        as (λ b.
          (((if b then record e { min_gap = g; min_val = v } else e).min_gap ≡ e.min_gap)
            × ((if b then record e { min_gap = g; min_val = v } else e).min_val ≡ e.min_val))
          ⊎ (((if b then record e { min_gap = g; min_val = v } else e).min_gap ≡ g)
              × ((if b then record e { min_gap = g; min_val = v } else e).min_val ≡ v))) [
                | true ↦ inr (refl, refl)
                | false ↦ inl (refl, refl)
              ]

  -- One validator more.
  abbrev step : LiquidValidator → Extremes → Extremes
  step v e = lower_min (gap v) v (raise_max (gap v) v e)

  IsFrom-cons :
      (v v0 : LiquidValidator) {g g1 g' : ℤ} {v1 v' : LiquidValidator} (vs : List LiquidValidator)
      → IsFrom g1 v1 g' v' vs
      → ((g1 ≡ g) × (v1 ≡ v0)) ⊎ ((g1 ≡ gap v) × (v1 ≡ v))
      → IsFrom g v0 g' v' (v ∷ vs)
  IsFrom-cons v v0 vs (inr (l, e)) k = inr (ground arith, e)
  IsFrom-cons v v0 vs (inl (a, b)) (inl (c, d)) = inl (a ∙ c, b ∙ d)
  IsFrom-cons v v0 vs (inl (a, b)) (inr (c, d)) =
      inr (rw (b ∙ d, same_refl v.operator_address) refl, a ∙ c ∙ ap gap (sym (b ∙ d)))

  pub extremes-Bounds :
      (vs : List LiquidValidator) (e : Extremes) → Bounds vs e (extremes_from target tokens vs e)
  unfolding extremes_from
  extremes-Bounds [] e = (omega arith, omega arith, tt)
  extremes-Bounds (v ∷ vs) e =
      let (max_le, min_le, all) = extremes-Bounds vs (step v e) in
      let r = raise_max (gap v) v e in
      let kept = (lower_rest (gap v) v r).0 in
      let kept_min = (raise_rest (gap v) v e).0 in
      (
        omega (arith, raise_bounds (gap v) v e, ap pos_part kept, ap neg_part kept, max_le),
        omega (arith, ap pos_part kept_min, ap neg_part kept_min, lower_bounds (gap v) v r, min_le),
        (
          (
            omega (arith, raise_bounds (gap v) v e, ap pos_part kept, ap neg_part kept, max_le),
            omega (arith, lower_bounds (gap v) v r, min_le),
          ),
          all,
        ),
      )

  pub extremes_max :
      (vs : List LiquidValidator) (e : Extremes)
      → IsFrom e.max_gap e.max_val
          (extremes_from target tokens vs e).max_gap
          (extremes_from target tokens vs e).max_val
          vs
  unfolding extremes_from
  extremes_max [] e = inl (refl, refl)
  extremes_max (v ∷ vs) e =
      let r = raise_max (gap v) v e in
      IsFrom-cons v e.max_val vs (extremes_max vs (step v e)) (elim (raise_from (gap v) v e) [
        | inl (a, b) ↦ inl ((lower_rest (gap v) v r).0 ∙ a, (lower_rest (gap v) v r).1 ∙ b)
        | inr (a, b) ↦ inr ((lower_rest (gap v) v r).0 ∙ a, (lower_rest (gap v) v r).1 ∙ b)
      ])

  pub extremes_min :
      (vs : List LiquidValidator) (e : Extremes)
      → IsFrom e.min_gap e.min_val
          (extremes_from target tokens vs e).min_gap
          (extremes_from target tokens vs e).min_val
          vs
  unfolding extremes_from
  extremes_min [] e = inl (refl, refl)
  extremes_min (v ∷ vs) e =
      let r = raise_max (gap v) v e in
      IsFrom-cons v e.min_val vs (extremes_min vs (step v e)) (elim (lower_from (gap v) v r) [
        | inl (a, b) ↦ inl (a ∙ (raise_rest (gap v) v e).0, b ∙ (raise_rest (gap v) v e).1)
        | inr (a, b) ↦ inr (a, b)
      ])
