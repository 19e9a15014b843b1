-- ===== src/Stake/Rebalance/Loop.antt =====
-- The loop of the rebalancing ends with every validator at its target.
use pstake_native_test.Base.{
  ℕ, ◌+◌, ◌-◌, ◌≤◌, ◌<◌, ◌≡◌, ◌≢◌, ◌⊎◌, inl, inr, refl, sym, ap, true, false, List, [], ◌∷◌, arith,
  if◌then◌else◌, ◌==◌, Bool-cases, sum_by,
}
use pstake_native_test.Base.Text.{Bytes, same, same_iff, same_refl}
use pstake_native_test.Stake.Types.{LiquidValidator}
use pstake_native_test.Stake.Rebalance.{Amounts, assign}
use pstake_native_test.Stake.Rebalance.Gaps.{listed}
use pstake_native_test.Stake.Rebalance.Next.{IsNext}

-- The addresses are different.
abbrev pub IsDistinct : List LiquidValidator → Type 0
IsDistinct [] = Unit
IsDistinct (v ∷ vs) = (listed v.operator_address vs ≡ false) × IsDistinct vs

abbrev pub sum_over : Amounts → List LiquidValidator → ℕ
sum_over m vs = sum_by (λ v. m v.operator_address) vs

-- One if the two amounts differ; for a validator, whether it is off its target.
abbrev pub off_by : ℕ → ℕ → ℕ
off_by a b = if a == b then 0 else 1

abbrev pub off_target : Amounts → Amounts → Amounts
off_target target tokens a = off_by (tokens a) (target a)

pub assign_self : (a : Bytes) (n : ℕ) (m : Amounts) → assign a n m a ≡ n
unfolding assign
assign_self a n m = rw (same_refl a) refl

assign_other : (a b : Bytes) (n : ℕ) (m : Amounts) → same a b ≡ false → assign a n m b ≡ m b
unfolding assign
assign_other a b n m h = rw h refl

-- Two maps that agree but at one address.
unfoldable pub AgreeBut : Bytes → Amounts → Amounts → Type 0
AgreeBut a f g = (b : Bytes) → (same a b ≡ true) ⊎ (f b ≡ g b)

sum_unlisted :
    (a : Bytes) (f g : Amounts) (vs : List LiquidValidator)
    → AgreeBut a f g
    → listed a vs ≡ false
    → sum_over g vs ≡ sum_over f vs
unfolding AgreeBut
sum_unlisted a f g [] agree l = refl
sum_unlisted a f g (v ∷ vs) agree l = ground (
  arith,
  agree v.operator_address,
  sum_unlisted a f g vs agree,
  same_iff a v.operator_address,
  same_refl v.operator_address,
)

pub sum_listed :
    (a : Bytes) (f g : Amounts) (vs : List LiquidValidator)
    → AgreeBut a f g
    → IsDistinct vs
    → listed a vs ≡ true
    → sum_over g vs + f a ≡ sum_over f vs + g a
unfolding AgreeBut
sum_listed a f g [] agree d l = cc l
sum_listed a f g (v ∷ vs) agree (d, ds) l = elim (Bool-cases (same v.operator_address a)) [
  | inl b ↦
      let e : v.operator_address ≡ a = ground (arith, same_iff v.operator_address a) in
      let free : listed a vs ≡ false = rw (sym e) d in
      omega (arith, ap f e, ap g e, sum_unlisted a f g vs agree free)
  | inr b ↦ ground (
    arith,
    agree v.operator_address,
    same_iff a v.operator_address,
    same_iff v.operator_address a,
    sum_listed a f g vs agree ds,
  )
]

pub assign-AgreeBut : (a : Bytes) (n : ℕ) (m : Amounts) → AgreeBut a m (assign a n m)
unfolding AgreeBut assign
assign-AgreeBut a n m b = ground arith

off-AgreeBut :
    (target tokens : Amounts) (a : Bytes) (n : ℕ)
    → AgreeBut a (off_target target tokens) (off_target target (assign a n tokens))
unfolding AgreeBut assign
off-AgreeBut target tokens a n b = ground arith

off_one : (a b : ℕ) → a ≢ b → off_by a b ≡ 1
off_one a b h = ground arith

off_zero : (a b : ℕ) → a ≡ b → off_by a b ≡ 0
off_zero a b h = ground arith

off_le : (a b : ℕ) → off_by a b ≤ 1
off_le a b = ground arith

-- A map after the amount `k` has gone from one address to another.
abbrev pub shift : Bytes → Bytes → ℕ → Amounts → Amounts
shift max min k tokens =
    let less = assign max (tokens max - k) tokens in assign min (less min + k) less

module _ (target tokens : Amounts) (vs : List LiquidValidator) (distinct : IsDistinct vs)
    (max min : Bytes) (k : ℕ) (some_amount : 0 < k) (next : IsNext target tokens vs max min k) where
  abbrev less : Amounts
  less = assign max (tokens max - k) tokens

  apart : same max min ≡ false
  apart = elim (Bool-cases (same max min)) [
    | inl b ↦
        let e : max ≡ min = ground (arith, same_iff max min) in
        absurd (omega (arith, next.above, next.below, ap tokens e, ap target e))
    | inr b ↦ b
  ]

  pub shift_total : sum_over (shift max min k tokens) vs ≡ sum_over tokens vs
  shift_total = omega (
    arith,
    next.above,
    sum_listed max tokens less vs (assign-AgreeBut max _ tokens) distinct next.max_listed,
    sum_listed min less (assign min (less min + k) less) vs (assign-AgreeBut min _ less) distinct
        next.min_listed,
    assign_self max (tokens max - k) tokens,
    assign_self min (less min + k) less,
  )

  -- One validator at least gets to its target.
  pub shift_settles :
      sum_over (off_target target (shift max min k tokens)) vs + 1
      ≤ sum_over (off_target target tokens) vs
  shift_settles =
      let off = off_target target tokens in
      let off1 = off_target target less in
      let off2 = off_target target (shift max min k tokens) in
      let low : less min ≡ tokens min = assign_other max min (tokens max - k) tokens apart in
      let at_max : less max ≡ tokens max - k = assign_self max (tokens max - k) tokens in
      let at_min : shift max min k tokens min ≡ less min + k =
        assign_self min (less min + k) less in
      let was_max : off max ≡ 1 = off_one (tokens max) (target max) (omega (arith, next.above)) in
      let was_min : off1 min ≡ 1 =
        off_one (less min) (target min) (omega (arith, next.below, low)) in
      let one_settled : off1 max + off2 min ≤ 1 = elim next.settles [
        | inl e ↦ omega (
          arith,
          off_zero (less max) (target max) (omega (arith, at_max, e)),
          off_le (shift max min k tokens min) (target min),
        )
        | inr e ↦ omega (
          arith,
          off_zero (shift max min k tokens min) (target min) (omega (arith, at_min, low, e)),
          off_le (less max) (target max),
        )
      ] in
      omega (
        arith,
        sum_listed max off off1 vs (off-AgreeBut target tokens max (tokens max - k)) distinct
            next.max_listed,
        sum_listed min off1 off2 vs (off-AgreeBut target less min (less min + k)) distinct
            next.min_listed,
      )
