-- ===== src/Ibc/CValue/Limits.antt =====
-- What an update of the value leaves of a host chain: the ratio, the limits around it, the flag.
use mathlib.Core.Path.{subst}
use pstake_native_test.Base.{
  zero, leb, ℕ, suc, ◌+◌, ◌-◌, ◌*◌, ◌≤◌, ◌<◌, ◌≡◌, ◌⊎◌, inl, inr, refl, sym, ◌∙◌, ap, Bool, true,
  false, ◌&&◌, ◌||◌, ◌==◌, if◌then◌else◌, arith, Bool-cases,
}
use pstake_native_test.Base.Int.{ltb_ℤ, pos_part, ◌+ℤ◌, pos, ◌-ℤ◌, ◌≤ℤ◌, int_laws}
use pstake_native_test.Sdk.Dec.{DecOps, DecLaws, one, of_int}
use pstake_native_test.Ibc.Types.{HostChain}
use pstake_native_test.Ibc.CValue.{
  c_value_within_limits, mul, c_value_of, new_lower_limit, new_upper_limit,
  recalculate_c_value_limits, with_limits, with_c_value, checked,
}

-- The value is the ratio of the two amounts, within half a unit, or one if either is zero.
abbrev pub IsRatio : ℕ → ℕ → ℕ → Type 0
IsRatio minted liquid c =
    (((minted ≡ 0) ⊎ (liquid ≡ 0)) × (c ≡ one))
    ⊎ ((2 * (c * of_int liquid) ≤ 2 * (of_int minted * one) + of_int liquid)
        × (2 * (of_int minted * one) ≤ 2 * (c * of_int liquid) + of_int liquid))

-- The value is below the upper limit and above the lower one.
abbrev pub within : HostChain → Bool
within hc =
    ltb_ℤ (pos hc.c_value) hc.params.upper_c_value_limit
    && ltb_ℤ hc.params.lower_c_value_limit (pos hc.c_value)

-- The lower limit is the ratio to what is held with twice what is staked and compounded, and the upper
-- one is ten times as far from the value.
abbrev pub lower_limit : DecOps → HostChain → ℕ → ℕ → ℕ → ℕ
lower_limit dec hc minted liquid staked =
    let compounded = pos_part (dec.mul (pos (of_int staked)) (pos hc.auto_compound_factor)) in
    dec.quo (of_int minted) (of_int liquid + pos_part (dec.mul (pos compounded) (pos (of_int 2))))

-- When the value was out of its limits or nothing is staked, they stand; else they are set around it.
abbrev pub AroundValue : DecOps → HostChain → ℕ → ℕ → ℕ → Bool → HostChain → Type 0
AroundValue dec hc minted liquid staked inside hc' =
    ((hc'.params ≡ hc.params) × ((inside ≡ false) ⊎ (staked ≡ 0)))
    ⊎ ((inside ≡ true)
        × (0 < staked)
        × (hc'.params ≡ record hc.params {
          lower_c_value_limit = pos (lower_limit dec hc minted liquid staked);
          upper_c_value_limit =
              pos hc'.c_value
              +ℤ dec.mul (pos hc'.c_value -ℤ pos (lower_limit dec hc minted liquid staked))
                  (pos (of_int 10));
        })
        × (hc'.params.lower_c_value_limit ≤ℤ pos hc'.c_value)
        × (pos hc'.c_value ≤ℤ hc'.params.upper_c_value_limit))

-- What the check of the value leaves as it is, and the flag when the value is within its limits or not.
abbrev pub Rest : HostChain → Bool → HostChain → Type 0
Rest hc within hc' =
    (hc'.last_c_value ≡ hc.last_c_value)
    × (hc'.c_value ≡ hc.c_value)
    × (hc'.active ≡ (hc.active && within))
    × (hc'.chain_id ≡ hc.chain_id)
    × (hc'.validators ≡ hc.validators)

pub record Updates (dec : DecOps) (hc : HostChain) (minted liquid staked : ℕ) (hc' : HostChain)
    : Type 0 where
  pub last : hc'.last_c_value ≡ hc.c_value
  pub value : IsRatio minted liquid hc'.c_value
  pub limits :
      AroundValue dec hc minted liquid staked (within (record hc { c_value = hc'.c_value })) hc'
  -- A chain stays active when the value is within its limits, and is never made active.
  pub activity : hc'.active ≡ (hc.active && within (record hc { c_value = hc'.c_value }))
  pub chain : hc'.chain_id ≡ hc.chain_id
  pub validators : hc'.validators ≡ hc.validators

-- The nearest quotient by a larger divisor is not larger.
nearest_far :
    (a b d q t : ℕ)
    → 0 < d
    → 2 * ((q + 1 + t) * (b + d)) ≤ 2 * a + (b + d)
    → 2 * a ≤ 2 * (q * b) + b
    → ⊥
nearest_far a b d q t h1 h2 h3 = omega arith

nearest_mono :
    (a b d q r : ℕ) → 0 < d → 2 * (r * (b + d)) ≤ 2 * a + (b + d) → 2 * a ≤ 2 * (q * b) + b → r ≤ q
nearest_mono a b d q r h1 h2 h3 = elim (Bool-cases (leb r q)) [
  | inl e ↦ ground arith
  | inr e ↦
      let t = r - (q + 1) in
      let eq : r ≡ q + 1 + t = ground arith in
      absurd (nearest_far a b d q t h1 (subst (λ n. 2 * (n * (b + d)) ≤ 2 * a + (b + d)) eq h2) h3)
]

zero_quotient : (b q : ℕ) → 0 < b → 2 * (q * b) ≤ 2 * (0 * one) + b → q ≡ 0
zero_quotient b zero h k = refl
zero_quotient b (suc q) h k = omega arith

module _ (dec : DecOps) (laws : DecLaws dec) where
  -- A larger divisor gives no larger quotient.
  quo_mono : (a b d : ℕ) → 0 < b → dec.quo a (b + d) ≤ dec.quo a b
  quo_mono a b zero h =
      let same_divisor : b + 0 ≡ b = omega arith in
      subst (λ n. dec.quo a n ≤ dec.quo a b) (sym same_divisor) (omega arith)
  quo_mono a b (suc d) h =
      nearest_mono (a * one) b (suc d) (dec.quo a b) (dec.quo a (b + suc d)) (omega arith)
        ((laws.quo_nearest a (b + suc d) (omega arith)).0) ((laws.quo_nearest a b h).1)

  quo_zero : (b : ℕ) → 0 < b → dec.quo 0 b ≡ 0
  quo_zero b h = zero_quotient b (dec.quo 0 b) h (laws.quo_nearest 0 b h).0

  c_value_of-IsRatio : (minted liquid : ℕ) → IsRatio minted liquid (c_value_of dec minted liquid)
  unfolding c_value_of
  c_value_of-IsRatio m l = elim (Bool-cases (m == 0 || l == 0)) [
    | inl z ↦ rw z (inl (ground arith, refl))
    | inr z ↦ rw z (inr (laws.quo_nearest (of_int m) (of_int l) (ground arith)))
  ]

  lower_limit_bound :
      (hc : HostChain) (minted liquid staked : ℕ)
      → 0 < liquid
      → new_lower_limit dec hc minted liquid staked ≤ c_value_of dec minted liquid
  unfolding new_lower_limit c_value_of
  lower_limit_bound hc zero l st h =
      let diff = mul dec (mul dec (of_int st) hc.auto_compound_factor) (of_int 2) in
      rw (quo_zero (of_int l + diff) (omega arith)) (omega arith)
  lower_limit_bound hc (suc m) l st h =
      let some_liquid : (suc m == 0 || l == 0) ≡ false = ground arith in
      let diff = mul dec (mul dec (of_int st) hc.auto_compound_factor) (of_int 2) in
      rw some_liquid (quo_mono (of_int (suc m)) (of_int l) diff (omega arith))

  upper_limit_bound : (c lower : ℕ) → lower ≤ c → pos c ≤ℤ new_upper_limit dec c lower
  unfolding new_upper_limit
  upper_limit_bound c lower h =
      let e : pos c -ℤ pos lower ≡ pos (c - lower) = omega int_laws in
      rw (e, laws.mul_nonneg (c - lower) (of_int 10)) (omega int_laws)

  with_limits-AroundValue :
      (hc : HostChain) (minted liquid staked : ℕ)
      → new_lower_limit dec hc minted liquid staked ≤ hc.c_value
      → 0 < staked
      → AroundValue dec hc minted liquid staked true (with_limits dec hc minted liquid staked)
  unfolding with_limits new_lower_limit new_upper_limit
  with_limits-AroundValue hc m l st h p =
      inr (refl, p, refl, omega (arith, h), upper_limit_bound hc.c_value _ h)

  recalculate-AroundValue :
      (hc : HostChain) (minted liquid staked : ℕ)
      → staked ≤ liquid
      → hc.c_value ≡ c_value_of dec minted liquid
      → AroundValue dec hc minted liquid staked true
          (recalculate_c_value_limits dec hc minted liquid staked)
  unfolding recalculate_c_value_limits
  recalculate-AroundValue hc m l st h e = elim (Bool-cases (st == 0)) [
    | inl z ↦
        subst (λ b. AroundValue dec hc m l st true (if b then hc else with_limits dec hc m l st))
          (sym z) (inl (refl, inr (ground arith)))
    | inr z ↦
        let some_liquid : 0 < l = ground arith in
        let below : new_lower_limit dec hc m l st ≤ hc.c_value =
          rw e (lower_limit_bound hc m l st some_liquid) in
        subst (λ b. AroundValue dec hc m l st true (if b then hc else with_limits dec hc m l st))
          (sym z) (with_limits-AroundValue hc m l st below (ground arith))
  ]

  -- The chain after the check of its value.
  checked-AroundValue :
      (hc : HostChain) (minted liquid staked : ℕ)
      → staked ≤ liquid
      → hc.c_value ≡ c_value_of dec minted liquid
      → AroundValue dec hc minted liquid staked (within hc) (checked dec hc minted liquid staked)
  unfolding checked c_value_within_limits
  checked-AroundValue hc m l st h e =
      elim (within hc)
        as (λ w.
          AroundValue dec hc m l st w (
            if w then recalculate_c_value_limits dec hc m l st else record hc { active = false })) [
              | true ↦ recalculate-AroundValue hc m l st h e
              | false ↦ inl (refl, inl refl)
            ]

  recalculate-Rest :
      (hc : HostChain) (m l st : ℕ) → Rest hc true (recalculate_c_value_limits dec hc m l st)
  unfolding recalculate_c_value_limits with_limits
  recalculate-Rest hc m l st =
      elim (st == 0) as (λ z. Rest hc true (if z then hc else with_limits dec hc m l st)) [
        | true ↦ (refl, refl, ground arith, refl, refl)
        | false ↦ (refl, refl, ground arith, refl, refl)
      ]

  pub checked-Rest :
      (hc : HostChain) (m l st : ℕ) → Rest hc (c_value_within_limits hc) (checked dec hc m l st)
  unfolding checked
  checked-Rest hc m l st =
      elim (c_value_within_limits hc)
        as (λ w.
          Rest hc w (
            if w then recalculate_c_value_limits dec hc m l st else record hc { active = false })) [
              | true ↦ recalculate-Rest hc m l st
              | false ↦ (refl, refl, ground arith, refl, refl)
            ]

  pub checked-Updates :
      (hc : HostChain) (minted liquid staked : ℕ)
      → staked ≤ liquid
      → Updates dec hc minted liquid staked
          (checked dec (with_c_value dec hc minted liquid) minted liquid staked)
  unfolding with_c_value c_value_within_limits
  checked-Updates hc m l st h =
      let hc1 = with_c_value dec hc m l in
      let rest = checked-Rest hc1 m l st in
      record {
        last = rest.0;
        value = subst (IsRatio m l) (sym (rest.1)) (c_value_of-IsRatio m l);
        limits =
            subst
              (λ c.
                AroundValue dec hc m l st (within (record hc { c_value = c }))
                  (checked dec hc1 m l st))
              (sym rest.1) (checked-AroundValue hc1 m l st h refl);
        activity = rest.2 ∙ ap (λ c. hc.active && within (record hc { c_value = c })) (sym rest.1);
        chain = rest.3;
        validators = rest.4;
      }
