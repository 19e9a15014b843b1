-- ===== src/Ibc/Strategy/Weights.antt =====
-- Validators that take no delegations: the others share their weight, and the messages are made for
-- the others alone.
use mathlib.Core.Path.{ap₂, subst}
use pstake_native_test.Base.{
  Bool, true, err, Outcome, ℕ, ◌+◌, ◌*◌, ◌≤◌, ◌<◌, ◌≡◌, refl, sym, ap, ◌∙◌, not, false, List, [],
  ◌∷◌, map, arith, ltb, if◌then◌else◌, select, sum_by, sum_by-select, sum_by-map, select-cons_true,
  select-cons_false, length, Bool-cases, inl, inr,
}
use pstake_native_test.Base.Int.{ℤ, pos, +ℤ_assoc, +ℤ_swap, +ℤ_cancel, ◌-ℤ◌, ◌+ℤ◌, int_laws}
use pstake_native_test.Sdk.Dec.{DecOps, DecLaws, one}
use pstake_native_test.Ibc.Types.{Error, invalid_messages, HostChain, Validator}
use pstake_native_test.Ibc.Strategy.{
  Message, total_from, get_host_chain_total_delegations, add_weight, is_delegable, not_delegable,
  weight_of, share_weights, delegate_to, generate_messages, generate_delegate_messages,
}
use pstake_native_test.Ibc.Strategy.Exact.{GeneratesFor, nobody, generate_messages-Generates}

-- the weights of the delegable validators, one by one
shared :
    (delta : ℕ) (vs : List Validator)
    → sum_by
        (λ v. if is_delegable (add_weight delta v) then weight_of (add_weight delta v) else 0)
        vs
      ≡ sum_by (λ v. if is_delegable v then weight_of v else 0) vs
        + delta * length (select is_delegable vs)
shared delta [] = omega arith
shared delta (v ∷ vs) =
    let scaled = λ (n : ℕ). delta * n in
    elim (Bool-cases v.delegable) [
      | inl b ↦
          let more : weight_of (add_weight delta v) ≡ v.weight + delta = ground arith in
          ground (
            arith,
            more,
            shared delta vs,
            ap (λ l. scaled (length l)) (select-cons_true is_delegable v vs b),
          )
      | inr b ↦ ground (
        arith,
        shared delta vs,
        ap (λ l. scaled (length l)) (select-cons_false is_delegable v vs b),
      )
    ]

sum-add_weight :
    (delta : ℕ) (vs : List Validator)
    → sum_by weight_of (select is_delegable (map (add_weight delta) vs))
      ≡ sum_by weight_of (select is_delegable vs) + delta * length (select is_delegable vs)
sum-add_weight delta vs = omega (
  arith,
  sum_by-select weight_of is_delegable (map (add_weight delta) vs),
  sum_by-map (λ v. if is_delegable v then weight_of v else 0) (add_weight delta) vs,
  shared delta vs,
  sum_by-select weight_of is_delegable vs,
)

sum_weights-split :
    (vs : List Validator)
    → sum_by weight_of vs
      ≡ sum_by weight_of (select is_delegable vs) + sum_by weight_of (select not_delegable vs)
sum_weights-split [] = refl
sum_weights-split (v ∷ vs) = ground (arith, sum_weights-split vs)

pub total_from-+ℤ : (a b : ℤ) (vs : List Validator) → total_from (a +ℤ b) vs ≡ a +ℤ total_from b vs
unfolding total_from
total_from-+ℤ a b [] = refl
total_from-+ℤ a b (v ∷ vs) =
    ap (λ s. total_from s vs) (omega int_laws) ∙ total_from-+ℤ a (b +ℤ v.delegated_amount) vs

total_from-cons :
    (v : Validator) (vs : List Validator)
    → total_from (pos 0) (v ∷ vs) ≡ v.delegated_amount +ℤ total_from (pos 0) vs
unfolding total_from
total_from-cons v vs =
    ap (λ s. total_from s vs) (omega int_laws) ∙ total_from-+ℤ v.delegated_amount (pos 0) vs

total_from_zero : total_from (pos 0) [] ≡ total_from (pos 0) [] +ℤ total_from (pos 0) []
unfolding total_from ◌+ℤ◌
total_from_zero = refl

total_from-split :
    (vs : List Validator)
    → total_from (pos 0) vs
      ≡ total_from (pos 0) (select is_delegable vs) +ℤ total_from (pos 0) (select not_delegable vs)
total_from-split [] = total_from_zero
total_from-split (v ∷ vs) =
    let total = total_from (pos 0) in
    let begin = total_from-cons v vs ∙ ap (v.delegated_amount +ℤ◌) (total_from-split vs) in
    elim (Bool-cases v.delegable) [
      | inl b ↦
          begin
          ∙ sym (+ℤ_assoc v.delegated_amount (total (select is_delegable vs)) _)
          ∙ sym (
              ap₂ ◌+ℤ◌ (ap total (select-cons_true is_delegable v vs b) ∙ total_from-cons v _)
                (ap total (select-cons_false not_delegable v vs (ap not b))))
      | inr b ↦
          begin
          ∙ +ℤ_swap v.delegated_amount (total (select is_delegable vs)) _
          ∙ sym (
              ap₂ ◌+ℤ◌ (ap total (select-cons_false is_delegable v vs b))
                (ap total (select-cons_true not_delegable v vs (ap not b)) ∙ total_from-cons v _))
    ]

-- Sharing changes weights only.
total_from-add_weight :
    (delta : ℕ) (s : ℤ) (vs : List Validator)
    → total_from s (map (add_weight delta) vs) ≡ total_from s vs
unfolding total_from
total_from-add_weight delta s [] = refl
total_from-add_weight delta s (v ∷ vs) =
    ap (λ a. total_from (s +ℤ a) (map (add_weight delta) vs)) (ground arith)
    ∙ total_from-add_weight delta (s +ℤ v.delegated_amount) vs

-- The delegable validators' new weights add up to the old weights of all the validators, but for
-- the rounding of the shares: half a unit for each delegable validator at most.
pub share_weights_total :
    (dec : DecOps) (laws : DecLaws dec) (hc : HostChain)
    → 0 < length (select is_delegable hc.validators)
    → let n = length (select is_delegable hc.validators) in
      let before = sum_by weight_of hc.validators in
      let after = sum_by weight_of (select is_delegable (share_weights dec hc).validators) in
      (2 * after ≤ 2 * before + n) × (2 * before ≤ 2 * after + n)
unfolding share_weights
share_weights_total dec laws hc some_delegable =
    let vs = hc.validators in
    let n = length (select is_delegable vs) in
    let idle = sum_by weight_of (select not_delegable vs) in
    let delta = dec.quo idle (n * one) in
    elim (Bool-cases (ltb 0 idle)) [
      | inl b ↦ rw b (
          omega (
            arith,
            sum-add_weight delta vs,
            sum_weights-split vs,
            laws.quo_nearest idle (n * one) (omega arith),
          ))
      | inr b ↦
          let none_idle : idle ≡ 0 = ground arith in
          rw b (omega (arith, sum_weights-split vs, none_idle))
    ]

share_weights-delegations :
    (dec : DecOps) (hc : HostChain)
    → get_host_chain_total_delegations (share_weights dec hc) ≡ get_host_chain_total_delegations hc
unfolding share_weights get_host_chain_total_delegations
share_weights-delegations dec hc =
    let idle = sum_by weight_of (select not_delegable hc.validators) in
    elim (Bool-cases (ltb 0 idle)) [
      | inl b ↦ rw b (total_from-add_weight _ (pos 0) hc.validators)
      | inr b ↦ rw b
    ]

delegate_to-delegations :
    (dec : DecOps) (hc : HostChain) (amount : ℕ) (vs : List Validator)
    → get_host_chain_total_delegations (delegate_to dec hc amount vs).0
      ≡ get_host_chain_total_delegations hc
delegate_to-delegations dec hc amount [] = refl
delegate_to-delegations dec hc amount (v ∷ vs) = share_weights-delegations dec hc

-- What the validators that do take delegations hold.
abbrev pub delegable_total : HostChain → ℤ
delegable_total hc = total_from (pos 0) (select is_delegable hc.validators)

effective_total :
    (dec : DecOps) (hc : HostChain)
    → get_host_chain_total_delegations (share_weights dec hc)
        -ℤ total_from (pos 0) (select not_delegable hc.validators)
      ≡ delegable_total hc
unfolding get_host_chain_total_delegations
effective_total dec hc =
    ap (λ t. t -ℤ total_from (pos 0) (select not_delegable hc.validators))
      (share_weights-delegations dec hc ∙ total_from-split hc.validators)
    ∙ +ℤ_cancel (delegable_total hc) _

-- Every validator that takes delegations has `delta` more weight.
abbrev pub raised : ℕ → Validator → Validator
raised delta v = record v { weight = if v.delegable then v.weight + delta else v.weight }

-- The validators that take delegations share the weights of the others, but for the rounding.
abbrev pub Shared : HostChain → HostChain → ℕ → Type 0
Shared hc hc' delta =
    let n = length (select is_delegable hc.validators) in
    let idle = sum_by weight_of (select not_delegable hc.validators) in
    (hc' ≡ record hc { validators = map (raised delta) hc.validators })
    × (0 < n → (2 * (delta * n) ≤ 2 * idle + n) × (2 * idle ≤ 2 * (delta * n) + n))

add_weight-raised : (delta : ℕ) (v : Validator) → add_weight delta v ≡ raised delta v
add_weight-raised delta v = elim (Bool-cases v.delegable) [ inl b ↦ rw b refl | inr b ↦ rw b refl ]

map-raised : (delta : ℕ) (vs : List Validator) → map (add_weight delta) vs ≡ map (raised delta) vs
map-raised delta [] = refl
map-raised delta (v ∷ vs) = ap₂ ◌∷◌ (add_weight-raised delta v) (map-raised delta vs)

weight_zero : (b : Bool) (w : ℕ) → w ≡ (if b then w + 0 else w)
weight_zero true w = omega arith
weight_zero false w = refl

raised_zero : (vs : List Validator) → vs ≡ map (raised 0) vs
raised_zero [] = refl
raised_zero (v ∷ vs) =
    ap₂ ◌∷◌ (ap (λ w. record v { weight = w }) (weight_zero v.delegable v.weight)) (raised_zero vs)

select-raised :
    (delta : ℕ) (vs : List Validator)
    → select is_delegable (map (raised delta) vs) ≡ map (raised delta) (select is_delegable vs)
select-raised delta [] = refl
select-raised delta (v ∷ vs) = elim (Bool-cases v.delegable) [
  | inl b ↦
      select-cons_true is_delegable (raised delta v) (map (raised delta) vs) b
      ∙ ap (◌∷◌ (raised delta v)) (select-raised delta vs)
      ∙ sym (ap (map (raised delta)) (select-cons_true is_delegable v vs b))
  | inr b ↦
      select-cons_false is_delegable (raised delta v) (map (raised delta) vs) b
      ∙ select-raised delta vs
      ∙ sym (ap (map (raised delta)) (select-cons_false is_delegable v vs b))
]

share_bounds :
    (idle n delta : ℕ)
    → (2 * (delta * (n * one)) ≤ 2 * (idle * one) + n * one)
      × (2 * (idle * one) ≤ 2 * (delta * (n * one)) + n * one)
    → (2 * (delta * n) ≤ 2 * idle + n) × (2 * idle ≤ 2 * (delta * n) + n)
share_bounds idle n delta (h, k) = (omega (arith, h), omega (arith, k))

share_weights-Shared :
    (dec : DecOps) (laws : DecLaws dec) (hc : HostChain)
    → (delta : ℕ) × Shared hc (share_weights dec hc) delta
unfolding share_weights
share_weights-Shared dec laws hc =
    let n = length (select is_delegable hc.validators) in
    let idle = sum_by weight_of (select not_delegable hc.validators) in
    let delta = dec.quo idle (n * one) in
    elim (Bool-cases (ltb 0 idle)) [
      | inl b ↦ rw b (
        delta,
        (
          ap (λ vs. record hc { validators = vs }) (map-raised delta hc.validators),
          λ some_delegable.
              share_bounds idle n (dec.quo idle (n * one))
                (laws.quo_nearest idle (n * one) (omega (arith, some_delegable))),
        ),
      )
      | inr b ↦ rw b (
        0,
        (
          ap (λ vs. record hc { validators = vs }) (raised_zero hc.validators),
          λ some_delegable. (ground arith, ground arith),
        ),
      )
    ]

-- How the messages of a delegation end, for the chain that the caller has afterwards.
abbrev pub GeneratesShared :
    DecOps → HostChain → ℕ → HostChain × Outcome Error (List Message) → Type 0
GeneratesShared dec hc amount (hc', r) =
    (delta : ℕ) × Shared hc hc' delta
    × GeneratesFor dec hc' (map (raised delta) (select is_delegable hc.validators))
        (delegable_total hc) amount false r

delegate_to-Generates :
    (dec : DecOps) (laws : DecLaws dec) (hc : HostChain) (amount : ℕ) (vs : List Validator)
    → vs ≡ select is_delegable hc.validators
    → GeneratesShared dec hc amount (delegate_to dec hc amount vs)
delegate_to-Generates dec laws hc amount [] e = (
  0,
  (
    ap (λ vs. record hc { validators = vs }) (raised_zero hc.validators),
    λ some_delegable. absurd (omega (arith, some_delegable, ap length e)),
  ),
  subst
      (λ vs.
        GeneratesFor dec hc (map (raised 0) vs) (delegable_total hc) amount false
          (err invalid_messages))
      e ([], nobody, (refl, refl)),
)
delegate_to-Generates dec laws hc amount (v ∷ vs) e =
    let hc' = share_weights dec hc in
    let (delta, shares) = share_weights-Shared dec laws hc in
    let takers : select is_delegable hc'.validators
        ≡ map (raised delta) (select is_delegable hc.validators) =
      ap (λ h. select is_delegable h.validators) (shares.0) ∙ select-raised delta hc.validators in
    let generates : (zs : List Validator) (t : ℤ)
        → GeneratesFor dec hc' zs t amount false (generate_messages dec hc' zs t amount false) =
      λ zs t. generate_messages-Generates dec hc' zs t amount false in
    (
      delta,
      shares,
      subst
          (λ t.
            GeneratesFor dec hc' (map (raised delta) (select is_delegable hc.validators)) t amount
              false
              (generate_messages dec hc' (select is_delegable hc'.validators)
                (get_host_chain_total_delegations hc'
                  -ℤ total_from (pos 0) (select not_delegable hc.validators))
                amount false))
          (effective_total dec hc)
          (subst
            (λ zs.
              GeneratesFor dec hc' zs
                (get_host_chain_total_delegations hc'
                  -ℤ total_from (pos 0) (select not_delegable hc.validators))
                amount false
                (generate_messages dec hc' (select is_delegable hc'.validators)
                  (get_host_chain_total_delegations hc'
                    -ℤ total_from (pos 0) (select not_delegable hc.validators))
                  amount false))
            takers (generates _ _)),
    )

-- The messages of a delegation are made for the validators of the chain that take delegations alone,
-- from what these hold together and with the weights that they have afterwards, and end as those of any
-- split do. In the chain that the caller has afterwards, just the weights of these validators are
-- raised, each by the same share, which together are the weights of the others but for the rounding;
-- the delegations add up to what they did.
pub generate_delegate_messages-Generates :
    (dec : DecOps) (laws : DecLaws dec) (hc : HostChain) (amount : ℕ)
    → GeneratesShared dec hc amount (generate_delegate_messages dec hc amount)
      × (get_host_chain_total_delegations (generate_delegate_messages dec hc amount).0
          ≡ get_host_chain_total_delegations hc)
unfolding generate_delegate_messages
generate_delegate_messages-Generates dec laws hc amount =
    (delegate_to-Generates dec laws hc amount _ refl, delegate_to-delegations dec hc amount _)
