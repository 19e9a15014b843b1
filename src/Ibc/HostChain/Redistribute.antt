-- ===== src/Ibc/HostChain/Redistribute.antt =====
-- A redistribution takes the weight of a validator and gives it to the others.
use pstake_native_test.Base.{
  ℕ, ◌+◌, ◌*◌, ◌≤◌, ◌<◌, ◌≡◌, refl, sym, ◌∙◌, ap, Bool, false, some, List, [], ◌∷◌, All, arith,
  ◌==◌, length, select, Bool-cases, inl, inr, Outcome, ok, err, panic, Never, select-cons_true,
  select-cons_false,
}
use pstake_native_test.Base.Text.{Bytes, same_iff, same_refl}
use pstake_native_test.Sdk.Dec.{DecOps, DecLaws, of_int}
use pstake_native_test.Sdk.Store.{KvStore, StoreLaws}
use pstake_native_test.Sdk.Store.Content.{lookup, lookup-insert_self}
use pstake_native_test.Ibc.Types.{HostChain, Validator, Error}
use pstake_native_test.Ibc.Strategy.{get_validator}
use pstake_native_test.Ibc.HostChain.{
  put_validator, with_weight, set_host_chain_validator, add_weights, redistribute_validator_weight,
  get_host_chain, set_host_chain,
}
use pstake_native_test.Ibc.HostChain.Weight.{
  listed, IsDistinct, total_weight, put_total, get-put_self, get-put_other,
}

-- The validators are found under their addresses as they are.
abbrev Held : List Validator → List Validator → Type 0
Held os vs = All (λ o. get_validator o.operator_address vs ≡ some o) os

Held-put :
    (v : Validator) (os vs : List Validator)
    → listed v.operator_address os ≡ false
    → Held os vs
    → Held os (put_validator v vs)
Held-put v [] vs l h = tt
Held-put v (o ∷ os) vs l (h, hs) = (
  get-put_other o.operator_address v vs (
        ground (
          arith,
          same_iff o.operator_address v.operator_address,
          same_iff v.operator_address o.operator_address,
        ))
      ∙ h,
  Held-put v os vs (ground arith) hs,
)

Held-cons :
    (v : Validator) (os vs : List Validator)
    → listed v.operator_address os ≡ false
    → Held os vs
    → Held os (v ∷ vs)
unfolding get_validator
Held-cons v [] vs l h = tt
Held-cons v (o ∷ os) vs l (h, hs) = (
  ground (
    arith,
    same_iff o.operator_address v.operator_address,
    same_iff v.operator_address o.operator_address,
  ),
  Held-cons v os vs (ground arith) hs,
)

module _ (p : Validator → Bool) where
  listed-select :
      (a : Bytes) (vs : List Validator) → listed a vs ≡ false → listed a (select p vs) ≡ false
  listed-select a [] h = refl
  listed-select a (v ∷ vs) h = ground (arith, listed-select a vs)

  select-IsDistinct : (vs : List Validator) → IsDistinct vs → IsDistinct (select p vs)
  select-IsDistinct [] d = tt
  select-IsDistinct (v ∷ vs) (d, ds) = elim (Bool-cases (p v)) [
    | inl b ↦
        rw (select-cons_true p v vs b)
          (listed-select v.operator_address vs d, select-IsDistinct vs ds)
    | inr b ↦ rw (select-cons_false p v vs b) (select-IsDistinct vs ds)
  ]

  select-Held : (vs : List Validator) → IsDistinct vs → Held (select p vs) vs
  unfolding get_validator
  select-Held [] d = tt
  select-Held (v ∷ vs) (d, ds) =
      let rest =
        Held-cons v (select p vs) vs (listed-select v.operator_address vs d) (select-Held vs ds) in
      elim (Bool-cases (p v)) [
        | inl b ↦ rw (select-cons_true p v vs b) (rw (same_refl v.operator_address) refl, rest)
        | inr b ↦ rw (select-cons_false p v vs b) rest
      ]

-- The validator itself is not among those that get a share.
others_without :
    (v : Validator) (vs : List Validator)
    → listed v.operator_address (select (with_weight v) vs) ≡ false
others_without v [] = refl
others_without v (w ∷ vs) = ground (arith, others_without v vs)

module _ (kv : KvStore HostChain) (diff : ℕ) where
  added_total :
      (os : List Validator) (hc : HostChain) (s : kv.Store)
      → IsDistinct os
      → Held os hc.validators
      → total_weight (add_weights kv diff os hc s).0.validators
        ≡ total_weight hc.validators + length os * diff
  unfolding add_weights set_host_chain_validator
  added_total [] hc s d h = omega arith
  added_total (o ∷ os) hc s (d, ds) (h, hs) =
      let o' = record o { weight = o.weight + diff } in
      let hc' = record hc { validators = put_validator o' hc.validators } in
      omega (
        arith,
        added_total os hc' (set_host_chain kv hc' s) ds (Held-put o' os hc.validators d hs),
        put_total o' o hc.validators h,
      )

  added_other :
      (a : Bytes) (os : List Validator) (hc : HostChain) (s : kv.Store)
      → listed a os ≡ false
      → get_validator a (add_weights kv diff os hc s).0.validators ≡ get_validator a hc.validators
  unfolding add_weights set_host_chain_validator
  added_other a [] hc s l = refl
  added_other a (o ∷ os) hc s l =
      let o' = record o { weight = o.weight + diff } in
      let hc' = record hc { validators = put_validator o' hc.validators } in
      added_other a os hc' (set_host_chain kv hc' s) (ground arith)
      ∙ get-put_other a o' hc.validators (ground arith)

  added_chain :
      (os : List Validator) (hc : HostChain) (s : kv.Store)
      → (add_weights kv diff os hc s).0.chain_id ≡ hc.chain_id
  unfolding add_weights set_host_chain_validator
  added_chain [] hc s = refl
  added_chain (o ∷ os) hc s =
      let hc' = record hc {
        validators = put_validator (record o { weight = o.weight + diff }) hc.validators;
      } in
      added_chain os hc' (set_host_chain kv hc' s)

get-set :
    (kv : KvStore HostChain) (laws : StoreLaws kv) (hc : HostChain) (s : kv.Store)
    → kv.get hc.chain_id (kv.set hc.chain_id hc s) ≡ some hc
get-set kv laws hc s =
    laws.get-entries hc.chain_id _
    ∙ ap (lookup hc.chain_id) (laws.entries-set hc.chain_id hc s)
    ∙ lookup-insert_self hc.chain_id hc _

module _ (kv : KvStore HostChain) (dec : DecOps) where
  abbrev pub others_of : HostChain → Validator → List Validator
  others_of hc v = select (with_weight v) hc.validators

  -- How a redistribution ends.
  abbrev pub Redistributes : HostChain → Validator → Outcome Error (HostChain × kv.Store) → Type 0
  Redistributes hc v (ok (hc', s')) =
      (0 < length (others_of hc v))
      × (get_validator v.operator_address hc'.validators ≡ some (record v { weight = 0 }))
      × (2 * total_weight hc'.validators ≤ 2 * total_weight hc.validators + length (others_of hc v))
      × (2 * total_weight hc.validators ≤ 2 * total_weight hc'.validators + length (others_of hc v))
      × (get_host_chain kv hc.chain_id s' ≡ some hc')
  Redistributes hc v (err e) = Never
  Redistributes hc v panic = length (others_of hc v) ≡ 0

  -- Taking the weight of a validator of the chain and giving it to the others that have one leaves it
  -- with none, and the sum of the weights as it is within half a unit for each of the others; the
  -- chain is stored so. It panics just when no other validator has a weight.
  pub redistribute_validator_weight-Redistributes :
      (laws : StoreLaws kv) (dec_laws : DecLaws dec) (hc : HostChain) (v : Validator) (s : kv.Store)
      → IsDistinct hc.validators
      → get_validator v.operator_address hc.validators ≡ some v
      → Redistributes hc v (redistribute_validator_weight kv dec hc v s)
  unfolding redistribute_validator_weight set_host_chain_validator set_host_chain get_host_chain
  redistribute_validator_weight-Redistributes laws dec_laws hc v s d h =
      let others = others_of hc v in
      let diff = dec.quo v.weight (of_int (length others)) in
      let added = add_weights kv diff others hc s in
      let v' = record v { weight = 0 } in
      let total =
        added_total kv diff others hc s (select-IsDistinct (with_weight v) hc.validators d)
          (select-Held (with_weight v) hc.validators d) in
      let still =
        added_other kv diff v.operator_address others hc s (others_without v hc.validators) ∙ h in
      let taken = put_total v' v added.0.validators still in
      let last = record added.0 { validators = put_validator v' added.0.validators } in
      let stored : kv.get hc.chain_id (kv.set last.chain_id last added.1) ≡ some last =
        ap (λ k. kv.get k (kv.set last.chain_id last added.1))
          (sym (added_chain kv diff others hc s))
        ∙ get-set kv laws last added.1 in
      elim (Bool-cases (length others == 0)) [
        | inl b ↦ rw b (ground arith)
        | inr b ↦
            let some_others : 0 < length others = ground arith in
            let nearest = dec_laws.quo_nearest v.weight (of_int (length others)) (omega arith) in
            rw b (
              some_others,
              get-put_self v' added.0.validators,
              omega (arith, nearest.0, total, taken),
              omega (arith, nearest.1, total, taken),
              stored,
            )
      ]
