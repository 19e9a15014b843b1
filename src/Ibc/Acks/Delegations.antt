-- ===== src/Ibc/Acks/Delegations.antt =====
-- What a change of one validator does to the delegations of its chain, and what storing the chain
-- does to the others.
use pstake_native_test.Ibc.HostChain.Weight.{get-put_self, get-put_other}
use pstake_native_test.Base.{
  ℕ, refl, ◌≡◌, ap, ◌∙◌, sym, Bool, true, false, some, List, [], ◌∷◌, arith, if◌then◌else◌,
  Bool-cases, inl, inr,
}
use pstake_native_test.Base.Int.{neg_part, pos_part, pos, ◌-ℤ◌, ℤ, ◌+ℤ◌, int_laws, +ℤ_comm}
use pstake_native_test.Base.Text.{same_refl, Bytes, same, same_iff}
use pstake_native_test.Sdk.Store.{KvStore, StoreLaws}
use pstake_native_test.Sdk.Store.Content.{lookup, lookup-insert}
use pstake_native_test.Ibc.Types.{HostChain, Validator}
use pstake_native_test.Ibc.Strategy.{get_validator, total_from}
use pstake_native_test.Ibc.Strategy.Weights.{total_from-+ℤ}
use pstake_native_test.Ibc.HostChain.{put_validator, first_chain, set_host_chain, get_host_chain}

pub get_validator_address :
    (a : Bytes) (v : Validator) (vs : List Validator)
    → get_validator a vs ≡ some v
    → v.operator_address ≡ a
unfolding get_validator
get_validator_address a v [] h = cc h
get_validator_address a v (x ∷ vs) h =
    ground (arith, same_iff x.operator_address a, get_validator_address a v vs)

pub first_chain_passes :
    (p : HostChain → Bool) (hc : HostChain) (hcs : List HostChain)
    → first_chain p hcs ≡ some hc
    → p hc ≡ true
first_chain_passes p hc [] h = cc h
first_chain_passes p hc (x ∷ hcs) h = ground (arith, first_chain_passes p hc hcs)

moved :
    (z d a b : ℤ) (vs : List Validator)
    → b ≡ a +ℤ d
    → total_from (z +ℤ b) vs ≡ total_from (z +ℤ a) vs +ℤ d
moved z d a b vs h =
    let e : z +ℤ b ≡ d +ℤ (z +ℤ a) = rw h (omega int_laws) in
    rw e (total_from-+ℤ d (z +ℤ a) vs ∙ +ℤ_comm d _)

get_head :
    (a : Bytes) (v x : Validator) (vs : List Validator)
    → get_validator a (x ∷ vs) ≡ some v
    → same x.operator_address a ≡ true
    → x ≡ v
unfolding get_validator
get_head a v x vs h b = ground arith

get_tail :
    (a : Bytes) (v x : Validator) (vs : List Validator)
    → get_validator a (x ∷ vs) ≡ some v
    → same x.operator_address a ≡ false
    → get_validator a vs ≡ some v
unfolding get_validator
get_tail a v x vs h b = ground arith

put_head :
    (v x : Validator) (vs : List Validator)
    → x.operator_address ≡ v.operator_address
    → put_validator v (x ∷ vs) ≡ v ∷ vs
unfolding put_validator
put_head v x vs e = ground (arith, same_iff v.operator_address x.operator_address)

put_tail :
    (v x : Validator) (vs : List Validator)
    → same x.operator_address v.operator_address ≡ false
    → put_validator v (x ∷ vs) ≡ x ∷ put_validator v vs
unfolding put_validator
put_tail v x vs e = ground (
  arith,
  same_iff v.operator_address x.operator_address,
  same_iff x.operator_address v.operator_address,
)

-- A validator that is put back with `d` more raises the total by `d`.
pub total-put :
    (a : Bytes) (z d : ℤ) (v v' : Validator) (vs : List Validator)
    → get_validator a vs ≡ some v
    → v'.operator_address ≡ a
    → v'.delegated_amount ≡ v.delegated_amount +ℤ d
    → total_from z (put_validator v' vs) ≡ total_from z vs +ℤ d
unfolding total_from get_validator
total-put a z d v v' [] h e e' = cc h
total-put a z d v v' (x ∷ vs) h e e' = elim (Bool-cases (same x.operator_address a)) [
  | inl b ↦
      let head : x ≡ v = get_head a v x vs h b in
      let address : x.operator_address ≡ v'.operator_address =
        ground (arith, same_iff x.operator_address a) in
      ap (total_from z) (put_head v' x vs address)
      ∙ moved z d x.delegated_amount v'.delegated_amount vs (rw head e')
  | inr b ↦
      ap (total_from z) (put_tail v' x vs (rw e b))
      ∙ total-put a (z +ℤ x.delegated_amount) d v v' vs (get_tail a v x vs h b) e e'
]

module _ (kv : KvStore HostChain) where
  -- The chain is in the store, and no other has changed.
  abbrev pub Stored : HostChain → kv.Store → kv.Store → Type 0
  Stored hc s s' =
      (get_host_chain kv hc.chain_id s' ≡ some hc)
      × ((c : Bytes) → same hc.chain_id c ≡ false → get_host_chain kv c s' ≡ get_host_chain kv c s)

module _ (kv : KvStore HostChain) (laws : StoreLaws kv) where
  pub get-set_host_chain :
      (c : Bytes) (hc : HostChain) (s : kv.Store)
      → get_host_chain kv c (set_host_chain kv hc s)
        ≡ (if same hc.chain_id c then some hc else get_host_chain kv c s)
  unfolding get_host_chain set_host_chain
  get-set_host_chain c hc s =
      laws.get-entries c _
      ∙ ap (lookup c) (laws.entries-set hc.chain_id hc s)
      ∙ lookup-insert c hc.chain_id hc _
      ∙ ap (λ o. if same hc.chain_id c then some hc else o) (sym (laws.get-entries c s))

  pub set-Stored : (hc : HostChain) (s : kv.Store) → Stored kv hc s (set_host_chain kv hc s)
  set-Stored hc s = (
    get-set_host_chain hc.chain_id hc s
        ∙ ap (λ b. if b then some hc else get_host_chain kv hc.chain_id s) (same_refl hc.chain_id),
    λ c h. get-set_host_chain c hc s ∙ ap (λ b. if b then some hc else get_host_chain kv c s) h,
  )

  -- A chain that is stored over one with its id.
  pub set-Stored_after :
      (hc' hc : HostChain) (s s' : kv.Store)
      → hc'.chain_id ≡ hc.chain_id
      → Stored kv hc s s'
      → Stored kv hc' s (set_host_chain kv hc' s')
  set-Stored_after hc' hc s s' e (_, others) =
      ((set-Stored hc' s').0, λ c h. (set-Stored hc' s').1 c h ∙ others c (rw (← e) h))

-- The validator at an address has `d` more delegated to it, and with that the chain; no other
-- validator has changed.
abbrev pub Changes : Bytes → ℤ → List Validator → List Validator → Type 0
Changes a d vs vs' =
    (v : Validator) × (get_validator a vs ≡ some v)
    × (get_validator a vs' ≡ some (record v { delegated_amount = v.delegated_amount +ℤ d }))
    × ((b : Bytes) → same a b ≡ false → get_validator b vs' ≡ get_validator b vs)
    × (total_from (pos 0) vs' ≡ total_from (pos 0) vs +ℤ d)

pub put-Changes :
    (a : Bytes) (d : ℤ) (v : Validator) (vs : List Validator)
    → get_validator a vs ≡ some v
    → Changes a d vs (put_validator (record v { delegated_amount = v.delegated_amount +ℤ d }) vs)
put-Changes a d v vs h =
    let e : v.operator_address ≡ a = get_validator_address a v vs h in
    let v' : Validator = record v { delegated_amount = v.delegated_amount +ℤ d } in
    (
      v,
      h,
      ap (λ b. get_validator b (put_validator v' vs)) (sym e) ∙ get-put_self v' vs,
      λ b g. get-put_other b v' vs (rw e g),
      total-put a (pos 0) d v v' vs h e refl,
    )

-- An amount that is taken off.
abbrev pub neg : ℕ → ℤ
neg n = pos 0 -ℤ pos n

pub minus_neg : (a : ℤ) (n : ℕ) → a -ℤ pos n ≡ a +ℤ neg n
minus_neg a n = omega int_laws

pub put-Changes_less :
    (a : Bytes) (n : ℕ) (v : Validator) (vs : List Validator)
    → get_validator a vs ≡ some v
    → Changes a
        (neg n)
        vs
        (put_validator (record v { delegated_amount = v.delegated_amount -ℤ pos n }) vs)
put-Changes_less a n v vs h = rw (minus_neg v.delegated_amount n) (put-Changes a (neg n) v vs h)

-- Nothing is added by an amount that is added and taken off.
pub total_same : (a b c : ℤ) (n : ℕ) → b ≡ a +ℤ pos n → c ≡ b +ℤ neg n → c ≡ a
total_same a b c n h k =
    omega (int_laws, ap pos_part h, ap neg_part h, ap pos_part k, ap neg_part k)
