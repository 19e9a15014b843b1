-- ===== src/Ibc/Flow/Stage.antt =====
-- The life of a deposit, as a diagram of its stages, and when a change of the store follows it.
use pstake_native_test.Base.{
  ℕ, ◌+◌, ◌<◌, ◌≡◌, Bool, true, Option, none, some, [], ◌∷◌, arith, All, Bool-cases, inl, inr,
  if◌then◌else◌,
}
use pstake_native_test.Base.Text.{Bytes, same, same_iff}
use pstake_native_test.Sdk.Store.Content.{Entries, lookup, Above, IsSorted, lookup-Above}
use pstake_native_test.Sdk.Store.Update.{update_where, remove_where}
use pstake_native_test.Ibc.Types.{Deposit, DepositState}
use pstake_native_test.Ibc.Deposit.Amounts.{number}

-- Where a deposit is, and its amount.
pub data Stage : Type 0 where
  absent : Stage
  at : DepositState → ℕ → Stage

infix 40 ◌⟶◌
pub data ◌⟶◌ : Stage → Stage → Type 0 where
  stay : {x : Stage} → x ⟶ x
  send : {n : ℕ} → 0 < n → at DepositState.pending n ⟶ at DepositState.sent n
  clear : {n : ℕ} → n ≡ 0 → at DepositState.pending n ⟶ absent
  receive : {n : ℕ} → at DepositState.sent n ⟶ at DepositState.received n
  start : {n : ℕ} → at DepositState.received n ⟶ at DepositState.delegating n
  finish : {n : ℕ} → at DepositState.delegating n ⟶ absent
  back : {x y : DepositState} {n : ℕ} → number x ≡ number y + 1 → at x n ⟶ at y n

abbrev pub stage : Option Deposit → Stage
stage none = absent
stage (some d) = at d.state d.amount.amount

-- Every key takes one step, or none.
abbrev pub Steps : Entries Deposit → Entries Deposit → Type 0
Steps es es' = (k : Bytes) → stage (lookup k es) ⟶ stage (lookup k es')

pub Steps-same : (es es' : Entries Deposit) → es' ≡ es → Steps es es'
Steps-same es es' e k = rw e stay

changed :
    (p : Deposit → Bool) (g : Deposit → Deposit) (d : Deposit)
    → (p d ≡ true → stage (some d) ⟶ stage (some (g d)))
    → stage (some d) ⟶ stage (some (if p d then g d else d))
changed p g d h = elim (Bool-cases (p d)) [ inl b ↦ rw b (h b) | inr b ↦ rw b stay ]

pub Steps-update :
    (p : Deposit → Bool) (g : Deposit → Deposit) (es : Entries Deposit)
    → All (λ e. p e.1 ≡ true → stage (some e.1) ⟶ stage (some (g e.1))) es
    → Steps es (update_where p g es)
unfolding lookup
Steps-update p g [] h k = stay
Steps-update p g (e ∷ es) (h, hs) k = elim (Bool-cases (same e.0 k)) [
  | inl b ↦ rw b (changed p g e.1 h)
  | inr b ↦ rw b (Steps-update p g es hs k)
]

remove-Above :
    (p : Deposit → Bool) (k : Bytes) (es : Entries Deposit)
    → Above k es
    → Above k (remove_where p es)
remove-Above p k [] h = tt
remove-Above p k (e ∷ es) (h, hs) = elim (Bool-cases (p e.1)) [
  | inl b ↦ rw b (remove-Above p k es hs)
  | inr b ↦ rw b (h, remove-Above p k es hs)
]

pub Steps-remove :
    (p : Deposit → Bool) (es : Entries Deposit)
    → IsSorted es
    → All (λ e. p e.1 ≡ true → stage (some e.1) ⟶ absent) es
    → Steps es (remove_where p es)
unfolding lookup
Steps-remove p [] s h k = stay
Steps-remove p (e ∷ es) (above, s) (h, hs) k = elim (Bool-cases (p e.1)) [
  | inl b ↦ elim (Bool-cases (same e.0 k)) [
    | inl c ↦
        let here : e.0 ≡ k = ground (arith, same_iff e.0 k) in
        let gone : lookup k (remove_where p es) ≡ none =
          lookup-Above k _ (rw (← here) (remove-Above p e.0 es above)) in
        rw (b, c, gone) (h b)
    | inr c ↦ rw (b, c) (Steps-remove p es s hs k)
  ]
  | inr b ↦ elim (Bool-cases (same e.0 k)) [
    | inl c ↦ rw (b, c) stay
    | inr c ↦ rw (b, c) (Steps-remove p es s hs k)
  ]
]
