-- ===== src/Ibc/Flow/Sent.antt =====
-- The deposit workflow takes each pending deposit one step on, or leaves it.
use pstake_native_test.Ibc.Acks.{delegation_account}
use pstake_native_test.Ibc.HostChain.{get_host_chain}
use mathlib.Core.Path.{subst}
use pstake_native_test.Base.{
  ◌>>=◌, bind-Ends, chain-Ends, weaken-Ends, ltb, leb, ◌==◌, ok, ◌&&◌, ℕ, ◌<◌, ◌≡◌, ◌≢◌, refl, ap,
  ◌∙◌, Bool, true, false, ◌||◌, Option, none, some, List, [], ◌∷◌, arith, All, select, Bool-cases,
  inl, inr, if◌then◌else◌, Outcome, Ends,
}
use pstake_native_test.Base.Text.{Bytes, same, same_iff, same_refl, less, less_irrefl}
use pstake_native_test.Sdk.Store.{StoreLaws}
use pstake_native_test.Sdk.Store.Content.{
  Entries, values, lookup, insert, erase, IsSorted, lookup-insert, lookup-erase_ne,
  lookup-erase_self, insert-IsSorted, erase-IsSorted,
}
use pstake_native_test.Sdk.Store.Update.{Above-select, IsKeyed}
use pstake_native_test.Ibc.Types.{Deposit, DepositState, HostChain, Error}
use pstake_native_test.Ibc.Keys.{transaction_sequence_id}
use pstake_native_test.Ibc.Deposit.{
  delete_deposit, get_pending_deposits_before_epoch, key_of, state_is, set_deposit,
}
use pstake_native_test.Ibc.State.{deposit_account, Stores, State}
use pstake_native_test.Ibc.Flow.{
  send_deposit, send_deposits, deposit_workflow, Router, deposit_sent, after_transfer,
}
use pstake_native_test.Ibc.Flow.Stage.{clear, stage, ◌⟶◌, stay, send, Steps}

abbrev keys_have : Bytes → List Deposit → Bool
keys_have k [] = false
keys_have k (d ∷ ds) = same (key_of d) k || keys_have k ds

abbrev Distinct : List Deposit → Type 0
Distinct [] = Unit
Distinct (d ∷ ds) = (keys_have (key_of d) ds ≡ false) × Distinct ds

-- The store has the deposits as they are, and they are pending.
abbrev Fresh : Entries Deposit → List Deposit → Type 0
Fresh es ds =
    All (λ d. (lookup (key_of d) es ≡ some d) × (state_is d.state DepositState.pending ≡ true)) ds

-- A change at the key of a deposit, by a step.
abbrev Touches : Deposit → Entries Deposit → Entries Deposit → Type 0
Touches d es es' =
    ((k : Bytes) → same (key_of d) k ≡ false → lookup k es' ≡ lookup k es)
    × (stage (some d) ⟶ stage (lookup (key_of d) es'))
    × IsSorted es'

-- Only the keys of the deposits change, by a step each.
abbrev Walks : List Deposit → Entries Deposit → Entries Deposit → Type 0
Walks ds es es' = ((k : Bytes) → keys_have k ds ≡ false → lookup k es' ≡ lookup k es) × Steps es es'

is_pending : (x : DepositState) → state_is x DepositState.pending ≡ true → x ≡ DepositState.pending
is_pending DepositState.pending h = refl
is_pending DepositState.sent h = cc h
is_pending DepositState.received h = cc h
is_pending DepositState.delegating h = cc h

Touches-same :
    (d : Deposit) (es : Entries Deposit)
    → lookup (key_of d) es ≡ some d
    → IsSorted es
    → Touches d es es
Touches-same d es h s = (λ k b. refl, rw h stay, s)

Touches-insert :
    (d d' : Deposit) (es : Entries Deposit)
    → stage (some d) ⟶ stage (some d')
    → IsSorted es
    → Touches d es (insert (key_of d) d' es)
Touches-insert d d' es h s = (
  λ k b. lookup-insert k (key_of d) d' es ∙ ap (λ t. if t then some d' else lookup k es) b,
  rw (lookup-insert (key_of d) (key_of d) d' es, same_refl (key_of d)) h,
  insert-IsSorted (key_of d) d' es s,
)

not_same : (j k : Bytes) → same j k ≡ false → k ≢ j
not_same j k b h = ground (arith, same_iff j k, h)

Touches-erase :
    (d : Deposit) (es : Entries Deposit)
    → stage (some d) ⟶ stage none
    → IsSorted es
    → Touches d es (erase (key_of d) es)
Touches-erase d es h s = (
  λ k b. lookup-erase_ne k (key_of d) es (not_same (key_of d) k b),
  rw (lookup-erase_self (key_of d) es s) h,
  erase-IsSorted (key_of d) es s,
)

Walks-cons :
    (d : Deposit) (ds : List Deposit) (es es1 es' : Entries Deposit)
    → lookup (key_of d) es ≡ some d
    → keys_have (key_of d) ds ≡ false
    → Touches d es es1
    → Walks ds es1 es'
    → Walks (d ∷ ds) es es'
Walks-cons d ds es es1 es' found alone (others, step, s) (rest, steps) = (
  λ k b. rest k (ground arith) ∙ others k (ground arith),
  λ k. elim (Bool-cases (same (key_of d) k)) [
    | inl b ↦
        let e : key_of d ≡ k = ground (arith, same_iff (key_of d) k) in
        subst (λ j. stage (lookup j es) ⟶ stage (lookup j es')) e
          (rw (found, rest (key_of d) alone) step)
    | inr b ↦ subst (λ o. stage o ⟶ stage (lookup k es')) (others k b) (steps k)
  ],
)

Fresh-Touches :
    (d : Deposit) (ds : List Deposit) (es es1 : Entries Deposit)
    → keys_have (key_of d) ds ≡ false
    → Touches d es es1
    → Fresh es ds
    → Fresh es1 ds
Fresh-Touches d [] es es1 alone t h = tt
Fresh-Touches d (x ∷ ds) es es1 alone t ((found, pending), hs) = (
  (
    t.0 (key_of x) (ground (arith, same_iff (key_of x) (key_of d), same_iff (key_of d) (key_of x)))
        ∙ found,
    pending,
  ),
  Fresh-Touches d ds es es1 (ground arith) t hs,
)

-- What a store holds of the deposits that a filter picks from it.
Fresh-past :
    (e : Bytes × Deposit) (es : Entries Deposit) (ds : List Deposit)
    → All (λ d. less e.0 (key_of d) ≡ true) ds
    → Fresh es ds
    → Fresh (e ∷ es) ds
unfolding lookup
Fresh-past e es [] a h = tt
Fresh-past e es (d ∷ ds) (a, as_) ((found, pending), hs) = (
  (ground (arith, same_iff e.0 (key_of d), less_irrefl (key_of d), found), pending),
  Fresh-past e es ds as_ hs,
)

not_among :
    (k : Bytes) (ds : List Deposit)
    → All (λ d. less k (key_of d) ≡ true) ds
    → keys_have k ds ≡ false
not_among k [] h = refl
not_among k (d ∷ ds) (h, hs) =
    ground (arith, same_iff (key_of d) k, less_irrefl k, not_among k ds hs)

picked :
    (p : Deposit → Bool) (es : Entries Deposit)
    → ((d : Deposit) → p d ≡ true → state_is d.state DepositState.pending ≡ true)
    → IsKeyed key_of es
    → Fresh es (select p (values es)) × Distinct (select p (values es))
unfolding lookup
picked p [] h k = (tt, tt)
picked p (e ∷ es) h ((a, s), (k, ks)) =
    let (fresh, distinct) = picked p es h (s, ks) in
    let above = Above-select key_of p e.0 es a ks in
    let past = Fresh-past e es (select p (values es)) above fresh in
    elim (Bool-cases (p e.1)) [
      | inl b ↦ rw b (
        ((ground (arith, same_iff e.0 (key_of e.1), k), h e.1 b), past),
        (
          subst (λ j. keys_have j (select p (values es)) ≡ false) k (not_among e.0 _ above),
          distinct,
        ),
      )
      | inr b ↦ rw b (past, distinct)
    ]

module _ (st : Stores) {W : Type 0} (router : Router W) (module_address : Bytes → Bytes)
    (laws : StoreLaws st.deposits) where
  abbrev pub content : State st W → Entries Deposit
  content s = st.deposits.entries s.deposit_store

  abbrev pub Steady : {A : Type 0} → (A → Type 0) → Outcome Error A → Type 0
  Steady {A} P r = Ends P (λ e. Unit {0}) (Unit {0}) r

  after_transfer-Touches :
      (hc : HostChain) (d : Deposit) (s : State st W) (o : Option ℕ) (w : W)
      → lookup (key_of d) (content s) ≡ some d
      → d.state ≡ DepositState.pending
      → 0 < d.amount.amount
      → IsSorted (content s)
      → Touches d (content s) (content (after_transfer st router module_address hc d s (o, w)))
  unfolding after_transfer set_deposit deposit_sent
  after_transfer-Touches hc d s none w found e h sorted = Touches-same d (content s) found sorted
  after_transfer-Touches hc d s (some n) w found e h sorted =
      let d' : Deposit = deposit_sent (transaction_sequence_id hc.channel_id n) d in
      rw (laws.entries-set (key_of d) d' s.deposit_store)
        (Touches-insert d d' (content s) (rw e (send h)) sorted)

  sent-Touches :
      (hc : HostChain) (d : Deposit) (s : State st W)
      → lookup (key_of d) (content s) ≡ some d
      → d.state ≡ DepositState.pending
      → 0 < d.amount.amount
      → IsSorted (content s)
      → Steady
          (λ s'. Touches d (content s) (content s'))
          (delegation_account hc >>= λ account.
            router.transfer hc.channel_id d.amount
              (module_address deposit_account)
              account.address
              s.world
            >>= λ r. ok (after_transfer st router module_address hc d s r))
  sent-Touches hc d s found e h sorted =
      let P = λ (s' : State st W). Touches d (content s) (content s') in
      bind-Ends P (λ e. Unit {0}) (Unit {0}) (delegation_account hc) _ (λ e h. tt) (λ h. tt)
        (λ account h1.
          bind-Ends P (λ e. Unit {0}) (Unit {0})
            (router.transfer hc.channel_id d.amount (module_address deposit_account) account.address
              s.world)
            (λ r. ok (after_transfer st router module_address hc d s r)) (λ e h. tt) (λ h. tt)
            (λ r h2. after_transfer-Touches hc d s r.0 r.1 found e h sorted))

  send_deposit-Touches :
      (epoch : ℕ) (d : Deposit) (s : State st W) (o : Option HostChain)
      → lookup (key_of d) (content s) ≡ some d
      → d.state ≡ DepositState.pending
      → IsSorted (content s)
      → Steady
          (λ s'. Touches d (content s) (content s'))
          (send_deposit st router module_address epoch d s o)
  unfolding send_deposit delete_deposit
  send_deposit-Touches epoch d s none found e sorted = Touches-same d (content s) found sorted
  send_deposit-Touches epoch d s (some hc) found e sorted =
      elim (Bool-cases (d.amount.amount == 0)) [
        | inl b ↦ elim (Bool-cases (ltb d.epoch epoch)) [
          | inl c ↦
              rw (b, c, laws.entries-delete (key_of d) s.deposit_store)
                (Touches-erase d (content s) (rw e (clear (ground arith))) sorted)
          | inr c ↦ rw (b, c) (Touches-same d (content s) found sorted)
        ]
        | inr b ↦ elim (Bool-cases hc.active) [
          | inl c ↦ rw (b, c) (sent-Touches hc d s found e (ground arith) sorted)
          | inr c ↦ rw (b, c) (Touches-same d (content s) found sorted)
        ]
      ]

  send_deposits-Walks :
      (epoch : ℕ) (ds : List Deposit) (s : State st W)
      → Fresh (content s) ds
      → Distinct ds
      → IsSorted (content s)
      → Steady
          (λ s'. Walks ds (content s) (content s'))
          (send_deposits st router module_address epoch ds s)
  unfolding send_deposits
  send_deposits-Walks epoch [] s f d sorted = (λ k h. refl, λ k. stay)
  send_deposits-Walks epoch (d ∷ ds) s ((found, pending), fresh) (alone, distinct) sorted =
      let P = λ (s' : State st W). Walks (d ∷ ds) (content s) (content s') in
      let o = get_host_chain st.chains d.chain_id s.chain_store in
      chain-Ends P (λ e. Unit {0}) (Unit {0}) (λ s1. Touches d (content s) (content s1))
        (λ e. Unit {0}) (Unit {0}) (send_deposit st router module_address epoch d s o)
        (send_deposits st router module_address epoch ds)
        (send_deposit-Touches epoch d s o found (is_pending d.state pending) sorted) (λ e h. tt)
        (λ h. tt)
        (λ s1 t.
          weaken-Ends P (λ e. Unit {0}) (Unit {0}) (λ s'. Walks ds (content s1) (content s'))
            (send_deposits st router module_address epoch ds s1)
            (send_deposits-Walks epoch ds s1
              (Fresh-Touches d ds (content s) (content s1) alone t fresh) distinct (t.2))
            (λ s' w. Walks-cons d ds (content s) (content s1) (content s') found alone t w))

  pub deposit_workflow-Steps :
      (epoch : ℕ) (s : State st W)
      → IsKeyed key_of (content s)
      → Steady
          (λ s'. Steps (content s) (content s'))
          (deposit_workflow st router module_address epoch s)
  unfolding deposit_workflow get_pending_deposits_before_epoch
  deposit_workflow-Steps epoch s k =
      let p = λ (d : Deposit). leb d.epoch epoch && state_is d.state DepositState.pending in
      let chosen = picked p (content s) (λ d h. ground arith) k in
      let ds = select p (values (content s)) in
      weaken-Ends (λ (s' : State st W). Steps (content s) (content s')) (λ e. Unit {0}) (Unit {0})
        (λ s'. Walks ds (content s) (content s'))
        (send_deposits st router module_address epoch ds s)
        (send_deposits-Walks epoch ds s chosen.0 chosen.1 k.0) (λ s' w. w.1)
