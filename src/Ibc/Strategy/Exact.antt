-- ===== src/Ibc/Strategy/Exact.antt =====
-- The messages hand out exactly the amount, in the order of the validators.
use mathlib.Core.Path.{subst}
use pstake_native_test.Base.{
  ◌/◌, sym, ℕ, ◌-◌, ◌≤◌, ◌≡◌, ◌≢◌, ◌⊎◌, inl, inr, refl, Bool, true, false, ◌||◌, none, some, List,
  [], ◌∷◌, arith, leb, if◌then◌else◌, sum_by, Outcome, ok, err, panic, ◌>>=◌, Returns, Bool-cases,
  Option-cases, All,
}
use pstake_native_test.Base.Int.{pos_part, ◌+ℤ◌, ◌-ℤ◌, ◌*ℤ◌, pos, leb_ℤ, ℤ}
use pstake_native_test.Sdk.Dec.{one, DecOps}
use pstake_native_test.Ibc.Types.{HostChain, Validator, IcaAccount, Error, invalid_messages}
use pstake_native_test.Ibc.Strategy.{
  difference, DelegateAmount, Message, message, whole, is_last, messages_from, some_messages,
  delegate_amounts, generate_messages,
}

abbrev pub message_amount : Message → ℕ
message_amount m = m.amount.amount

-- The messages go to the validators in order. All but the last carry the validator's whole
-- difference; the last carries no more than that, or goes to the last validator.
abbrev pub Follows : List DelegateAmount → List Message → Type 0
Follows xs [] = Unit
Follows [] (m ∷ ms) = ⊥
Follows (x ∷ xs) (m ∷ []) =
    (m.validator_address ≡ x.val_address)
    × ((message_amount m ≤ pos_part x.amount / one) ⊎ (xs ≡ []))
Follows (x ∷ xs) (m ∷ n ∷ ms) =
    (m.validator_address ≡ x.val_address)
    × (message_amount m ≡ pos_part x.amount / one)
    × Follows xs (n ∷ ms)

last_none : (xs : List DelegateAmount) → is_last xs ≡ true → xs ≡ []
last_none [] h = refl
last_none (x ∷ xs) h = cc h

-- The amount is within the difference, or the validator is the last.
last_message :
    (x : DelegateAmount) (xs : List DelegateAmount) (left : ℕ)
    → (leb left (whole x.amount) || is_last xs) ≡ true
    → (left ≤ pos_part x.amount / one) ⊎ (xs ≡ [])
last_message x xs left h = elim (Bool-cases (leb left (whole x.amount))) [
  | inl b ↦ inl (ground arith)
  | inr b ↦ inr (last_none xs (ground arith))
]

-- What a list of messages does with an amount.
pub record Splits (hc : HostChain) (u : Bool) (a : IcaAccount) (xs : List DelegateAmount)
    (amount : ℕ) (ms : List Message) : Type 0 where
  pub total : sum_by message_amount ms ≡ amount
  pub in_order : Follows xs ms
  pub some_left : ms ≢ []
  pub signed :
      All
        (λ m.
          (m.undelegate ≡ u) × (m.delegator_address ≡ a.address) × (m.amount.denom ≡ hc.host_denom))
        ms

module _ (hc : HostChain) (u : Bool) (a : IcaAccount) (has : hc.delegation_account ≡ some a) where
  Splits-last :
      (x : DelegateAmount) (xs : List DelegateAmount) (left : ℕ)
      → (leb left (whole x.amount) || is_last xs) ≡ true
      → Splits hc u a (x ∷ xs) left (message hc u a x left ∷ [])
  Splits-last x xs left h = record {
    total = omega arith;
    in_order = (refl, last_message x xs left h);
    some_left = cc;
    signed = ((refl, refl, refl), tt);
  }

  Splits-next :
      (x : DelegateAmount) (xs : List DelegateAmount) (left : ℕ) (ms : List Message)
      → leb left (whole x.amount) ≡ false
      → Splits hc u a xs (left - whole x.amount) ms
      → Splits hc u a (x ∷ xs) left (message hc u a x (whole x.amount) ∷ ms)
  Splits-next x xs left [] h s = absurd (s.some_left refl)
  Splits-next x xs left (m ∷ ms) h s = record {
    total = ground (arith, s.total);
    in_order = (refl, refl, s.in_order);
    some_left = cc;
    signed = ((refl, refl, refl), s.signed);
  }

  messages_from_step :
      (x : DelegateAmount) (xs : List DelegateAmount) (left : ℕ)
      → messages_from hc u (x ∷ xs) left ≡ (
          if leb left (whole x.amount) || is_last xs
          then ok (message hc u a x left ∷ [])
          else (messages_from hc u xs (left - whole x.amount) >>= λ ms.
              ok (message hc u a x (whole x.amount) ∷ ms)))
  unfolding messages_from
  messages_from_step x xs left = cc has

  Splits-bind :
      (x : DelegateAmount) (xs : List DelegateAmount) (left : ℕ) (r : Outcome Error (List Message))
      → leb left (whole x.amount) ≡ false
      → Returns (Splits hc u a xs (left - whole x.amount)) r
      → Returns
          (Splits hc u a (x ∷ xs) left)
          (r >>= λ ms. ok (message hc u a x (whole x.amount) ∷ ms))
  Splits-bind x xs left (ok ms) h s = Splits-next x xs left ms h s
  Splits-bind x xs left (err e) h s = elim s [ ]
  Splits-bind x xs left panic h s = elim s [ ]

  messages_from-Splits :
      (x : DelegateAmount) (xs : List DelegateAmount) (left : ℕ)
      → Returns (Splits hc u a (x ∷ xs) left) (messages_from hc u (x ∷ xs) left)
  messages_from-Splits x [] left =
      let last : (leb left (whole x.amount) || is_last []) ≡ true = ground arith in
      rw (messages_from_step x [] left, last) (Splits-last x [] left last)
  messages_from-Splits x (y ∷ xs) left =
      rw (messages_from_step x (y ∷ xs) left) (elim (Bool-cases (leb left (whole x.amount))) [
        | inl b ↦ rw b (Splits-last x (y ∷ xs) left (ground arith))
        | inr b ↦
            rw b
              (Splits-bind x (y ∷ xs) left _ b (messages_from-Splits y xs (left - whole x.amount)))
      ])

-- How the generation of messages ends, on every branch.
abbrev pub Generates :
    HostChain → Bool → List DelegateAmount → ℕ → Outcome Error (List Message) → Type 0
Generates hc u xs amount (ok ms) =
    (a : IcaAccount) × (hc.delegation_account ≡ some a) × Splits hc u a xs amount ms
Generates hc u xs amount (err e) = (xs ≡ []) × (e ≡ invalid_messages)
Generates hc u xs amount panic = (hc.delegation_account ≡ none) × (xs ≢ [])

bind-Generates :
    (hc : HostChain) (u : Bool) (a : IcaAccount) (xs : List DelegateAmount) (amount : ℕ)
    → hc.delegation_account ≡ some a
    → (r : Outcome Error (List Message)) → Returns (Splits hc u a xs amount) r
    → Generates hc u xs amount (r >>= some_messages)
bind-Generates hc u a xs amount has (ok []) s = absurd (s.some_left refl)
bind-Generates hc u a xs amount has (ok (m ∷ ms)) s = (a, has, s)
bind-Generates hc u a xs amount has (err e) s = elim s [ ]
bind-Generates hc u a xs amount has panic s = elim s [ ]

messages_from-none :
    (hc : HostChain) (u : Bool) (x : DelegateAmount) (xs : List DelegateAmount) (left : ℕ)
    → hc.delegation_account ≡ none
    → messages_from hc u (x ∷ xs) left ≡ panic
unfolding messages_from
messages_from-none hc u x xs left h = cc h

messages-Generates :
    (hc : HostChain) (u : Bool) (xs : List DelegateAmount) (amount : ℕ)
    → Generates hc u xs amount (messages_from hc u xs amount >>= some_messages)
unfolding messages_from
messages-Generates hc u [] amount = (refl, refl)
messages-Generates hc u (x ∷ xs) amount = elim (Option-cases hc.delegation_account) [
  | inl e ↦
      subst (λ r. Generates hc u (x ∷ xs) amount (r >>= some_messages))
        (sym (messages_from-none hc u x xs amount e)) (e, cc)
  | inr (a, e) ↦
      bind-Generates hc u a (x ∷ xs) amount e _ (messages_from-Splits hc u a e x xs amount)
]

-- What a validator lacks of its share of the total after a delegation, or has above it after an
-- undelegation.
abbrev pub gap : DecOps → Bool → ℤ → ℕ → Validator → ℤ
gap dec true total amount v =
    v.delegated_amount *ℤ pos one -ℤ dec.mul (pos v.weight) ((total -ℤ pos amount) *ℤ pos one)
gap dec false total amount v =
    dec.mul (pos v.weight) ((total +ℤ pos amount) *ℤ pos one) -ℤ v.delegated_amount *ℤ pos one

-- The validators with a positive gap, in order, with their gaps.
pub data Picks (dec : DecOps) (u : Bool) (total : ℤ) (amount : ℕ)
    : List Validator → List DelegateAmount → Type 0 where
  nobody : Picks dec u total amount [] []
  left_out :
      (v : Validator) {vs : List Validator} {xs : List DelegateAmount}
      → leb_ℤ (gap dec u total amount v) (pos 0) ≡ true
      → Picks dec u total amount vs xs
      → Picks dec u total amount (v ∷ vs) xs
  picked :
      (v : Validator) {vs : List Validator} {xs : List DelegateAmount}
      → leb_ℤ (gap dec u total amount v) (pos 0) ≡ false
      → Picks dec u total amount vs xs
      → Picks dec u total amount
          (v ∷ vs)
          (record { val_address = v.operator_address; amount = gap dec u total amount v } ∷ xs)

difference-gap :
    (dec : DecOps) (u : Bool) (total : ℤ) (amount : ℕ) (v : Validator)
    → difference dec u total amount v ≡ gap dec u total amount v
unfolding difference
difference-gap dec true total amount v = refl
difference-gap dec false total amount v = refl

delegate_amounts-Picks :
    (dec : DecOps) (u : Bool) (total : ℤ) (amount : ℕ) (vs : List Validator)
    → Picks dec u total amount vs (delegate_amounts dec u total amount vs)
unfolding delegate_amounts
delegate_amounts-Picks dec u total amount [] = nobody
delegate_amounts-Picks dec u total amount (v ∷ vs) =
    rw (difference-gap dec u total amount v)
      (elim (Bool-cases (leb_ℤ (gap dec u total amount v) (pos 0))) [
        | inl b ↦ rw b (left_out v b (delegate_amounts-Picks dec u total amount vs))
        | inr b ↦ rw b (picked v b (delegate_amounts-Picks dec u total amount vs))
      ])

-- How messages for some validators are generated.
abbrev pub GeneratesFor :
    DecOps → HostChain → List Validator → ℤ → ℕ → Bool → Outcome Error (List Message) → Type 0
GeneratesFor dec hc validators total amount u r =
    (xs : List DelegateAmount) × Picks dec u total amount validators xs × Generates hc u xs amount r

-- When the messages are generated, their amounts add up to exactly the amount that was asked for,
-- they go in order to the validators that lack some of their share of the total after a delegation, or
-- have more than it after an undelegation, all but the last for the whole of the difference, and they
-- are signed by the delegation account in the coin of the chain. No messages is an error, which comes
-- just when there are no such validators; a panic needs a chain that has no delegation account.
pub generate_messages-Generates :
    (dec : DecOps) (hc : HostChain) (validators : List Validator) (total : ℤ) (amount : ℕ)
    (u : Bool)
    → GeneratesFor dec hc validators total amount u
        (generate_messages dec hc validators total amount u)
unfolding generate_messages
generate_messages-Generates dec hc vs total amount u = (
  delegate_amounts dec u total amount vs,
  delegate_amounts-Picks dec u total amount vs,
  messages-Generates hc u (delegate_amounts dec u total amount vs) amount,
)
