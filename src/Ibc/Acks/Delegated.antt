-- ===== src/Ibc/Acks/Delegated.antt =====
-- A delegation that was made on the host chain, as the keeper records it.
use pstake_native_test.Sdk.Store.Content.{values}
use pstake_native_test.Base.{
  arith, ◌-◌, ◌>>=◌, chain-Ends, true, Never, found-Ends, ℕ, ◌+◌, ◌<◌, ◌≡◌, refl, ◌⊎◌, inl, inr,
  false, none, some, Option-cases, ok, Ends,
}
use pstake_native_test.Base.Int.{pos}
use pstake_native_test.Base.Text.{Bytes, same}
use pstake_native_test.Sdk.Coin.{coin, coin_sub-cases, Coin, coin_sub}
use pstake_native_test.Sdk.Store.{StoreLaws}
use pstake_native_test.Sdk.Store.Update.{delete_each, IsKeyed, remove_where, delete_each-select}
use pstake_native_test.Ibc.Types.{
  Validator, HostChain, IcaAccount, Error, invalid_host_chain, validator_not_found,
}
use pstake_native_test.Ibc.Keys.{transaction_sequence_id}
use pstake_native_test.Ibc.Deposit.{key_of, get_deposits_with_sequence_id}
use pstake_native_test.Ibc.HostChain.{
  put_validator, set_host_chain, set_host_chain_validator, first_chain,
  get_host_chain_from_delegator_address, has_delegator,
}
use pstake_native_test.Ibc.Strategy.{get_validator}
use pstake_native_test.Ibc.Bank.{Bank}
use pstake_native_test.Ibc.State.{Stores, State}
use pstake_native_test.Ibc.Acks.{Delegate, handle_delegate_response, pay_delegation, delegated_more}
use pstake_native_test.Ibc.Acks.Delegations.{
  first_chain_passes, Stored, Changes, set-Stored, set-Stored_after, put-Changes,
}

-- What is left on the account, or why it is not enough.
abbrev Paid : HostChain → Coin → HostChain → Type 0
Paid hc c paid =
    (before : IcaAccount) × (left : Coin) × (hc.delegation_account ≡ some before)
    × (before.balance.denom ≡ c.denom)
    × (left.denom ≡ before.balance.denom)
    × (left.amount + c.amount ≡ before.balance.amount)
    × (paid ≡ record hc { delegation_account = some (record before { balance = left }) })

abbrev Short : HostChain → Coin → Type 0
Short hc c =
    (account : IcaAccount) × (hc.delegation_account ≡ some account)
    × ((same account.balance.denom c.denom ≡ false) ⊎ (account.balance.amount < c.amount))

pay-some :
    (hc : HostChain) (c : Coin) (a : IcaAccount)
    → hc.delegation_account ≡ some a
    → pay_delegation hc c ≡ (
        coin_sub a.balance c >>= λ left.
        ok (record hc { delegation_account = some (record a { balance = left }) }))
unfolding pay_delegation
pay-some hc c a h = rw h refl

has_delegator-none :
    (a : Bytes) (hc : HostChain) → hc.delegation_account ≡ none → has_delegator a hc ≡ false
has_delegator-none a hc e = rw e refl

has_delegator-account :
    (a : Bytes) (hc : HostChain)
    → has_delegator a hc ≡ true
    → (account : IcaAccount) × (hc.delegation_account ≡ some account)
has_delegator-account a hc h = elim (Option-cases hc.delegation_account) [
  | inl e ↦
      let no_account : has_delegator a hc ≡ false = has_delegator-none a hc e in
      let never : ⊥ = cc in elim never [ ]
  | inr (account, e) ↦ (account, e)
]

pay_delegation-Pays :
    (hc : HostChain) (c : Coin) (a : IcaAccount)
    → hc.delegation_account ≡ some a
    → Ends (Paid hc c) (λ e. Never) (Short hc c) (pay_delegation hc c)
pay_delegation-Pays hc c a h =
    rw (pay-some hc c a h) (elim (coin_sub-cases {E = Error} a.balance c) [
      | inl (e, le, sub) ↦ rw sub (
        a,
        coin a.balance.denom (a.balance.amount - c.amount),
        h,
        e,
        refl,
        omega (arith, le),
        refl,
      )
      | inr (why, sub) ↦ rw sub (a, h, why)
    ])

module _ (st : Stores) {W : Type 0} (bank : Bank W) (module_address : Bytes → Bytes)
    (chain_laws : StoreLaws st.chains) (deposit_laws : StoreLaws st.deposits) (m : Delegate)
    (channel : Bytes) (sequence : ℕ) (s : State st W)
    (keyed : IsKeyed key_of (st.deposits.entries s.deposit_store)) where
  abbrev q : Bytes
  q = transaction_sequence_id channel sequence

  abbrev Found : HostChain → Type 0
  Found hc =
      get_host_chain_from_delegator_address st.chains m.delegator_address s.chain_store ≡ some hc

  -- From the account's balance to the validator, and the deposits of the transaction are gone.
  abbrev pub Delegated : HostChain → IcaAccount → IcaAccount → HostChain → State st W → Type 0
  Delegated hc before after hc' s' =
      Found hc
      × (hc.delegation_account ≡ some before)
      × (hc'.delegation_account ≡ some after)
      × (after ≡ record before { balance = after.balance })
      × (after.balance.denom ≡ before.balance.denom)
      × (hc'
          ≡ record hc { delegation_account = hc'.delegation_account; validators = hc'.validators })
      × (before.balance.denom ≡ m.amount.denom)
      × (after.balance.amount + m.amount.amount ≡ before.balance.amount)
      × Changes m.validator_address (pos m.amount.amount) hc.validators hc'.validators
      × Stored st.chains hc' s.chain_store s'.chain_store
      × (st.deposits.entries s'.deposit_store
          ≡ remove_where (λ d. same d.ibc_sequence_id q) (st.deposits.entries s.deposit_store))
      × (s' ≡ record s { deposit_store = s'.deposit_store; chain_store = s'.chain_store })

  abbrev pub Delegates : State st W → Type 0
  Delegates s' =
      (hc : HostChain) × (before : IcaAccount) × (after : IcaAccount) × (hc' : HostChain)
      × Delegated hc before after hc' s'

  abbrev pub Refused : Error → Type 0
  Refused e =
      ((get_host_chain_from_delegator_address st.chains m.delegator_address s.chain_store ≡ none)
        × (e ≡ invalid_host_chain))
      ⊎ ((hc : HostChain) × Found hc
          × (get_validator m.validator_address hc.validators ≡ none)
          × (e ≡ validator_not_found))

  -- The account has less than the amount, or another denomination.
  abbrev pub Panics : Type 0
  Panics =
      (hc : HostChain) × (account : IcaAccount) × Found hc
      × (hc.delegation_account ≡ some account)
      × ((same account.balance.denom m.amount.denom ≡ false)
          ⊎ (account.balance.amount < m.amount.amount))

  by_delegator :
      (hc : HostChain)
      → Found hc
      → first_chain (has_delegator m.delegator_address) (values (st.chains.entries s.chain_store))
        ≡ some hc
  unfolding get_host_chain_from_delegator_address
  by_delegator hc h = h

  -- The state after the guards.
  delegated :
      (hc : HostChain) (before : IcaAccount) (left : Coin) (v : Validator)
      → Found hc
      → hc.delegation_account ≡ some before
      → before.balance.denom ≡ m.amount.denom
      → left.denom ≡ before.balance.denom
      → left.amount + m.amount.amount ≡ before.balance.amount
      → get_validator m.validator_address hc.validators ≡ some v
      → let after = record before { balance = left } in
        let hc' = record hc {
          delegation_account = some after;
          validators = put_validator (delegated_more m.amount.amount v) hc.validators;
        } in
        Delegates (record s {
          deposit_store =
              delete_each st.deposits key_of
                (get_deposits_with_sequence_id st.deposits q s.deposit_store)
                s.deposit_store;
          chain_store = set_host_chain st.chains hc' (set_host_chain st.chains hc' s.chain_store);
        })
  unfolding get_deposits_with_sequence_id
  delegated hc before left v found h e d sum there =
      let after : IcaAccount = record before { balance = left } in
      let hc' : HostChain = record hc {
        delegation_account = some after;
        validators = put_validator (delegated_more m.amount.amount v) hc.validators;
      } in
      (
        hc,
        before,
        after,
        hc',
        (
          found,
          h,
          refl,
          refl,
          d,
          refl,
          e,
          sum,
          put-Changes m.validator_address (pos m.amount.amount) v hc.validators there,
          set-Stored_after st.chains chain_laws hc' hc' s.chain_store _ refl
              (set-Stored st.chains chain_laws hc' s.chain_store),
          delete_each-select st.deposits deposit_laws key_of (λ d. same d.ibc_sequence_id q)
              s.deposit_store keyed,
          refl,
        ),
      )

  -- On deposits under their keys, the acknowledgement of a delegation that succeeds takes the amount
  -- off the balance of the chain's delegation account and adds it to what is delegated to the
  -- validator, and so to the chain's total; no other validator and no other chain changes, just the
  -- deposits with the sequence id of the transaction are deleted, and nothing else changes. It is
  -- refused only when no chain has the delegator or the chain has no such validator, with the error
  -- of each, and panics only when the account has less than the amount or another denomination.
  pub handle_delegate_response-Delegates :
      Ends Delegates Refused Panics
        (handle_delegate_response st bank module_address m channel sequence s)
  unfolding handle_delegate_response set_host_chain_validator
  handle_delegate_response-Delegates =
      found-Ends Delegates Refused Panics _ _ _ (λ e. inl (e, refl))
        (λ hc found.
          let account = has_delegator-account m.delegator_address hc (
            first_chain_passes (has_delegator m.delegator_address) hc
              (values (st.chains.entries s.chain_store)) (by_delegator hc found)) in
          chain-Ends Delegates Refused Panics (Paid hc m.amount) (λ e. Never) (Short hc m.amount)
            (pay_delegation hc m.amount) _ (pay_delegation-Pays hc m.amount account.0 account.1)
            (λ e h. elim h [ ]) (λ (a, h, why). (hc, a, found, h, why))
            (λ paid (before, left, h, e, d, sum, p). rw p (
              found-Ends Delegates Refused Panics _ _ _
                (λ none_there. inr (hc, found, none_there, refl))
                (λ v there. delegated hc before left v found h e d sum there))))
