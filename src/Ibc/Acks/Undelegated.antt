-- ===== src/Ibc/Acks/Undelegated.antt =====
-- An undelegation that was made on the host chain, as the keeper records it.
use pstake_native_test.Sdk.Store.Content.{values}
use pstake_native_test.Base.{
  select, weaken-Ends, ℕ, ◌+◌, ◌≡◌, refl, ap, ◌∙◌, ◌⊎◌, inl, inr, none, some, err, panic, Ends,
  List, [], ◌∷◌, sum_by, arith, chain-Ends, found-Ends, bind-Ends,
}
use pstake_native_test.Base.Text.{Bytes, same}
use pstake_native_test.Sdk.Store.{StoreLaws}
use pstake_native_test.Sdk.Store.Update.{IsKeyed, update_where, set_each, set_each-select}
use pstake_native_test.Ibc.Types.{
  UnbondingState, HostChain, Unbonding, Error, invalid_host_chain, validator_not_found,
}
use pstake_native_test.Ibc.Keys.{transaction_sequence_id}
use pstake_native_test.Ibc.Unbonding.{
  key_of_unbonding, key_of_validator_unbonding, filter_unbondings, filter_validator_unbondings,
  set_unbonding,
}
use pstake_native_test.Ibc.HostChain.{
  put_validator, get_host_chain_from_delegator_address, set_host_chain_validator,
}
use pstake_native_test.Ibc.Strategy.{get_validator}
use pstake_native_test.Ibc.Bank.{Bank, BankLaws, Account, module_of, part}
use pstake_native_test.Ibc.State.{Stores, State, undelegation_account}
use pstake_native_test.Ibc.Acks.{
  Delegate, handle_undelegate_response, burn_and_mature, unbonding_maturing,
  validator_unbonding_maturing, delegated_less,
}
use pstake_native_test.Ibc.Acks.Delegations.{Stored, Changes, set-Stored, put-Changes_less, neg}

module _ (st : Stores) {W : Type 0} (bank : Bank W) (bank_laws : BankLaws bank)
    (module_address : Bytes → Bytes) where
  -- What the burnt tokens are in an account's balance.
  abbrev pub burnt : Account → Bytes → List Unbonding → ℕ
  burnt x d us = sum_by (λ u. part x d (module_of undelegation_account) u.burn_amount) us

  abbrev pub Burns : ℕ → List Unbonding → st.unbondings.Store → W → st.unbondings.Store × W → Type 0
  Burns time us store w r =
      (r.0 ≡ set_each st.unbondings key_of_unbonding (unbonding_maturing time) us store)
      × ((x : Account) (d : Bytes) → bank.balance r.1 x d + burnt x d us ≡ bank.balance w x d)

  -- A call of the bank that fails.
  abbrev pub BurnFails : Error → Type 0
  BurnFails e = (u : Unbonding) × (w : W) × (bank.burn undelegation_account u.burn_amount w ≡ err e)

  abbrev pub BurnPanics : Type 0
  BurnPanics = (u : Unbonding) × (w : W) × (bank.burn undelegation_account u.burn_amount w ≡ panic)

  burn_and_mature-Burns :
      (time : ℕ) (us : List Unbonding) (store : st.unbondings.Store) (w : W)
      → Ends
          (Burns time us store w)
          BurnFails
          BurnPanics
          (burn_and_mature st bank module_address time us store w)
  unfolding burn_and_mature set_each set_unbonding unbonding_maturing
  burn_and_mature-Burns time [] store w = (refl, λ x d. omega arith)
  burn_and_mature-Burns time (u ∷ us) store w =
      bind-Ends (Burns time (u ∷ us) store w) BurnFails BurnPanics
        (bank.burn undelegation_account u.burn_amount w) _ (λ e h. (u, w, h)) (λ h. (u, w, h))
        (λ w' h.
          weaken-Ends (Burns time (u ∷ us) store w) BurnFails BurnPanics
            (Burns time us (set_unbonding st.unbondings (unbonding_maturing time u) store) w')
            (burn_and_mature st bank module_address time us
              (set_unbonding st.unbondings (unbonding_maturing time u) store) w')
            (burn_and_mature-Burns time us
              (set_unbonding st.unbondings (unbonding_maturing time u) store) w')
            (λ r (stored, balances). (
              stored,
              λ x d. omega (
                arith,
                balances x d,
                bank_laws.balance-burn undelegation_account u.burn_amount w w' h x d,
              ),
            )))

  module _ (chain_laws : StoreLaws st.chains) (unbonding_laws : StoreLaws st.unbondings)
      (validator_laws : StoreLaws st.validator_unbondings) (m : Delegate) (time : ℕ)
      (channel : Bytes) (sequence : ℕ) (s : State st W)
      (keyed : IsKeyed key_of_unbonding (st.unbondings.entries s.unbonding_store))
      (validators_keyed : IsKeyed key_of_validator_unbonding
        (st.validator_unbondings.entries s.validator_store)) where
    abbrev q : Bytes
    q = transaction_sequence_id channel sequence

    abbrev Found : HostChain → Type 0
    Found hc =
        get_host_chain_from_delegator_address st.chains m.delegator_address s.chain_store ≡ some hc

    abbrev matched : List Unbonding
    matched =
        select (λ u. same u.ibc_sequence_id q) (values (st.unbondings.entries s.unbonding_store))

    abbrev Undelegated : HostChain → HostChain → State st W → Type 0
    Undelegated hc hc' s' =
        Found hc
        × Changes m.validator_address (neg m.amount.amount) hc.validators hc'.validators
        × (hc' ≡ record hc { validators = hc'.validators })
        × Stored st.chains hc' s.chain_store s'.chain_store
        × (st.unbondings.entries s'.unbonding_store
            ≡ update_where (λ u. same u.ibc_sequence_id q)
                (λ u. record u {
                  ibc_sequence_id = [];
                  mature_time = some time;
                  state = UnbondingState.maturing;
                })
                (st.unbondings.entries s.unbonding_store))
        × (st.validator_unbondings.entries s'.validator_store
            ≡ update_where (λ u. same u.ibc_sequence_id q)
                (λ u. record u { ibc_sequence_id = []; mature_time = some time })
                (st.validator_unbondings.entries s.validator_store))
        × ((x : Account) (d : Bytes)
            → bank.balance s'.world x d + burnt x d matched ≡ bank.balance s.world x d)
        × (s' ≡ record s {
          chain_store = s'.chain_store;
          unbonding_store = s'.unbonding_store;
          validator_store = s'.validator_store;
          world = s'.world;
        })

    abbrev pub Undelegates : State st W → Type 0
    Undelegates s' = (hc : HostChain) × (hc' : HostChain) × Undelegated hc hc' s'

    abbrev pub Refused : Error → Type 0
    Refused e =
        ((get_host_chain_from_delegator_address st.chains m.delegator_address s.chain_store ≡ none)
          × (e ≡ invalid_host_chain))
        ⊎ ((hc : HostChain) × (Found hc
              × (get_validator m.validator_address hc.validators ≡ none)
              × (e ≡ validator_not_found)))
        ⊎ BurnFails e

    -- On unbondings under their keys, the acknowledgement of an undelegation that succeeds takes the
    -- amount off what is delegated to the validator, and so off the chain's total, and no other
    -- validator and no other chain changes; just the unbondings of the transaction, of the chain and
    -- of its validators, get the completion time and lose the sequence id, the chain's become
    -- maturing, and what these were to burn leaves the undelegation account; no other balance
    -- changes, nor anything else. It is refused only when no chain has the delegator, the validator
    -- is missing or a burn fails, and panics only when a burn does.
    pub handle_undelegate_response-Undelegates :
        Ends Undelegates Refused BurnPanics
          (handle_undelegate_response st bank module_address m time channel sequence s)
    unfolding handle_undelegate_response set_host_chain_validator filter_unbondings
        filter_validator_unbondings unbonding_maturing validator_unbonding_maturing
    handle_undelegate_response-Undelegates =
        found-Ends Undelegates Refused BurnPanics _ _ _ (λ e. inl (e, refl))
          (λ hc found.
            found-Ends Undelegates Refused BurnPanics _ _ _ (λ e. inr (inl (hc, (found, e, refl))))
              (λ v there.
                let hc' : HostChain = record hc {
                  validators = put_validator (delegated_less m.amount.amount v) hc.validators;
                } in
                chain-Ends Undelegates Refused BurnPanics
                  (Burns time matched s.unbonding_store s.world) BurnFails BurnPanics
                  (burn_and_mature st bank module_address time matched s.unbonding_store s.world) _
                  (burn_and_mature-Burns time matched s.unbonding_store s.world)
                  (λ e h. inr (inr h)) (λ h. h)
                  (λ r (stored, balances). (
                    hc,
                    hc',
                    (
                      found,
                      put-Changes_less m.validator_address m.amount.amount v hc.validators there,
                      refl,
                      set-Stored st.chains chain_laws hc' s.chain_store,
                      ap st.unbondings.entries stored
                          ∙ set_each-select st.unbondings unbonding_laws key_of_unbonding
                              (unbonding_maturing time) (λ u. same u.ibc_sequence_id q)
                              s.unbonding_store (λ u. refl) keyed,
                      set_each-select st.validator_unbondings validator_laws
                          key_of_validator_unbonding (validator_unbonding_maturing time)
                          (λ u. same u.ibc_sequence_id q) s.validator_store (λ u. refl)
                          validators_keyed,
                      balances,
                      refl,
                    ),
                  ))))
