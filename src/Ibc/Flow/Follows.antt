-- ===== src/Ibc/Flow/Follows.antt =====
-- How each event of a deposit follows the diagram of the stages.
use pstake_native_test.Ibc.LsmDeposit.{
  get_lsm_deposits_from_ibc_sequence_id, revert_lsm_deposits_state,
}
use pstake_native_test.Base.{
  ◌-◌, ℕ, not, require, ◌≡◌, refl, ap, ◌∙◌, inl, inr, Bool, true, false, ◌&&◌, Option, none, some,
  List, [], ◌∷◌, arith, All, select, Bool-cases, if◌then◌else◌, Outcome, ok, err, panic, ◌>>=◌,
  ◌>>◌, Ends, Returns, found_or, found-Ends, bind-Ends, chain-Ends,
}
use pstake_native_test.Base.Text.{Bytes, same}
use pstake_native_test.Sdk.Store.{StoreLaws}
use pstake_native_test.Sdk.Store.Content.{Entries, values}
use pstake_native_test.Sdk.Store.Update.{IsKeyed, update_where, set_each, set_each-select}
use pstake_native_test.Ibc.Types.{Deposit, DepositState, HostChain, Error, other}
use pstake_native_test.Ibc.Keys.{transaction_sequence_id}
use pstake_native_test.Ibc.Deposit.{
  key_of, state_is, on_chain, get_deposits_with_sequence_id, get_delegable_deposits_for_chain,
  revert_deposits_state, set_deposit,
}
use pstake_native_test.Ibc.Deposit.Amounts.{entries-taken_back, taken_back, number, numbered}
use pstake_native_test.Ibc.Strategy.{Message}
use pstake_native_test.Ibc.HostChain.{get_host_chain}
use pstake_native_test.Ibc.State.{Stores, State, deposit_account}
use pstake_native_test.Ibc.Acks.{delegation_account}
use pstake_native_test.Ibc.Flow.{
  lsm_chains_of, chains_of, Router, TransferData, generate_and_execute_ica_tx, deposit_received,
  deposit_delegating, receive_deposits, chains_found, on_acknowledgement_transfer,
  on_timeout_transfer, after_delegate, delegate_deposits, if_any,
}
use pstake_native_test.Ibc.Flow.Stage.{
  at, stay, stage, ◌⟶◌, receive, start, back, Steps, Steps-same, Steps-update,
}

pub All-every : {A : Type 0} (P : A → Type 0) (xs : List A) → ((x : A) → P x) → All P xs
All-every P [] h = tt
All-every P (x ∷ xs) h = (h x, All-every P xs h)

pub All-map :
    (P Q : Bytes × Deposit → Type 0) (es : Entries Deposit)
    → ((e : Bytes × Deposit) → P e → Q e)
    → All P es
    → All Q es
All-map P Q [] f h = tt
All-map P Q (e ∷ es) f (h, hs) = (f e h, All-map P Q es f hs)

pub Steady-of :
    {A : Type 0} (P' P : A → Type 0) (Q' : Error → Type 0) (R' : Type 0) (r : Outcome Error A)
    → Ends P' Q' R' r
    → ((a : A) → P' a → P a)
    → Ends P (λ e. Unit {0}) (Unit {0}) r
Steady-of P' P Q' R' (ok a) h f = f a h
Steady-of P' P Q' R' (err e) h f = tt
Steady-of P' P Q' R' panic h f = tt

pub Returns-Steady :
    {A : Type 0} (P' P : A → Type 0) (r : Outcome Error A)
    → Returns P' r
    → ((a : A) → P' a → P a)
    → Ends P (λ e. Unit {0}) (Unit {0}) r
Returns-Steady P' P (ok a) h f = f a h
Returns-Steady P' P (err e) h f = tt
Returns-Steady P' P panic h f = tt

back-number : (x : DepositState) (n : ℕ) → at x n ⟶ at (numbered (number x - 1)) n
back-number DepositState.pending n = stay
back-number DepositState.sent n = back refl
back-number DepositState.received n = back refl
back-number DepositState.delegating n = back refl

-- After a call whose errors and panics do not matter.
bind-Steady :
    {A B : Type 0} (P : B → Type 0) (r : Outcome Error A) (f : A → Outcome Error B)
    → ((a : A) → Ends P (λ e. Unit {0}) (Unit {0}) (f a))
    → Ends P (λ e. Unit {0}) (Unit {0}) (r >>= f)
bind-Steady P (ok a) f h = h a
bind-Steady P (err e) f h = tt
bind-Steady P panic f h = tt

is_received :
    (x : DepositState) → state_is x DepositState.received ≡ true → x ≡ DepositState.received
is_received DepositState.pending h = cc h
is_received DepositState.sent h = cc h
is_received DepositState.received h = refl
is_received DepositState.delegating h = cc h

delegable_start :
    (c q : Bytes) (d : Deposit)
    → (on_chain c d && state_is d.state DepositState.received) ≡ true
    → stage (some d) ⟶ stage (some (deposit_delegating q d))
unfolding deposit_delegating
delegable_start c q d h = rw (is_received d.state (ground arith)) start

pub if_any-Ends :
    (st : Stores) {W : Type 0} (router : Router W) (module_address : Bytes → Bytes)
    (P : State st W → Type 0) (ds : List Deposit) (s : State st W) (r : Outcome Error (State st W))
    → P s
    → Ends P (λ e. Unit {0}) (Unit {0}) r
    → Ends P (λ e. Unit {0}) (Unit {0}) (if_any st router module_address ds s r)
unfolding if_any
if_any-Ends st router module_address P [] s r h k = h
if_any-Ends st router module_address P (d ∷ ds) s r h k = k

module _ (st : Stores) {W : Type 0} (router : Router W) (module_address : Bytes → Bytes) where
  -- The deposits with a sequence id are in a state.
  abbrev pub AllIn : DepositState → Bytes → State st W → Type 0
  AllIn x q s =
      All (λ e. same e.1.ibc_sequence_id q ≡ true → e.1.state ≡ x)
        (st.deposits.entries s.deposit_store)

  module _ (laws : StoreLaws st.deposits) where
    abbrev pub StepsTo : State st W → State st W → Type 0
    StepsTo s s' =
        Steps (st.deposits.entries s.deposit_store) (st.deposits.entries s'.deposit_store)

    revert-Steps :
        (q : Bytes) (s : State st W) (store : st.deposits.Store)
        → IsKeyed key_of (st.deposits.entries s.deposit_store)
        → st.deposits.entries store
          ≡ update_where
              (λ d. same d.ibc_sequence_id q)
              taken_back
              (st.deposits.entries s.deposit_store)
        → Steps (st.deposits.entries s.deposit_store) (st.deposits.entries store)
    revert-Steps q s store k e = rw e (
        Steps-update (λ d. same d.ibc_sequence_id q) taken_back
          (st.deposits.entries s.deposit_store)
          (All-every _ _ (λ e h. back-number e.1.state e.1.amount.amount)))

    abbrev pub Follows : State st W → Outcome Error (State st W) → Type 0
    Follows s r = Ends (StepsTo s) (λ e. Unit {0}) (Unit {0}) r

    pub reverted-Steps :
        (q : Bytes) (s : State st W) (store : st.deposits.Store) (b : Bool)
        → IsKeyed key_of (st.deposits.entries s.deposit_store)
        → st.deposits.entries store ≡ (
            if b
            then update_where
                (λ d. same d.ibc_sequence_id q)
                taken_back
                (st.deposits.entries s.deposit_store)
            else st.deposits.entries s.deposit_store)
        → Steps (st.deposits.entries s.deposit_store) (st.deposits.entries store)
    reverted-Steps q s store true k e = revert-Steps q s store k e
    reverted-Steps q s store false k e = Steps-same _ _ e

    each-Steps :
        (p : Deposit → Bool) (g : Deposit → Deposit) (s store : st.deposits.Store)
        → ((d : Deposit) → key_of (g d) ≡ key_of d)
        → IsKeyed key_of (st.deposits.entries s)
        → store ≡ set_each st.deposits key_of g (select p (values (st.deposits.entries s))) s
        → All (λ e. p e.1 ≡ true → stage (some e.1) ⟶ stage (some (g e.1))) (st.deposits.entries s)
        → Steps (st.deposits.entries s) (st.deposits.entries store)
    each-Steps p g s store keeps k e h =
        rw (ap st.deposits.entries e ∙ set_each-select st.deposits laws key_of g p s keeps k)
          (Steps-update p g (st.deposits.entries s) h)

    receive_deposits-Holds :
        (amount : ℕ) (ds : List Deposit) (s : State st W)
        → Ends
            (λ s'.
              s'.deposit_store ≡ set_each st.deposits key_of deposit_received ds s.deposit_store)
            (λ e. Unit {0})
            (Unit {0})
            (receive_deposits st router module_address amount ds s)
    unfolding receive_deposits set_each set_deposit deposit_received
    receive_deposits-Holds amount [] s = refl
    receive_deposits-Holds amount (d ∷ ds) s =
        let P = λ (s' : State st W).
          s'.deposit_store
          ≡ set_each st.deposits key_of deposit_received (d ∷ ds) s.deposit_store in
        found-Ends P (λ e. Unit {0}) (Unit {0}) (get_host_chain st.chains d.chain_id s.chain_store)
          other _ (λ h. tt)
          (λ hc h.
            bind-Ends P (λ e. Unit {0}) (Unit {0}) (delegation_account hc) _ (λ e h. tt) (λ h. tt)
              (λ account h'. receive_deposits-Holds amount ds _))

    received-Follows :
        (amount : ℕ) (q : Bytes) (s : State st W) (f : State st W → Outcome Error (State st W))
        → AllIn DepositState.sent q s
        → IsKeyed key_of (st.deposits.entries s.deposit_store)
        → ((s' : State st W)
            → Ends (λ s''. s''.deposit_store ≡ s'.deposit_store) (λ e. Unit {0}) (Unit {0}) (f s'))
        → Follows s (
            receive_deposits st router module_address amount
              (get_deposits_with_sequence_id st.deposits q s.deposit_store)
              s
            >>= f)
    unfolding get_deposits_with_sequence_id deposit_received
    received-Follows amount q s f h k keeps =
        let p = λ (d : Deposit). same d.ibc_sequence_id q in
        let ds = get_deposits_with_sequence_id st.deposits q s.deposit_store in
        let received = λ (s' : State st W).
          s'.deposit_store ≡ set_each st.deposits key_of deposit_received ds s.deposit_store in
        chain-Ends (StepsTo s) (λ e. Unit {0}) (Unit {0}) received (λ e. Unit {0}) (Unit {0})
          (receive_deposits st router module_address amount ds s) f
          (receive_deposits-Holds amount ds s) (λ e h. tt) (λ h. tt)
          (λ s' held.
            Steady-of (λ (s'' : State st W). s''.deposit_store ≡ s'.deposit_store) (StepsTo s)
              (λ e. Unit {0}) (Unit {0}) (f s') (keeps s')
              (λ s'' kept.
                each-Steps p deposit_received s.deposit_store s''.deposit_store (λ d. refl) k
                  (kept ∙ held) (All-map _ _ _ (λ e at_q there. rw (at_q there) receive) h)))

    pub transfer_acked-Follows :
        (failed : Bool) (ack : Option Bool) (packet : Option TransferData) (channel : Bytes)
        (sequence : ℕ) (s : State st W)
        → AllIn DepositState.sent (transaction_sequence_id channel sequence) s
        → IsKeyed key_of (st.deposits.entries s.deposit_store)
        → Follows s (
            on_acknowledgement_transfer st router module_address failed ack packet channel sequence
              s)
    unfolding on_acknowledgement_transfer
    transfer_acked-Follows failed ack packet channel sequence s h k =
        bind-Steady (StepsTo s) (require (not failed) other >> found_or ack other) _ (λ success.
          bind-Steady (StepsTo s) (require success other >> found_or packet other) _ (λ sent_data.
            bind-Steady (StepsTo s) (found_or sent_data.amount other) _ (λ amount.
              elim (Bool-cases (same sent_data.sender (module_address deposit_account))) [
                | inl b ↦ rw b (
                    received-Follows amount (transaction_sequence_id channel sequence) s _ h k
                      (λ s'.
                        bind-Steady (λ s''. s''.deposit_store ≡ s'.deposit_store)
                          (chains_found st router module_address
                            (lsm_chains_of st router module_address (
                              get_lsm_deposits_from_ibc_sequence_id st.lsm_deposits
                                (transaction_sequence_id channel sequence) s'.lsm_store))
                            _)
                          _ (λ u. refl)))
                | inr b ↦ rw b (Steps-same _ _ refl)
              ])))

    abbrev timed_out : Bytes → State st W → State st W
    timed_out q s = record s {
      deposit_store =
          revert_deposits_state st.deposits
            (get_deposits_with_sequence_id st.deposits q s.deposit_store) s.deposit_store;
      lsm_store =
          revert_lsm_deposits_state st.lsm_deposits
            (get_lsm_deposits_from_ibc_sequence_id st.lsm_deposits q s.lsm_store) s.lsm_store;
    }

    pub transfer_timed_out-Follows :
        (failed : Bool) (packet : Option TransferData) (channel : Bytes) (sequence : ℕ)
        (s : State st W)
        → IsKeyed key_of (st.deposits.entries s.deposit_store)
        → Follows s (on_timeout_transfer st router module_address failed packet channel sequence s)
    unfolding on_timeout_transfer
    transfer_timed_out-Follows failed packet channel sequence s k =
        let q = transaction_sequence_id channel sequence in
        bind-Steady (StepsTo s) (require (not failed) other >> found_or packet other) _
          (λ sent_data. elim (Bool-cases (same sent_data.sender (module_address deposit_account))) [
            | inl b ↦ rw b (
                bind-Steady (StepsTo s)
                  (chains_found st router module_address
                    (chains_of st router module_address
                      (get_deposits_with_sequence_id st.deposits q s.deposit_store))
                    (timed_out q s))
                  _
                  (λ u.
                    bind-Steady (StepsTo s)
                      (chains_found st router module_address
                        (lsm_chains_of st router module_address
                          (get_lsm_deposits_from_ibc_sequence_id st.lsm_deposits q s.lsm_store))
                        (timed_out q s))
                      (λ v. ok (timed_out q s))
                      (λ v.
                        revert-Steps q s _ k
                          (entries-taken_back st.deposits laws q s.deposit_store k))))
            | inr b ↦ rw b (Steps-same _ _ refl)
          ])

    after_delegate-Follows :
        (c : Bytes) (s : State st W) (o : Option Bytes) (w : W)
        → IsKeyed key_of (st.deposits.entries s.deposit_store)
        → StepsTo s (
            after_delegate st router module_address
              (get_delegable_deposits_for_chain st.deposits c s.deposit_store)
              s
              (o, w))
    unfolding after_delegate get_delegable_deposits_for_chain deposit_delegating
    after_delegate-Follows c s none w k = Steps-same _ _ refl
    after_delegate-Follows c s (some q) w k =
        each-Steps (λ d. on_chain c d && state_is d.state DepositState.received)
          (deposit_delegating q) s.deposit_store _ (λ d. refl) k refl
          (All-every _ _ (λ e. delegable_start c q e.1))

    pub delegate_deposits-Follows :
        (hc : HostChain) (r : Outcome Error (List Message)) (s : State st W)
        → IsKeyed key_of (st.deposits.entries s.deposit_store)
        → Follows s (
            delegate_deposits st router module_address hc
              (get_delegable_deposits_for_chain st.deposits hc.chain_id s.deposit_store)
              r
              s)
    unfolding delegate_deposits
    delegate_deposits-Follows hc (ok messages) s k =
        bind-Steady (StepsTo s) (delegation_account hc) _ (λ account.
          bind-Steady (StepsTo s)
            (generate_and_execute_ica_tx st router module_address hc.connection_id account.owner
              messages s.world)
            _ (λ r. after_delegate-Follows hc.chain_id s r.0 r.1 k))
    delegate_deposits-Follows hc (err e) s k = Steps-same _ _ refl
    delegate_deposits-Follows hc panic s k = tt
