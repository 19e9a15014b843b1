-- ===== src/Ibc/Messages/Stake.antt =====
-- How a stake ends: every balance, the record of the epoch, and why it may be refused.
use mathlib.Core.Path.{subst}
use pstake_native_test.Base.{
  ap, err, refuse-Ends, ◌>>=◌, require-Ends, inl, wrapped-Ends, found-Ends, ◌∙◌, Ends, inr, Outcome,
  ℕ, ◌+◌, ◌*◌, ◌/◌, ◌<◌, ◌≡◌, ◌⊎◌, refl, true, false, ◌&&◌, none, some, arith, ok, panic, ◌==◌,
  sum_by,
}
use pstake_native_test.Base.Int.{pos, ◌≤ℤ◌, ltb_ℤ}
use pstake_native_test.Base.Text.{same_iff, Bytes}
use pstake_native_test.Sdk.Coin.{Coin, coin}
use pstake_native_test.Sdk.Dec.{DecOps, DecLaws, one}
use pstake_native_test.Sdk.Store.{StoreLaws}
use pstake_native_test.Sdk.Store.Content.{values, lookup, insert, sum_by-insert}
use pstake_native_test.Sdk.Store.Update.{IsKeyed}
use pstake_native_test.Ibc.Types.{
  HostChain, Deposit, Error, invalid_host_chain, host_chain_inactive, min_deposit,
  deposit_not_found, failed_deposit, mint_failed, invalid_address,
}
use pstake_native_test.Ibc.Deposit.{
  key_of, coin_amount, on_chain, set_deposit, get_deposit_for_chain_and_epoch,
}
use pstake_native_test.Ibc.HostChain.{get_host_chain_from_ibc_denom}
use pstake_native_test.Ibc.Bank.{Account, user, module_of, Bank, BankLaws, part}
use pstake_native_test.Ibc.State.{Stores, State, module_name, deposit_account, delegation_epoch}
use pstake_native_test.Ibc.Messages.{
  deposit_and_mint, liquid_stake, mint_denom, minted_for, fee_of, add_to_deposit,
}
use pstake_native_test.Ibc.Messages.Calls.{
  fee_of-share, minted_for-exact, share_minted-Shares, minted_exact, Shares, BankCall, CallFails,
  lookup-first,
}

-- The bank leaves the epochs alone.
pub record EpochLaws {W : Type 0} (bank : Bank W) (current_epoch : Bytes → W → ℕ) : Type 0 where
  pub epoch-send :
      (a b : Account) (c : Coin) (w w' : W) (e : Bytes)
      → bank.send a b c w ≡ ok w'
      → current_epoch e w' ≡ current_epoch e w

module _ (st : Stores) {W : Type 0} (bank : Bank W) (dec : DecOps) (ibc_denom : HostChain → Bytes)
    (current_epoch : Bytes → W → ℕ) (delegator : Bytes) (amount : Coin) (s : State st W) where
  -- What a stake has done, for the chain `hc`, the address `a` and the fee address `f`.
  pub record Staked (hc : HostChain) (a f : Bytes) (d : Deposit) (s' : State st W) : Type 0 where
    pub found :
        get_host_chain_from_ibc_denom st.chains ibc_denom amount.denom s.chain_store ≡ some hc
    pub active : hc.active ≡ true
    pub enough : hc.minimum_deposit ≤ℤ pos amount.amount
    pub parsed : bank.parse_address delegator ≡ some a
    -- The minted tokens are worth the amount, and are shared by the user and the fee address.
    pub kept : ℕ
    pub minted :
        kept + (fee_of hc.params.deposit_fee (minted_for dec hc amount.amount)).amount
        ≡ amount.amount * hc.c_value / one
    -- The fee is its share of them, and goes to the fee address of the parameters.
    pub fee :
        fee_of hc.params.deposit_fee (minted_for dec hc amount.amount)
        ≡ coin (mint_denom hc) (hc.params.deposit_fee * (amount.amount * hc.c_value / one) / one)
    pub fee_to :
        0 < (fee_of hc.params.deposit_fee (minted_for dec hc amount.amount)).amount
        → bank.parse_address s.params.fee_address ≡ some f
    -- The user pays the amount to the deposit account and gets the minted tokens but for the fee; no
    -- other balance changes.
    pub balances :
        (x : Account) (e : Bytes)
        → bank.balance s'.world x e + part x e (user a) amount
          ≡ bank.balance s.world x e
            + part x e (module_of deposit_account) amount
            + part x e (user a) (coin (mint_denom hc) kept)
            + part x e (user f) (fee_of hc.params.deposit_fee (minted_for dec hc amount.amount))
    -- The record of the chain and epoch grows by the amount, and no other record changes.
    pub of_chain : d.chain_id ≡ hc.chain_id
    pub of_epoch : d.epoch ≡ current_epoch delegation_epoch s.world
    pub recorded : lookup (key_of d) (st.deposits.entries s.deposit_store) ≡ some d
    pub stored :
        st.deposits.entries s'.deposit_store
        ≡ insert
            (key_of d)
            (record d { amount = coin d.amount.denom (d.amount.amount + amount.amount) })
            (st.deposits.entries s.deposit_store)
    pub total :
        sum_by coin_amount (values (st.deposits.entries s'.deposit_store))
        ≡ sum_by coin_amount (values (st.deposits.entries s.deposit_store)) + amount.amount

  abbrev pub Deposits : State st W → Type 0
  Deposits s' = (hc : HostChain) × (a : Bytes) × (f : Bytes) × (d : Deposit) × Staked hc a f d s'

  -- Why a stake on a chain is refused.
  abbrev pub RefusedOn : HostChain → Error → Type 0
  RefusedOn hc e =
      ((hc.active ≡ false) × (e ≡ host_chain_inactive))
      ⊎ ((ltb_ℤ (pos amount.amount) hc.minimum_deposit ≡ true) × (e ≡ min_deposit))
      ⊎ ((bank.parse_address delegator ≡ none) × (e ≡ invalid_address))
      ⊎ ((get_deposit_for_chain_and_epoch st.deposits hc.chain_id
              (current_epoch delegation_epoch s.world) s.deposit_store
            ≡ none)
          × (e ≡ deposit_not_found))
      ⊎ (CallFails bank s.params.fee_address × ((e ≡ failed_deposit) ⊎ (e ≡ mint_failed)))

  abbrev pub Refused : Error → Type 0
  Refused e =
      ((get_host_chain_from_ibc_denom st.chains ibc_denom amount.denom s.chain_store ≡ none)
        × (e ≡ invalid_host_chain))
      ⊎ ((hc : HostChain) × (get_host_chain_from_ibc_denom st.chains ibc_denom amount.denom
              s.chain_store
            ≡ some hc)
          × RefusedOn hc e)

  -- A panic is one of the bank, or the fee of the chain is more than what is minted.
  abbrev pub Panics : Type 0
  Panics =
      BankCall bank panic
      ⊎ ((hc : HostChain) × (get_host_chain_from_ibc_denom st.chains ibc_denom amount.denom
              s.chain_store
            ≡ some hc)
          × (one < hc.params.deposit_fee))

  module _ (bank_laws : BankLaws bank) (dec_laws : DecLaws dec) (store_laws : StoreLaws st.deposits)
      (epoch_laws : EpochLaws bank current_epoch) where
    -- What the record of the epoch becomes.
    module _ (keyed : IsKeyed key_of (st.deposits.entries s.deposit_store)) (hc : HostChain) (n : ℕ)
        (d : Deposit)
        (h : get_deposit_for_chain_and_epoch st.deposits hc.chain_id n s.deposit_store
          ≡ some d) where
      recorded_under :
          (lookup (key_of d) (st.deposits.entries s.deposit_store) ≡ some d)
          × ((d.epoch == n && on_chain hc.chain_id d) ≡ true)
      unfolding get_deposit_for_chain_and_epoch
      recorded_under = lookup-first _ _ d keyed h

      stored_entries :
          st.deposits.entries
            (set_deposit st.deposits (add_to_deposit amount.amount d) s.deposit_store)
          ≡ insert
              (key_of d)
              (record d { amount = coin d.amount.denom (d.amount.amount + amount.amount) })
              (st.deposits.entries s.deposit_store)
      unfolding set_deposit add_to_deposit
      stored_entries = store_laws.entries-set (key_of d) _ s.deposit_store

      stored_total :
          sum_by coin_amount (
            values (
              insert
                (key_of d)
                (record d { amount = coin d.amount.denom (d.amount.amount + amount.amount) })
                (st.deposits.entries s.deposit_store)))
          ≡ sum_by coin_amount (values (st.deposits.entries s.deposit_store)) + amount.amount
      unfolding add_to_deposit
      stored_total = omega (
        arith,
        sum_by-insert coin_amount (key_of d)
            (record d { amount = coin d.amount.denom (d.amount.amount + amount.amount) }) d
            (st.deposits.entries s.deposit_store) keyed.0 recorded_under.0,
      )

    -- Once the guards are passed: the calls, and the record between them.
    module _ (keyed : IsKeyed key_of (st.deposits.entries s.deposit_store)) (hc : HostChain)
        (a : Bytes)
        (found : get_host_chain_from_ibc_denom st.chains ibc_denom amount.denom s.chain_store
          ≡ some hc)
        (active : hc.active ≡ true) (enough : hc.minimum_deposit ≤ℤ pos amount.amount)
        (parsed : bank.parse_address delegator ≡ some a) where
      shared :
          (d : Deposit) (w1 w2 w4 : W)
          → bank.send (user a) (module_of deposit_account) amount s.world ≡ ok w1
          → get_deposit_for_chain_and_epoch st.deposits hc.chain_id
              (current_epoch delegation_epoch w1)
              s.deposit_store
            ≡ some d
          → bank.mint module_name (minted_for dec hc amount.amount) w1 ≡ ok w2
          → Shares bank hc a (minted_for dec hc amount.amount) s.params.fee_address w2 (ok w4)
          → Deposits (record s {
            deposit_store =
                set_deposit st.deposits (add_to_deposit amount.amount d) s.deposit_store;
            world = w4;
          })
      unfolding minted_for
      shared d w1 w2 w4 e1 h e2 (kept, f, named, sum, balances) =
          let under = recorded_under keyed hc (current_epoch delegation_epoch w1) d h in
          let minted = minted_for dec hc amount.amount in
          (
            hc,
            a,
            f,
            d,
            record {
              found = found;
              active = active;
              fee =
                  fee_of-share hc.params.deposit_fee minted
                  ∙ ap (λ c. coin c.denom (hc.params.deposit_fee * c.amount / one))
                      (minted_for-exact dec dec_laws hc amount.amount);
              fee_to = named;
              enough = enough;
              parsed = parsed;
              kept = kept;
              minted = sum ∙ minted_exact dec dec_laws hc amount.amount;
              balances = λ x e. omega (
                arith,
                bank_laws.balance-send (user a) (module_of deposit_account) amount s.world w1 e1 x
                    e,
                bank_laws.balance-mint module_name minted w1 w2 e2 x e,
                balances x e,
              );
              of_chain = ground (arith, same_iff d.chain_id hc.chain_id, under.1);
              of_epoch =
                  ground (arith, under.1)
                  ∙ epoch_laws.epoch-send (user a) (module_of deposit_account) amount s.world w1
                      delegation_epoch e1;
              recorded = under.0;
              stored = stored_entries keyed hc (current_epoch delegation_epoch w1) d h;
              total =
                  rw (stored_entries keyed hc (current_epoch delegation_epoch w1) d h)
                    (stored_total keyed hc (current_epoch delegation_epoch w1) d h);
            },
          )

      failed :
          (e : Error)
          → CallFails bank s.params.fee_address
          → (e ≡ failed_deposit) ⊎ (e ≡ mint_failed)
          → Refused e
      failed e call which = inr (hc, found, inr (inr (inr (inr (call, which)))))

      share-Deposits :
          (d : Deposit) (w1 w2 : W) (r : Outcome Error W)
          → bank.send (user a) (module_of deposit_account) amount s.world ≡ ok w1
          → get_deposit_for_chain_and_epoch st.deposits hc.chain_id
              (current_epoch delegation_epoch w1)
              s.deposit_store
            ≡ some d
          → bank.mint module_name (minted_for dec hc amount.amount) w1 ≡ ok w2
          → Shares bank hc a (minted_for dec hc amount.amount) s.params.fee_address w2 r
          → Ends Deposits Refused Panics (
              r >>= λ w4. ok (record s {
                deposit_store =
                    set_deposit st.deposits (add_to_deposit amount.amount d) s.deposit_store;
                world = w4;
              }))
      share-Deposits d w1 w2 (ok w4) e1 h e2 shares = shared d w1 w2 w4 e1 h e2 shares
      share-Deposits d w1 w2 (err e) e1 h e2 (call, which) = failed e call which
      share-Deposits d w1 w2 panic e1 h e2 (inl call) = inl call
      share-Deposits d w1 w2 panic e1 h e2 (inr large) = inr (hc, found, large)

      no_deposit :
          (w1 : W)
          → bank.send (user a) (module_of deposit_account) amount s.world ≡ ok w1
          → get_deposit_for_chain_and_epoch st.deposits hc.chain_id
              (current_epoch delegation_epoch w1)
              s.deposit_store
            ≡ none
          → Refused deposit_not_found
      no_deposit w1 e1 gone =
          let same_epoch =
            epoch_laws.epoch-send (user a) (module_of deposit_account) amount s.world w1
              delegation_epoch e1 in
          let none_there =
            subst
              (λ n.
                get_deposit_for_chain_and_epoch st.deposits hc.chain_id n s.deposit_store ≡ none)
              same_epoch gone in
          inr (hc, found, inr (inr (inr (inl (none_there, refl)))))

      deposit_and_mint-Deposits :
          Ends Deposits Refused Panics
            (deposit_and_mint st bank dec ibc_denom current_epoch hc a amount s)
      unfolding deposit_and_mint
      deposit_and_mint-Deposits =
          let minted = minted_for dec hc amount.amount in
          wrapped-Ends Deposits Refused Panics failed_deposit
            (bank.send (user a) (module_of deposit_account) amount s.world) _
            (λ e h.
              failed failed_deposit
                (inl (e, inl (user a, module_of deposit_account, amount, s.world, h))) (inl refl))
            (λ h. inl (inl (user a, module_of deposit_account, amount, s.world, h)))
            (λ w1 e1.
              found-Ends Deposits Refused Panics
                (get_deposit_for_chain_and_epoch st.deposits hc.chain_id
                  (current_epoch delegation_epoch w1) s.deposit_store)
                _ _ (λ gone. no_deposit w1 e1 gone)
                (λ d h.
                  wrapped-Ends Deposits Refused Panics mint_failed (bank.mint module_name minted w1)
                    _
                    (λ e no_mint.
                      failed mint_failed (inl (e, inr (inl (module_name, minted, w1, no_mint))))
                        (inr refl))
                    (λ no_mint. inl (inr (inl (module_name, minted, w1, no_mint))))
                    (λ w2 e2. share-Deposits d w1 w2 _ e1 h e2 (
                      share_minted-Shares st bank dec ibc_denom current_epoch bank_laws hc a minted
                        s.params.fee_address w2))))

    -- On a store with its records under their keys, a stake that succeeds is of the minimum at least
    -- on an active chain. It mints the amount times the value of the token, without the fraction, and
    -- shares it between the user and the fee address of the parameters, which gets its share; the user pays the amount to the deposit account,
    -- and no other balance changes. The record of the chain and epoch grows by exactly the amount, and
    -- with it the total of the deposits. A refusal has one of the listed causes, with its error, and a
    -- panic is one of the bank or of a fee of the chain above one.
    pub liquid_stake-Deposits :
        IsKeyed key_of (st.deposits.entries s.deposit_store)
        → Ends Deposits Refused Panics
            (liquid_stake st bank dec ibc_denom current_epoch delegator amount s)
    unfolding liquid_stake
    liquid_stake-Deposits keyed =
        found-Ends Deposits Refused Panics _ _ _ (λ none_found. inl (none_found, refl))
          (λ hc found.
            require-Ends Deposits Refused Panics hc.active _ _
              (λ off. inr (hc, found, inl (off, refl)))
              (λ on.
                refuse-Ends Deposits Refused Panics (ltb_ℤ (pos amount.amount) hc.minimum_deposit) _
                  _ (λ low. inr (hc, found, inr (inl (low, refl))))
                  (λ enough.
                    found-Ends Deposits Refused Panics _ _ _
                      (λ bad. inr (hc, found, inr (inr (inl (bad, refl)))))
                      (λ a parsed.
                        deposit_and_mint-Deposits keyed hc a found on (ground arith) parsed))))
