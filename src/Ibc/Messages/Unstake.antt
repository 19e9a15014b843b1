-- ===== src/Ibc/Messages/Unstake.antt =====
-- How an unstake ends: every balance, the records of the user and of the epoch, and why it may be
-- refused.
use pstake_native_test.Ibc.Messages.Stake.{EpochLaws}
use pstake_native_test.Ibc.Epoch.{current_unbonding_epoch}
use pstake_native_test.Ibc.Unbonding.Users.{increase_user_unbonding_amount-Increases}
use pstake_native_test.Sdk.Store.Update.{IsKeyed}
use pstake_native_test.Sdk.Store.{StoreLaws}
use pstake_native_test.Base.{
  ◌/◌, ap, sym, ◌∙◌, [], Ends, require-Ends, refuse-Ends, found-Ends, bind-Ends, ◌>>=◌, ◌>>◌, inl,
  inr, refl, ok, err, Outcome, refuse, arith, ◌&&◌, ℕ, ◌+◌, ◌*◌, ◌≤◌, ◌<◌, ◌≡◌, ◌⊎◌, true, false,
  none, some, panic,
}
use pstake_native_test.Base.Int.{pos_part, ℤ, pos, ◌≤ℤ◌, ltb_ℤ, leb_ℤ}
use pstake_native_test.Base.Text.{same_iff, Bytes, same}
use pstake_native_test.Sdk.Coin.{coin_sub, Coin, coin}
use pstake_native_test.Sdk.Dec.{DecLaws, DecOps, one}
use pstake_native_test.Ibc.Types.{
  HostChain, Unbonding, UserUnbonding, Error, invalid_host_chain, host_chain_inactive, min_deposit,
  invalid_denom, not_enough_delegations, other,
}
use pstake_native_test.Ibc.Keys.{unbonding_key, user_unbonding_key, mint_denom_to_host_denom}
use pstake_native_test.Ibc.Unbonding.{
  increase_undelegating_amount_for_epoch, increase_user_unbonding_amount_for_epoch,
  key_of_unbonding, key_of_user_unbonding, get_unbonding,
}
use pstake_native_test.Ibc.Unbonding.Amounts.{
  Increases, increase_undelegating_amount-Increases, increase_undelegating_amount-recorded, total,
}
use pstake_native_test.Ibc.Strategy.{get_host_chain_total_delegations}
use pstake_native_test.Ibc.HostChain.{get_host_chain_from_host_denom}
use pstake_native_test.Ibc.Bank.{
  part_sum, part_denom, BankLaws, Account, user, module_of, Bank, part,
}
use pstake_native_test.Ibc.State.{undelegation_epoch, Stores, State, undelegation_account}
use pstake_native_test.Ibc.Messages.{
  check_delegations, record_unbonding, liquid_unstake, mint_denom, fee_of,
}
use pstake_native_test.Ibc.Messages.Worth.{UnbondsFor, unbonded_for-UnbondsFor}
use pstake_native_test.Ibc.Messages.Calls.{
  fee_of-share, FeePaid, SendsFee, send_positive_fee-SendsFee, Leaves, coin_sub-Leaves, BankCall,
  CallFails,
}

module _ (st : Stores) {W : Type 0} (bank : Bank W) (dec : DecOps) (ibc_denom : HostChain → Bytes)
    (current_epoch : Bytes → W → ℕ) (delegator : Bytes) (amount : Coin) (s : State st W) where
  abbrev pub unbonding_total : (Unbonding → Coin) → State st W → ℕ
  unbonding_total f t = total st.unbondings key_of_unbonding f f f t.unbonding_store

  abbrev pub user_total : (UserUnbonding → Coin) → State st W → ℕ
  user_total f t = total st.user_unbondings key_of_user_unbonding f f f t.user_store

  -- The chain whose tokens are unstaked, and the epoch at which it unbonds next.
  abbrev pub Of : HostChain → Type 0
  Of hc =
      (host_denom : Bytes) × (mint_denom_to_host_denom amount.denom ≡ some host_denom)
      × (get_host_chain_from_host_denom st.chains host_denom s.chain_store ≡ some hc)

  abbrev pub UnbondsAt : HostChain → ℕ → Type 0
  UnbondsAt hc n =
      (epoch : ℤ) × (current_unbonding_epoch hc.unbonding_factor
          (current_epoch undelegation_epoch s.world)
        ≡ ok epoch)
      × (n ≡ pos_part epoch)

  -- What an unstake has done, for the address `a` and the fee address `f`.
  pub record Unstaked (hc : HostChain) (a f : Bytes) (s' : State st W) : Type 0 where
    pub found : Of hc
    pub active : hc.active ≡ true
    pub enough : hc.minimum_deposit ≤ℤ pos amount.amount
    pub denominated : amount.denom ≡ mint_denom hc
    pub parsed : bank.parse_address delegator ≡ some a
    pub kept : ℕ
    pub split : kept + (fee_of hc.params.unstake_fee amount).amount ≡ amount.amount
    pub fee :
        fee_of hc.params.unstake_fee amount
        ≡ coin amount.denom (hc.params.unstake_fee * amount.amount / one)
    pub fee_to :
        0 < (fee_of hc.params.unstake_fee amount).amount
        → bank.parse_address s.params.fee_address ≡ some f
    pub unbond : Coin
    pub in_denom : unbond.denom ≡ hc.host_denom
    pub worth : 2 * (unbond.amount * hc.c_value * one) ≤ kept * (2 * (one * one) + hc.c_value)
    pub not_less :
        kept * (2 * (one * one)) ≤ 2 * ((unbond.amount + 1) * hc.c_value * one) + kept * hc.c_value
    -- The user pays the amount to the undelegation account, from where the fee goes to the fee
    -- address; no other balance changes.
    pub balances :
        (x : Account) (e : Bytes)
        → bank.balance s'.world x e + part x e (user a) amount
          ≡ bank.balance s.world x e
            + part x e (module_of undelegation_account) (coin amount.denom kept)
            + part x e (user f) (fee_of hc.params.unstake_fee amount)
    -- Both records grow by the rest and by what it is worth.
    pub to_burn :
        unbonding_total (λ u. u.burn_amount) s' ≡ unbonding_total (λ u. u.burn_amount) s + kept
    pub to_unbond :
        unbonding_total (λ u. u.unbond_amount) s'
        ≡ unbonding_total (λ u. u.unbond_amount) s + unbond.amount
    pub of_users : user_total (λ u. u.stk_amount) s' ≡ user_total (λ u. u.stk_amount) s + kept
    pub for_users :
        user_total (λ u. u.unbond_amount) s' ≡ user_total (λ u. u.unbond_amount) s + unbond.amount
    -- More is delegated than is to be unbonded at the epoch at which the chain unbonds next.
    pub delegated :
        (n : ℕ) × (u : Unbonding) × UnbondsAt hc n
        × (get_unbonding st.unbondings hc.chain_id n s'.unbonding_store ≡ some u)
        × (leb_ℤ (get_host_chain_total_delegations hc) (pos u.unbond_amount.amount) ≡ false)

  abbrev pub Unstakes : State st W → Type 0
  Unstakes s' = (hc : HostChain) × (a : Bytes) × (f : Bytes) × Unstaked hc a f s'

  -- With the rest and what it is worth, the record of the epoch would unbond as much as is delegated.
  abbrev pub TooMuch : HostChain → Type 0
  TooMuch hc =
      (n : ℕ) × (kept : Coin) × (unbond : Coin) × (t : st.unbondings.Store) × (u : Unbonding)
      × UnbondsAt hc n
      × Leaves hc.params.unstake_fee amount (ok kept)
      × UnbondsFor hc kept.amount (ok unbond)
      × Increases st.unbondings key_of_unbonding (λ v. v.unbond_amount) (λ v. v.burn_amount) []
          (unbonding_key hc.chain_id n) unbond kept s.unbonding_store (ok t)
      × (get_unbonding st.unbondings hc.chain_id n t ≡ some u)
      × (leb_ℤ (get_host_chain_total_delegations hc) (pos u.unbond_amount.amount) ≡ true)

  abbrev pub RefusedOn : HostChain → Error → Type 0
  RefusedOn hc e =
      ((hc.active ≡ false) × (e ≡ host_chain_inactive))
      ⊎ ((ltb_ℤ (pos amount.amount) hc.minimum_deposit ≡ true) × (e ≡ min_deposit))
      ⊎ ((same amount.denom (mint_denom hc) ≡ false) × (e ≡ invalid_denom))
      ⊎ ((bank.parse_address delegator ≡ none) × (e ≡ other))
      ⊎ CallFails bank s.params.fee_address
      ⊎ (TooMuch hc × (e ≡ not_enough_delegations))

  -- Why an unstake is refused.
  abbrev pub Refused : Error → Type 0
  Refused e =
      (((mint_denom_to_host_denom amount.denom ≡ none)
          ⊎ ((host_denom : Bytes) × (mint_denom_to_host_denom amount.denom ≡ some host_denom)
              × (get_host_chain_from_host_denom st.chains host_denom s.chain_store ≡ none)))
        × (e ≡ invalid_host_chain))
      ⊎ ((hc : HostChain) × Of hc × RefusedOn hc e)

  -- The record of the user or the one of the epoch in other denominations than the coins of an unstake.
  abbrev pub InOtherDenom : HostChain → Type 0
  InOtherDenom hc =
      ((n : ℕ) × (v : UserUnbonding) × UnbondsAt hc n
        × (st.user_unbondings.get (user_unbonding_key hc.chain_id delegator n) s.user_store
            ≡ some v)
        × ((same v.stk_amount.denom amount.denom && same v.unbond_amount.denom hc.host_denom)
            ≡ false))
      ⊎ ((n : ℕ) × (v : Unbonding) × UnbondsAt hc n
          × (st.unbondings.get (unbonding_key hc.chain_id n) s.unbonding_store ≡ some v)
          × ((same v.unbond_amount.denom hc.host_denom && same v.burn_amount.denom amount.denom)
              ≡ false))

  -- A panic is one of the bank, or of the chain's fee above one, its value or factor of zero, or a
  -- record of the user or the epoch in another denomination.
  abbrev pub Panics : Type 0
  Panics =
      BankCall bank panic
      ⊎ ((hc : HostChain) × Of hc
          × ((one < hc.params.unstake_fee)
              ⊎ (hc.c_value ≡ 0)
              ⊎ (hc.unbonding_factor ≡ 0)
              ⊎ InOtherDenom hc))

  module _ (bank_laws : BankLaws bank) (dec_laws : DecLaws dec)
      (epoch_laws : EpochLaws bank current_epoch) (unbonding_laws : StoreLaws st.unbondings)
      (user_laws : StoreLaws st.user_unbondings)
      (keyed : IsKeyed key_of_unbonding (st.unbondings.entries s.unbonding_store))
      (users_keyed : IsKeyed key_of_user_unbonding (st.user_unbondings.entries s.user_store)) where
    module _ (hc : HostChain) (a f : Bytes) (found : Of hc) (active : hc.active ≡ true)
        (enough : hc.minimum_deposit ≤ℤ pos amount.amount)
        (denominated : amount.denom ≡ mint_denom hc)
        (parsed : bank.parse_address delegator ≡ some a) (kept : Coin)
        (left : Leaves hc.params.unstake_fee amount (ok kept)) (w1 w2 : W)
        (sent : bank.send (user a) (module_of undelegation_account) amount s.world ≡ ok w1)
        (charged : FeePaid bank
          (fee_of hc.params.unstake_fee amount)
          undelegation_account
          s.params.fee_address
          f
          w1
          w2) where
      all_calls :
          (x : Account) (e : Bytes)
          → bank.balance w2 x e + part x e (user a) amount
            ≡ bank.balance s.world x e
              + part x e (module_of undelegation_account) (coin amount.denom kept.amount)
              + part x e (user f) (fee_of hc.params.unstake_fee amount)
      unfolding fee_of
      all_calls x e = omega (
        arith,
        bank_laws.balance-send (user a) (module_of undelegation_account) amount s.world w1 sent x e,
        charged.2 x e,
        part_sum x e (module_of undelegation_account) amount kept
            (fee_of hc.params.unstake_fee amount) left.0 refl left.1,
        part_denom x e (module_of undelegation_account) kept amount.denom left.0,
      )

      -- Both records are made, and the check of the delegations decides.
      checked-Unstakes :
          (n : ℕ) (unbond : Coin) (users : st.user_unbondings.Store)
          (unbondings : st.unbondings.Store) (u : Unbonding)
          → UnbondsAt hc n
          → UnbondsFor hc kept.amount (ok unbond)
          → Increases st.user_unbondings key_of_user_unbonding
              (λ v. v.stk_amount)
              (λ v. v.unbond_amount)
              []
              (user_unbonding_key hc.chain_id delegator n)
              kept
              unbond
              s.user_store
              (ok users)
          → Increases st.unbondings key_of_unbonding
              (λ v. v.unbond_amount)
              (λ v. v.burn_amount)
              []
              (unbonding_key hc.chain_id n)
              unbond
              kept
              s.unbonding_store
              (ok unbondings)
          → get_unbonding st.unbondings hc.chain_id n unbondings ≡ some u
          → Ends Unstakes Refused Panics (
              refuse
                (leb_ℤ (get_host_chain_total_delegations hc) (pos u.unbond_amount.amount))
                not_enough_delegations
              >> ok (record s { user_store = users; unbonding_store = unbondings; world = w2 }))
      checked-Unstakes n unbond users unbondings u next worth of_user of_epoch recorded =
          refuse-Ends Unstakes Refused Panics
            (leb_ℤ (get_host_chain_total_delegations hc) (pos u.unbond_amount.amount))
            not_enough_delegations
            (ok (record s { user_store = users; unbonding_store = unbondings; world = w2 }))
            (λ much. inr (
              hc,
              found,
              inr (
                  inr (
                    inr (
                      inr (
                        inr (
                          (
                            n, kept, unbond, unbondings, u, next, left, worth, of_epoch, recorded,
                            much,
                          ),
                          refl,
                        ))))),
            ))
            (λ more. (
              hc,
              a,
              f,
              record {
                found = found;
                active = active;
                enough = enough;
                denominated = denominated;
                parsed = parsed;
                kept = kept.amount;
                split = left.1;
                fee = fee_of-share hc.params.unstake_fee amount;
                fee_to = charged.0;
                unbond = unbond;
                in_denom = worth.0;
                not_less = worth.2;
                worth = worth.1;
                balances = all_calls;
                to_burn = of_epoch.1;
                to_unbond = of_epoch.0;
                of_users = of_user.0;
                for_users = of_user.1;
                delegated = (n, u, next, recorded, more);
              },
            ))

      -- The record of the epoch is increased.
      epoch-Unstakes :
          (n : ℕ) (unbond : Coin) (users : st.user_unbondings.Store)
          (r : Outcome Error st.unbondings.Store)
          → UnbondsAt hc n
          → UnbondsFor hc kept.amount (ok unbond)
          → Increases st.user_unbondings key_of_user_unbonding
              (λ v. v.stk_amount)
              (λ v. v.unbond_amount)
              []
              (user_unbonding_key hc.chain_id delegator n)
              kept
              unbond
              s.user_store
              (ok users)
          → increase_undelegating_amount_for_epoch st.unbondings hc.chain_id n kept unbond
              s.unbonding_store
            ≡ r
          → Increases st.unbondings key_of_unbonding
              (λ v. v.unbond_amount)
              (λ v. v.burn_amount)
              []
              (unbonding_key hc.chain_id n)
              unbond
              kept
              s.unbonding_store
              r
          → Ends Unstakes Refused Panics
              (r >>= λ t. check_delegations st bank dec ibc_denom current_epoch hc n users t w2 s)
      unfolding check_delegations
      epoch-Unstakes n unbond users (ok t) next worth of_user e of_epoch =
          let (u, recorded) =
            increase_undelegating_amount-recorded st.unbondings unbonding_laws hc.chain_id n kept
              unbond s.unbonding_store t keyed e in
          rw recorded (checked-Unstakes n unbond users t u next worth of_user of_epoch recorded)
      epoch-Unstakes n unbond users (err x) next worth of_user e of_epoch = elim of_epoch [ ]
      epoch-Unstakes n unbond users panic next worth of_user e (v, held, differs) =
          inr
            (hc, found, inr (inr (inr (inr (n, v, next, held, rw (← worth.0, ← left.0) differs)))))

      -- The record of the user is increased before.
      user-Unstakes :
          (n : ℕ) (unbond : Coin) (r : Outcome Error st.user_unbondings.Store)
          → UnbondsAt hc n
          → UnbondsFor hc kept.amount (ok unbond)
          → Increases st.user_unbondings key_of_user_unbonding
              (λ v. v.stk_amount)
              (λ v. v.unbond_amount)
              []
              (user_unbonding_key hc.chain_id delegator n)
              kept
              unbond
              s.user_store
              r
          → Ends Unstakes Refused Panics (
              r >>= λ users.
              increase_undelegating_amount_for_epoch st.unbondings hc.chain_id n kept unbond
                s.unbonding_store
              >>= λ t. check_delegations st bank dec ibc_denom current_epoch hc n users t w2 s)
      user-Unstakes n unbond (ok users) next worth of_user =
          epoch-Unstakes n unbond users _ next worth of_user refl (
            increase_undelegating_amount-Increases st.unbondings unbonding_laws [] hc.chain_id n
              kept unbond s.unbonding_store keyed)
      user-Unstakes n unbond (err x) next worth of_user = elim of_user [ ]
      user-Unstakes n unbond panic next worth (v, held, differs) =
          inr
            (hc, found, inr (inr (inr (inl (n, v, next, held, rw (← worth.0, ← left.0) differs)))))

      -- The epoch at which the chain unbonds next.
      epoch_known :
          (unbond : Coin) (r : Outcome Error ℤ)
          → UnbondsFor hc kept.amount (ok unbond)
          → current_unbonding_epoch hc.unbonding_factor (current_epoch undelegation_epoch s.world)
            ≡ r
          → ((e : Error) → r ≡ err e → ⊥)
          → (r ≡ panic → hc.unbonding_factor ≡ 0)
          → Ends Unstakes Refused Panics (
              r >>= λ epoch.
              increase_user_unbonding_amount_for_epoch st.user_unbondings hc.chain_id delegator
                (pos_part epoch)
                kept
                unbond
                s.user_store
              >>= λ users.
                  increase_undelegating_amount_for_epoch st.unbondings hc.chain_id
                    (pos_part epoch)
                    kept
                    unbond
                    s.unbonding_store
                  >>= λ t.
                      check_delegations st bank dec ibc_denom current_epoch hc
                        (pos_part epoch)
                        users
                        t
                        w2
                        s)
      epoch_known unbond (ok epoch) worth now no_error zero_factor =
          user-Unstakes (pos_part epoch) unbond _ (epoch, now, refl) worth
            (increase_user_unbonding_amount-Increases st.user_unbondings user_laws [] hc.chain_id
              delegator (pos_part epoch) kept unbond s.user_store users_keyed)
      epoch_known unbond (err e) worth now no_error zero_factor = absurd (no_error e refl)
      epoch_known unbond panic worth now no_error zero_factor =
          inr (hc, found, inr (inr (inl (zero_factor refl))))

      worth-Unstakes :
          (r : Outcome Error Coin) (epoch : Outcome Error ℤ)
          → UnbondsFor hc kept.amount r
          → current_unbonding_epoch hc.unbonding_factor (current_epoch undelegation_epoch s.world)
            ≡ epoch
          → ((e : Error) → epoch ≡ err e → ⊥)
          → (epoch ≡ panic → hc.unbonding_factor ≡ 0)
          → Ends Unstakes Refused Panics (
              r >>= λ unbond. epoch >>= λ epoch'.
              increase_user_unbonding_amount_for_epoch st.user_unbondings hc.chain_id delegator
                (pos_part epoch')
                kept
                unbond
                s.user_store
              >>= λ users.
                  increase_undelegating_amount_for_epoch st.unbondings hc.chain_id
                    (pos_part epoch')
                    kept
                    unbond
                    s.unbonding_store
                  >>= λ t.
                      check_delegations st bank dec ibc_denom current_epoch hc
                        (pos_part epoch')
                        users
                        t
                        w2
                        s)
      worth-Unstakes (ok unbond) epoch worth now no_error zero_factor =
          epoch_known unbond epoch worth now no_error zero_factor
      worth-Unstakes (err e) epoch worth now no_error zero_factor = absurd worth
      worth-Unstakes panic epoch zero_value now no_error zero_factor =
          inr (hc, found, inr (inl zero_value))

      no_epoch_error : (factor n : ℕ) (e : Error) → current_unbonding_epoch factor n ≡ err e → ⊥
      unfolding current_unbonding_epoch
      no_epoch_error factor n e h = ground arith

      epoch_panic : (factor n : ℕ) → current_unbonding_epoch factor n ≡ panic → factor ≡ 0
      unfolding current_unbonding_epoch
      epoch_panic factor n h = ground arith

      after_fee :
          (w2 ≡ w1)
            ⊎ (bank.send
                  (module_of undelegation_account)
                  (user f)
                  (fee_of hc.params.unstake_fee amount)
                  w1
                ≡ ok w2)
          → current_epoch undelegation_epoch w2 ≡ current_epoch undelegation_epoch w1
      after_fee (inl same_world) = ap (current_epoch undelegation_epoch) same_world
      after_fee (inr call) =
          epoch_laws.epoch-send (module_of undelegation_account) (user f)
            (fee_of hc.params.unstake_fee amount) w1 w2 undelegation_epoch call

      -- The calls leave the epoch as it was.
      same_epoch : current_epoch undelegation_epoch w2 ≡ current_epoch undelegation_epoch s.world
      same_epoch =
          after_fee charged.1
          ∙ epoch_laws.epoch-send (user a) (module_of undelegation_account) amount s.world w1
              undelegation_epoch sent

      recorded-Unstakes :
          Ends Unstakes Refused Panics
            (record_unbonding st bank dec ibc_denom current_epoch hc delegator kept w2 s)
      unfolding record_unbonding
      recorded-Unstakes =
          worth-Unstakes _ _ (unbonded_for-UnbondsFor dec dec_laws hc kept.amount)
            (ap (current_unbonding_epoch hc.unbonding_factor) (sym same_epoch))
            (no_epoch_error hc.unbonding_factor (current_epoch undelegation_epoch w2))
            (epoch_panic hc.unbonding_factor (current_epoch undelegation_epoch w2))

    module _ (hc : HostChain) (a : Bytes) (found : Of hc) (active : hc.active ≡ true)
        (enough : hc.minimum_deposit ≤ℤ pos amount.amount)
        (denominated : amount.denom ≡ mint_denom hc)
        (parsed : bank.parse_address delegator ≡ some a) where
      kept-Unstakes :
          (f : Bytes) (w1 w2 : W) (r : Outcome Error Coin)
          → bank.send (user a) (module_of undelegation_account) amount s.world ≡ ok w1
          → FeePaid bank
              (fee_of hc.params.unstake_fee amount)
              undelegation_account
              s.params.fee_address
              f
              w1
              w2
          → Leaves hc.params.unstake_fee amount r
          → Ends Unstakes Refused Panics (
              r >>= λ kept.
              record_unbonding st bank dec ibc_denom current_epoch hc delegator kept w2 s)
      kept-Unstakes f w1 w2 (ok kept) e1 e2 left =
          recorded-Unstakes hc a f found active enough denominated parsed kept left w1 w2 e1 e2
      kept-Unstakes f w1 w2 (err e) e1 e2 left = absurd left
      kept-Unstakes f w1 w2 panic e1 e2 left = inr (hc, found, inl left)

      fee-Unstakes :
          (w1 : W) (r : Outcome Error W)
          → bank.send (user a) (module_of undelegation_account) amount s.world ≡ ok w1
          → SendsFee bank bank_laws
              (fee_of hc.params.unstake_fee amount)
              undelegation_account
              s.params.fee_address
              w1
              r
          → Ends Unstakes Refused Panics (
              r >>= λ w2. coin_sub amount (fee_of hc.params.unstake_fee amount) >>= λ kept.
              record_unbonding st bank dec ibc_denom current_epoch hc delegator kept w2 s)
      fee-Unstakes w1 (ok w2) e1 (f, paid) =
          kept-Unstakes f w1 w2 _ e1 paid (coin_sub-Leaves hc.params.unstake_fee amount)
      fee-Unstakes w1 (err e) e1 fails = inr (hc, found, inr (inr (inr (inr (inl fails)))))
      fee-Unstakes w1 panic e1 call = inl call

    -- On stores with their records under their keys, an unstake that succeeds is of the minimum at
    -- least of an active chain's minted tokens. The user pays the amount to the undelegation account,
    -- from where the fee goes to the fee address of the parameters, and no other balance changes. The records of the
    -- epochs and those of the users both grow by exactly the rest and by what it is unbonded for, which
    -- is its worth at the value but for rounding, and more is delegated than is to be unbonded by the
    -- record of the epoch at which the chain unbonds next. A refusal has one of the listed causes, and a panic is one
    -- of the bank, of a fee of the chain above one, of its value or factor of zero, or of the record of
    -- the user or of the epoch in another denomination.
    pub liquid_unstake-Unstakes :
        Ends Unstakes Refused Panics
          (liquid_unstake st bank dec ibc_denom current_epoch delegator amount s)
    unfolding liquid_unstake
    liquid_unstake-Unstakes =
        found-Ends Unstakes Refused Panics _ _ _ (λ uncut. inl (inl uncut, refl))
          (λ host_denom cut.
            found-Ends Unstakes Refused Panics _ _ _
              (λ gone. inl (inr (host_denom, cut, gone), refl))
              (λ hc found.
                let of_hc : Of hc = (host_denom, cut, found) in
                require-Ends Unstakes Refused Panics hc.active _ _
                  (λ off. inr (hc, of_hc, inl (off, refl)))
                  (λ on.
                    refuse-Ends Unstakes Refused Panics
                      (ltb_ℤ (pos amount.amount) hc.minimum_deposit) _ _
                      (λ low. inr (hc, of_hc, inr (inl (low, refl))))
                      (λ enough.
                        require-Ends Unstakes Refused Panics (same amount.denom (mint_denom hc)) _ _
                          (λ wrong. inr (hc, of_hc, inr (inr (inl (wrong, refl)))))
                          (λ in_mint.
                            found-Ends Unstakes Refused Panics _ _ _
                              (λ bad. inr (hc, of_hc, inr (inr (inr (inl (bad, refl))))))
                              (λ a parsed.
                                bind-Ends Unstakes Refused Panics
                                  (bank.send (user a) (module_of undelegation_account) amount
                                    s.world)
                                  _
                                  (λ e h. inr (
                                    hc,
                                    of_hc,
                                    inr (
                                        inr (
                                          inr (
                                            inr (
                                              inl (
                                                inl (
                                                  e,
                                                  inl (
                                                    user a,
                                                    module_of undelegation_account,
                                                    amount,
                                                    s.world,
                                                    h,
                                                  ),
                                                )))))),
                                  ))
                                  (λ h. inl (
                                    inl
                                      (user a, module_of undelegation_account, amount, s.world, h)))
                                  (λ w1 e1.
                                    fee-Unstakes hc a (host_denom, cut, found) on (ground arith)
                                      ((same_iff amount.denom (mint_denom hc)).0 in_mint) parsed w1
                                      _ e1
                                      (send_positive_fee-SendsFee bank bank_laws
                                        (fee_of hc.params.unstake_fee amount) undelegation_account
                                        s.params.fee_address w1))))))))
