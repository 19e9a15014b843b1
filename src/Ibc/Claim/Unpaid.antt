-- ===== src/Ibc/Claim/Unpaid.antt =====
-- A user whose payment fails while another's succeeds.
use pstake_native_test.Base.{
  ◌≤◌, ◌+◌, ◌-◌, ◌≡◌, ◌≢◌, refl, ap, ◌∙◌, sym, some, none, [], ◌∷◌, arith, Outcome, ok, err,
  Returns, ◌>>=◌,
}
use pstake_native_test.Base.Text.{Bytes}
use pstake_native_test.Sdk.Coin.{Coin, coin, coin_sub-ok}
use pstake_native_test.Sdk.Store.{StoreLaws}
use pstake_native_test.Sdk.Store.Content.{IsSorted, lookup, lookup-erase_self, lookup-erase_ne}
use pstake_native_test.Ibc.Types.{HostChain, Unbonding, UnbondingState, UserUnbonding, Error}
use pstake_native_test.Ibc.Keys.{unbonding_key}
use pstake_native_test.Ibc.Unbonding.{
  key_of_user_unbonding, delete_user_unbonding, get_user_unbonding, get_unbonding, delete_unbonding,
}
use pstake_native_test.Ibc.Bank.{Bank, user, module_of}
use pstake_native_test.Ibc.State.{Stores, undelegation_account}
use pstake_native_test.Ibc.Claim.{
  Claiming, remaining, owed, after_payment, pay_user, claim_users, paid_out,
}

module _ (st : Stores) {W : Type 0} (bank : Bank W) (ibc_denom : HostChain → Bytes)
    (unbonding_laws : StoreLaws st.unbondings) (user_laws : StoreLaws st.user_unbondings) where
  get-delete_user :
      (x y : UserUnbonding) (s : st.user_unbondings.Store)
      → key_of_user_unbonding x ≢ key_of_user_unbonding y
      → get_user_unbonding st.user_unbondings x.chain_id x.address x.epoch_number
          (delete_user_unbonding st.user_unbondings y s)
        ≡ get_user_unbonding st.user_unbondings x.chain_id x.address x.epoch_number s
  unfolding get_user_unbonding delete_user_unbonding
  get-delete_user x y s h =
      user_laws.get-entries (key_of_user_unbonding x) _
      ∙ ap (lookup (key_of_user_unbonding x)) (user_laws.entries-delete (key_of_user_unbonding y) s)
      ∙ lookup-erase_ne _ _ _ h
      ∙ sym (user_laws.get-entries (key_of_user_unbonding x) s)

  get-delete_unbonding :
      (u : Unbonding) (s : st.unbondings.Store)
      → IsSorted (st.unbondings.entries s)
      → get_unbonding st.unbondings u.chain_id u.epoch_number (delete_unbonding st.unbondings u s)
        ≡ none
  unfolding get_unbonding delete_unbonding
  get-delete_unbonding u s sorted =
      unbonding_laws.get-entries (unbonding_key u.chain_id u.epoch_number) _
      ∙ ap (lookup (unbonding_key u.chain_id u.epoch_number)) (unbonding_laws.entries-delete _ s)
      ∙ lookup-erase_self _ _ sorted

  abbrev less : UserUnbonding → Unbonding → Unbonding
  less z v = record v {
    unbond_amount = coin v.unbond_amount.denom (v.unbond_amount.amount - z.unbond_amount.amount);
  }

  pay_claimable :
      (hc : HostChain) (z : UserUnbonding) (k : Claiming st W) (state : UnbondingState)
      (address : Bytes) (r : Outcome Error W)
      → state ≡ UnbondingState.claimable
      → k.unbonding.unbond_amount.denom ≡ z.unbond_amount.denom
      → z.unbond_amount.amount ≤ k.unbonding.unbond_amount.amount
      → bank.send
          (module_of undelegation_account)
          (user address)
          (coin (ibc_denom hc) z.unbond_amount.amount)
          k.world
        ≡ r
      → (remaining state z k.unbonding >>= λ left. after_payment st bank ibc_denom z left k (
          bank.send
            (module_of undelegation_account)
            (user address)
            (owed st bank ibc_denom hc state z)
            k.world))
        ≡ after_payment st bank ibc_denom z (less z k.unbonding) k r
  unfolding remaining owed
  pay_claimable hc z k state address r e d le sent =
      rw (e, coin_sub-ok {E = Error} k.unbonding.unbond_amount z.unbond_amount d le, sent) refl

  module _ (hc : HostChain) (x y : UserUnbonding) (u : Unbonding) (unbondings : st.unbondings.Store)
      (users : st.user_unbondings.Store) (w w' : W) (a b : Bytes) (e : Error) where
    abbrev c : Claiming st W
    c = record { unbonding = u; unbonding_store = unbondings; user_store = users; world = w }

    abbrev amount : UserUnbonding → Coin
    amount z = coin (ibc_denom hc) z.unbond_amount.amount

    -- The unbonding is gone, and the record of the unpaid user is still there.
    abbrev pub Lost : Claiming st W → Type 0
    Lost c' =
        (get_unbonding st.unbondings u.chain_id u.epoch_number c'.unbonding_store ≡ none)
        × (get_user_unbonding st.user_unbondings x.chain_id x.address x.epoch_number c'.user_store
            ≡ get_user_unbonding st.user_unbondings x.chain_id x.address x.epoch_number users)

    abbrev first : Claiming st W
    first = record c { unbonding = less x u }

    abbrev second : Claiming st W
    second = paid_out st bank ibc_denom y (less y (less x u)) first w'

    nothing_left :
        u.unbond_amount.amount ≡ x.unbond_amount.amount + y.unbond_amount.amount
        → second.unbonding_store ≡ delete_unbonding st.unbondings (less y (less x u)) unbondings
    nothing_left sum =
        let zero_left : u.unbond_amount.amount - x.unbond_amount.amount - y.unbond_amount.amount
            ≡ 0 =
          omega (arith, sum) in
        ground (arith, zero_left)

    -- When a claimable unbonding has just what two users with different records are due, in their
    -- token, and the bank refuses the payment of the first but makes that of the second, the unbonding
    -- is deleted while the record of the first user stays as it was, unpaid: it is taken off the
    -- unbonding before the bank is called, and later claims go over the unbondings that are left.
    pub claim_users-Lost :
        u.state ≡ UnbondingState.claimable
        → bank.parse_address x.address ≡ some a
        → bank.parse_address y.address ≡ some b
        → u.unbond_amount.denom ≡ x.unbond_amount.denom
        → u.unbond_amount.denom ≡ y.unbond_amount.denom
        → u.unbond_amount.amount ≡ x.unbond_amount.amount + y.unbond_amount.amount
        → bank.send (module_of undelegation_account) (user a) (amount x) w ≡ err e
        → bank.send (module_of undelegation_account) (user b) (amount y) w ≡ ok w'
        → key_of_user_unbonding x ≢ key_of_user_unbonding y
        → IsSorted (st.unbondings.entries unbondings)
        → Returns Lost (claim_users st bank ibc_denom hc (x ∷ y ∷ []) c)
    unfolding claim_users pay_user after_payment
    claim_users-Lost claimable pa pb dx dy sum fails pays distinct sorted =
        rw
          (
            pa,
            pay_claimable hc x c u.state a (err e) claimable dx (omega (arith, sum)) fails,
            pb,
            pay_claimable hc y first u.state b (ok w') claimable dy (omega (arith, sum)) pays,
          )
          (
            ap (get_unbonding st.unbondings u.chain_id u.epoch_number) (nothing_left sum)
                ∙ get-delete_unbonding (less y (less x u)) unbondings sorted,
            get-delete_user x y users distinct,
          )
