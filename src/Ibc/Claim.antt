-- ===== src/Ibc/Claim.antt =====
-- The payment of unbonded tokens to the users who unstaked (`DoClaim` of
-- x/liquidstakeibc/keeper/abci.go).
pub mod Paid
pub mod Unpaid
use pstake_native_test.Base.{
  Bool, true, false, ◌&&◌, ◌||◌, ◌==◌, Option, none, some, List, [], ◌∷◌, if◌then◌else◌, Outcome,
  ok, err, panic, ◌>>=◌,
}
use pstake_native_test.Base.Text.{Bytes, same}
use pstake_native_test.Sdk.Coin.{Coin, coin, coin_sub, is_zero}
use pstake_native_test.Ibc.Types.{HostChain, Unbonding, UnbondingState, UserUnbonding, Error}
use pstake_native_test.Ibc.Unbonding.{
  set_unbonding, delete_unbonding, filter_unbondings, delete_user_unbonding, filter_user_unbondings,
}
use pstake_native_test.Ibc.Messages.{mint_denom}
use pstake_native_test.Ibc.Bank.{Bank, user, module_of}
use pstake_native_test.Ibc.State.{Stores, State, undelegation_account}

abbrev pub is_claimable : UnbondingState → Bool
is_claimable UnbondingState.claimable = true
is_claimable UnbondingState.failed = true
is_claimable _ = false

-- What is left of the unbonding when the user is paid: of the tokens, or of the minted ones that
-- were to be burnt when it failed.
unfoldable pub remaining : UnbondingState → UserUnbonding → Unbonding → Outcome Error Unbonding
remaining UnbondingState.claimable x u =
    coin_sub u.unbond_amount x.unbond_amount >>= λ left. ok (record u { unbond_amount = left })
remaining UnbondingState.failed x u =
    coin_sub u.burn_amount x.stk_amount >>= λ left. ok (record u { burn_amount = left })
remaining _ x u = ok u

-- The unbonding, as the loop over its users changes it, and what they write.
pub record Claiming (st : Stores) (W : Type 0) : Type 0 where
  pub unbonding : Unbonding
  pub unbonding_store : st.unbondings.Store
  pub user_store : st.user_unbondings.Store
  pub world : W

module _ (st : Stores) {W : Type 0} (bank : Bank W) (ibc_denom : HostChain → Bytes) where
  open bank use {send, parse_address}

  -- The tokens of the host chain, or the minted ones back.
  unfoldable pub owed : HostChain → UnbondingState → UserUnbonding → Coin
  owed hc UnbondingState.claimable x = coin (ibc_denom hc) x.unbond_amount.amount
  owed hc UnbondingState.failed x = coin (mint_denom hc) x.stk_amount.amount
  owed hc _ x = coin [] 0

  abbrev pub paid_out : UserUnbonding → Unbonding → Claiming st W → W → Claiming st W
  paid_out x left c w = record {
    unbonding = left;
    unbonding_store =
        if is_zero left.unbond_amount || is_zero left.burn_amount
        then delete_unbonding st.unbondings left c.unbonding_store
        else set_unbonding st.unbondings left c.unbonding_store;
    user_store = delete_user_unbonding st.user_unbondings x c.user_store;
    world = w;
  }

  -- What follows the call of the bank. When it failed the loop goes on, with what is left.
  unfoldable pub after_payment :
      UserUnbonding → Unbonding → Claiming st W → Outcome Error W → Outcome Error (Claiming st W)
  after_payment x left c (ok w) = ok (paid_out x left c w)
  after_payment x left c (err e) = ok (record c { unbonding = left })
  after_payment x left c panic = panic

  unfoldable pub pay_user :
      HostChain → UserUnbonding → Claiming st W → Option Bytes → Outcome Error (Claiming st W)
  unfolding remaining owed after_payment
  pay_user hc x c none = ok c
  pay_user hc x c (some address) = remaining c.unbonding.state x c.unbonding >>= λ left.
      after_payment x left c
        (send (module_of undelegation_account) (user address) (owed hc c.unbonding.state x) c.world)

  unfoldable pub claim_users :
      HostChain → List UserUnbonding → Claiming st W → Outcome Error (Claiming st W)
  unfolding pay_user
  claim_users hc [] c = ok c
  claim_users hc (x ∷ xs) c =
      pay_user hc x c (parse_address x.address) >>= λ c'. claim_users hc xs c'

  unfoldable pub claim_unbondings :
      HostChain → List Unbonding → State st W → Outcome Error (State st W)
  unfolding claim_users
  claim_unbondings hc [] s = ok s
  claim_unbondings hc (u ∷ us) s =
      claim_users hc
        (filter_user_unbondings st.user_unbondings
          (λ x. same x.chain_id hc.chain_id && x.epoch_number == u.epoch_number) s.user_store)
        (record {
          unbonding = u;
          unbonding_store = s.unbonding_store;
          user_store = s.user_store;
          world = s.world;
        })
      >>= λ c. claim_unbondings hc us (record s {
        unbonding_store = c.unbonding_store;
        user_store = c.user_store;
        world = c.world;
      })

  unfoldable pub do_claim : HostChain → State st W → Outcome Error (State st W)
  unfolding claim_unbondings
  do_claim hc s =
      claim_unbondings hc
        (filter_unbondings st.unbondings (λ u. same u.chain_id hc.chain_id && is_claimable u.state)
          s.unbonding_store)
        s
