-- ===== src/Ibc/Messages/Redeem.antt =====
-- How a redemption ends: every balance, the deposits, and why it may be refused.
use pstake_native_test.Base.{
  ◌/◌, ℕ, ◌+◌, ◌*◌, ◌≤◌, ◌<◌, ◌≡◌, ◌⊎◌, true, false, none, some, ok, panic, sum_by,
}
use pstake_native_test.Base.Text.{Bytes, same}
use pstake_native_test.Sdk.Coin.{coin, Coin}
use pstake_native_test.Sdk.Dec.{DecOps, one}
use pstake_native_test.Sdk.Store.Content.{values}
use pstake_native_test.Ibc.Types.{
  HostChain, Error, invalid_host_chain, host_chain_inactive, invalid_denom, redeem_failed,
  failed_deposit, mint_failed, burn_failed, invalid_address,
}
use pstake_native_test.Ibc.Keys.{mint_denom_to_host_denom}
use pstake_native_test.Ibc.Deposit.Redeem.{redeemable}
use pstake_native_test.Ibc.HostChain.{get_host_chain_from_host_denom}
use pstake_native_test.Ibc.Bank.{Account, user, module_of, Bank, part}
use pstake_native_test.Ibc.State.{Stores, State, deposit_account}
use pstake_native_test.Ibc.Messages.{mint_denom, fee_of}
use pstake_native_test.Ibc.Messages.Worth.{RedeemsFor}
use pstake_native_test.Ibc.Messages.Calls.{BankCall, CallFails}

module _ (st : Stores) {W : Type 0} (bank : Bank W) (dec : DecOps) (ibc_denom : HostChain → Bytes)
    (current_epoch : Bytes → W → ℕ) (delegator : Bytes) (amount : Coin) (s : State st W) where
  -- The chain whose tokens are redeemed.
  abbrev pub Of : HostChain → Type 0
  Of hc =
      (host_denom : Bytes) × (mint_denom_to_host_denom amount.denom ≡ some host_denom)
      × (get_host_chain_from_host_denom st.chains host_denom s.chain_store ≡ some hc)

  -- What a redemption has done, for the address `a` and the fee address `f`.
  pub record Redeemed (hc : HostChain) (a f : Bytes) (s' : State st W) : Type 0 where
    pub found : Of hc
    pub active : hc.active ≡ true
    pub denominated : amount.denom ≡ mint_denom hc
    pub parsed : bank.parse_address delegator ≡ some a
    pub kept : ℕ
    pub split : kept + (fee_of hc.params.redemption_fee amount).amount ≡ amount.amount
    pub fee :
        fee_of hc.params.redemption_fee amount
        ≡ coin amount.denom (hc.params.redemption_fee * amount.amount / one)
    pub fee_to :
        0 < (fee_of hc.params.redemption_fee amount).amount
        → bank.parse_address s.params.fee_address ≡ some f
    pub token : Coin
    pub in_denom : token.denom ≡ ibc_denom hc
    pub worth : hc.c_value < 2 * one → token.amount * hc.c_value ≤ kept * one
    pub not_less :
        kept * (2 * (one * one)) ≤ 2 * ((token.amount + 1) * hc.c_value * one) + hc.c_value
    -- The user pays the amount and gets the token from the deposit account, the fee address gets the
    -- fee, and the rest is burnt.
    pub balances :
        (x : Account) (e : Bytes)
        → bank.balance s'.world x e
            + part x e (user a) amount
            + part x e (module_of deposit_account) token
          ≡ bank.balance s.world x e
            + part x e (user f) (fee_of hc.params.redemption_fee amount)
            + part x e (user a) token
    pub total :
        sum_by (redeemable hc.chain_id) (values (st.deposits.entries s'.deposit_store))
          + token.amount
        ≡ sum_by (redeemable hc.chain_id) (values (st.deposits.entries s.deposit_store))

  abbrev pub Redeems : State st W → Type 0
  Redeems s' = (hc : HostChain) × (a : Bytes) × (f : Bytes) × Redeemed hc a f s'

  -- Why a redemption on a chain is refused.
  abbrev pub RefusedOn : HostChain → Error → Type 0
  RefusedOn hc e =
      ((hc.active ≡ false) × (e ≡ host_chain_inactive))
      ⊎ ((same amount.denom (mint_denom hc) ≡ false) × (e ≡ invalid_denom))
      ⊎ ((bank.parse_address delegator ≡ none) × (e ≡ invalid_address))
      ⊎ (((kept : ℕ) × (token : Coin) × (kept + (fee_of hc.params.redemption_fee amount).amount
              ≡ amount.amount)
            × RedeemsFor ibc_denom hc kept (ok token)
            × (sum_by (redeemable hc.chain_id) (values (st.deposits.entries s.deposit_store))
                < token.amount))
          × (e ≡ redeem_failed))
      ⊎ (CallFails bank s.params.fee_address
          × ((e ≡ mint_failed) ⊎ (e ≡ failed_deposit) ⊎ (e ≡ redeem_failed) ⊎ (e ≡ burn_failed)))

  abbrev pub Refused : Error → Type 0
  Refused e =
      (((mint_denom_to_host_denom amount.denom ≡ none)
          ⊎ ((host_denom : Bytes) × (mint_denom_to_host_denom amount.denom ≡ some host_denom)
              × (get_host_chain_from_host_denom st.chains host_denom s.chain_store ≡ none)))
        × (e ≡ invalid_host_chain))
      ⊎ ((hc : HostChain) × Of hc × RefusedOn hc e)

  -- A panic is one of the bank, or of a fee of the chain above one or a value of zero.
  abbrev pub Panics : Type 0
  Panics =
      BankCall bank panic
      ⊎ ((hc : HostChain) × Of hc × ((one < hc.params.redemption_fee) ⊎ (hc.c_value ≡ 0)))
