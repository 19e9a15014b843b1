-- ===== src/Ibc/Messages/Calls.antt =====
-- What the calls of a message do: the balances after a fee, the coin that is left, the record that is
-- found.
use pstake_native_test.Base.{
  ap, wrapped, ℕ, ◌+◌, ◌*◌, ◌/◌, ◌≤◌, ◌<◌, ◌≡◌, ◌⊎◌, inl, inr, refl, Bool, true, false, ltb, Option,
  none, some, [], ◌∷◌, arith, Outcome, ok, err, panic, ◌>>=◌, found_or, Bool-cases,
}
use pstake_native_test.Base.Int.{pos, pos_part}
use pstake_native_test.Base.Text.{Bytes, same_iff, less, less_irrefl}
use pstake_native_test.Sdk.Coin.{Coin, coin_sub}
use pstake_native_test.Sdk.Dec.{DecOps, DecLaws, of_int, one}
use pstake_native_test.Sdk.Store.Content.{Entries, values, lookup, Above}
use pstake_native_test.Sdk.Store.Update.{IsKeyed}
use pstake_native_test.Ibc.Types.{HostChain, Deposit, Error}
use pstake_native_test.Ibc.Deposit.{first, key_of}
use pstake_native_test.Ibc.Bank.{
  part_denom, part_sum, part_none, Account, user, module_of, Bank, BankLaws, part,
}
use pstake_native_test.Ibc.State.{send_positive_fee}
use pstake_native_test.Ibc.Messages.{
  mint_denom, coin, failed_deposit, mint_failed, Stores, module_name, share_minted, fee_of,
  minted_for,
}

-- A call of the bank that ended in some way.
abbrev pub BankCall : {W : Type 0} → Bank W → Outcome Error W → Type 0
BankCall {W} bank r =
    ((a : Account) × (b : Account) × (c : Coin) × (w : W) × (bank.send a b c w ≡ r))
    ⊎ ((m : Bytes) × (c : Coin) × (w : W) × (bank.mint m c w ≡ r))
    ⊎ ((m : Bytes) × (c : Coin) × (w : W) × (bank.burn m c w ≡ r))

-- A call failed, or the fee address is none.
abbrev pub CallFails : {W : Type 0} → Bank W → Bytes → Type 0
CallFails bank fee_address =
    ((e : Error) × BankCall bank (err e)) ⊎ (bank.parse_address fee_address ≡ none)

-- A positive fee went from the module's account to the one that the fee address names, and no other
-- balance changed.
abbrev pub FeePaid : {W : Type 0} → Bank W → Coin → Bytes → Bytes → Bytes → W → W → Type 0
FeePaid bank fee account fee_address f w w' =
    (0 < fee.amount → bank.parse_address fee_address ≡ some f)
    × ((w' ≡ w) ⊎ (bank.send (module_of account) (user f) fee w ≡ ok w'))
    × ((x : Account) (d : Bytes)
        → bank.balance w' x d + part x d (module_of account) fee
          ≡ bank.balance w x d + part x d (user f) fee)

module _ {W : Type 0} (bank : Bank W) (laws : BankLaws bank) where
  -- A positive fee goes from the module's account to the fee address; a fee of zero goes nowhere.
  abbrev pub SendsFee : Coin → Bytes → Bytes → W → Outcome Error W → Type 0
  SendsFee fee account fee_address w (ok w') =
      (f : Bytes) × FeePaid bank fee account fee_address f w w'
  SendsFee fee account fee_address w (err e) = CallFails bank fee_address
  SendsFee fee account fee_address w panic = BankCall bank panic

  sent-SendsFee :
      (fee : Coin) (account fee_address f : Bytes) (w : W) (r : Outcome Error W)
      → bank.parse_address fee_address ≡ some f
      → bank.send (module_of account) (user f) fee w ≡ r
      → SendsFee fee account fee_address w r
  sent-SendsFee fee account fee_address f w (ok w') p e =
      (f, ((λ _. p), inr e, laws.balance-send (module_of account) (user f) fee w w' e))
  sent-SendsFee fee account fee_address f w (err x) p e =
      inl (x, inl (module_of account, user f, fee, w, e))
  sent-SendsFee fee account fee_address f w panic p e = inl (module_of account, user f, fee, w, e)

  parsed-SendsFee :
      (fee : Coin) (account fee_address : Bytes) (w : W) (o : Option Bytes) (e : Error)
      → bank.parse_address fee_address ≡ o
      → SendsFee fee account fee_address w
          (found_or o e >>= λ a. bank.send (module_of account) (user a) fee w)
  parsed-SendsFee fee account fee_address w none e p = inr p
  parsed-SendsFee fee account fee_address w (some f) e p =
      sent-SendsFee fee account fee_address f w _ p refl

  no_fee :
      (fee : Coin) (x : Account) (d : Bytes) (a : Account)
      → ltb 0 fee.amount ≡ false
      → part x d a fee ≡ 0
  no_fee fee x d a h = part_none x d a fee (ground arith)

  pub send_positive_fee-SendsFee :
      (fee : Coin) (account fee_address : Bytes) (w : W)
      → SendsFee fee account fee_address w (send_positive_fee bank fee account fee_address w)
  unfolding send_positive_fee
  send_positive_fee-SendsFee fee account fee_address w = elim (Bool-cases (ltb 0 fee.amount)) [
    | inl b ↦ rw b (parsed-SendsFee fee account fee_address w _ _ refl)
    | inr b ↦ rw b (
      account,
      (
        (λ h. absurd (ground arith)),
        inl refl,
        λ x d. omega (arith, no_fee fee x d (module_of account) b, no_fee fee x d (user account) b),
      ),
    )
  ]

-- What is left of a coin when its fee is taken off; a rate above one may panic.
abbrev pub Leaves : ℕ → Coin → Outcome Error Coin → Type 0
Leaves rate c (ok kept) = (kept.denom ≡ c.denom) × (kept.amount + (fee_of rate c).amount ≡ c.amount)
Leaves rate c (err e) = ⊥
Leaves rate c panic = one < rate

fee_small : (rate n : ℕ) → rate ≤ one → rate * n / one ≤ n
fee_small rate n h = grind arith

pub coin_sub-Leaves : (rate : ℕ) (c : Coin) → Leaves rate c (coin_sub c (fee_of rate c))
unfolding coin_sub fee_of
coin_sub-Leaves rate c = ground (arith, same_iff c.denom c.denom, fee_small rate c.amount)

-- How sharing minted tokens between the user and the fee address ends.
module _ {W : Type 0} (bank : Bank W) where
  abbrev pub Shares : HostChain → Bytes → Coin → Bytes → W → Outcome Error W → Type 0
  Shares hc a minted fee_address w (ok w') =
      (kept : ℕ) × (f : Bytes) × (0 < (fee_of hc.params.deposit_fee minted).amount
        → bank.parse_address fee_address ≡ some f)
      × (kept + (fee_of hc.params.deposit_fee minted).amount ≡ minted.amount)
      × ((x : Account) (e : Bytes)
          → bank.balance w' x e + part x e (module_of module_name) minted
            ≡ bank.balance w x e
              + part x e (user a) (coin minted.denom kept)
              + part x e (user f) (fee_of hc.params.deposit_fee minted))
  Shares hc a minted fee_address w (err e) =
      CallFails bank fee_address × ((e ≡ failed_deposit) ⊎ (e ≡ mint_failed))
  Shares hc a minted fee_address w panic = BankCall bank panic ⊎ (one < hc.params.deposit_fee)

  module _ (laws : BankLaws bank) (hc : HostChain) (a : Bytes) (minted : Coin) (fee_address : Bytes)
      (w : W) where
    fee-Shares :
        (kept : Coin) (w1 : W) (r : Outcome Error W)
        → Leaves hc.params.deposit_fee minted (ok kept)
        → bank.send (module_of module_name) (user a) kept w ≡ ok w1
        → SendsFee bank laws (fee_of hc.params.deposit_fee minted) module_name fee_address w1 r
        → Shares hc a minted fee_address w (wrapped failed_deposit r)
    unfolding fee_of
    fee-Shares kept w1 (ok w') (same_denom, sum) e (f, (named, call, balances)) = (
      kept.amount,
      f,
      named,
      sum,
      λ x d. omega (
        arith,
        laws.balance-send (module_of module_name) (user a) kept w w1 e x d,
        balances x d,
        part_sum x d (module_of module_name) minted kept (fee_of hc.params.deposit_fee minted)
            same_denom refl sum,
        part_denom x d (user a) kept minted.denom same_denom,
      ),
    )
    fee-Shares kept w1 (err x) left e fails = (fails, inl refl)
    fee-Shares kept w1 panic left e fails = inl fails

    send-Shares :
        (kept : Coin) (r : Outcome Error W)
        → Leaves hc.params.deposit_fee minted (ok kept)
        → bank.send (module_of module_name) (user a) kept w ≡ r
        → Shares hc a minted fee_address w (
            wrapped mint_failed r >>= λ w3. wrapped failed_deposit (
              send_positive_fee bank
                (fee_of hc.params.deposit_fee minted)
                module_name
                fee_address
                w3))
    send-Shares kept (ok w1) left e = fee-Shares kept w1 _ left e (
        send_positive_fee-SendsFee bank laws (fee_of hc.params.deposit_fee minted) module_name
          fee_address w1)
    send-Shares kept (err x) left e =
        (inl (x, inl (module_of module_name, user a, kept, w, e)), inr refl)
    send-Shares kept panic left e = inl (inl (module_of module_name, user a, kept, w, e))

    kept-Shares :
        (r : Outcome Error Coin)
        → Leaves hc.params.deposit_fee minted r
        → Shares hc a minted fee_address w (
            r >>= λ kept.
            wrapped mint_failed (bank.send (module_of module_name) (user a) kept w) >>= λ w3.
            wrapped failed_deposit (
              send_positive_fee bank
                (fee_of hc.params.deposit_fee minted)
                module_name
                fee_address
                w3))
    kept-Shares (ok kept) left = send-Shares kept _ left refl
    kept-Shares (err e) left = absurd left
    kept-Shares panic left = inr left

pub share_minted-Shares :
    (st : Stores) {W : Type 0} (bank : Bank W) (dec : DecOps) (ibc_denom : HostChain → Bytes)
    (current_epoch : Bytes → W → ℕ) (laws : BankLaws bank) (hc : HostChain) (a : Bytes)
    (minted : Coin) (fee_address : Bytes) (w : W)
    → Shares bank hc a minted fee_address w
        (share_minted st bank dec ibc_denom current_epoch hc a minted fee_address w)
unfolding share_minted
share_minted-Shares st bank dec ibc_denom current_epoch laws hc a minted fee_address w =
    kept-Shares bank laws hc a minted fee_address w _ (coin_sub-Leaves hc.params.deposit_fee minted)

-- A fee is its share of the coin, without the fraction.
pub fee_of-share : (rate : ℕ) (c : Coin) → fee_of rate c ≡ coin c.denom (rate * c.amount / one)
unfolding fee_of
fee_of-share rate c = refl

-- The conversion of whole tokens is exact but for the fraction.
pub minted_exact :
    (dec : DecOps) (laws : DecLaws dec) (hc : HostChain) (n : ℕ)
    → (minted_for dec hc n).amount ≡ n * hc.c_value / one
unfolding minted_for
minted_exact dec laws hc n =
    let near = laws.mul_nearest (of_int n) hc.c_value in
    let exact : pos_part (dec.mul (pos (of_int n)) (pos hc.c_value)) ≡ n * hc.c_value =
      omega (arith, near) in
    rw exact

-- A key that is found is above the keys before it.
lookup-Above :
    (j k : Bytes) (d : Deposit) (es : Entries Deposit)
    → Above j es
    → lookup k es ≡ some d
    → less j k ≡ true
unfolding lookup
lookup-Above j k d [] a h = cc
lookup-Above j k d (e ∷ es) a h = ground (arith, same_iff e.0 k, lookup-Above j k d es a.1)

-- The record that a loop finds stands under its key.
pub lookup-first :
    (p : Deposit → Bool) (es : Entries Deposit) (d : Deposit)
    → IsKeyed key_of es
    → first p (values es) ≡ some d
    → (lookup (key_of d) es ≡ some d) × (p d ≡ true)
unfolding lookup
lookup-first p [] d k h = cc
lookup-first p (e ∷ es) d ((a, s), (k, ks)) h = ground (
  arith,
  same_iff e.0 (key_of d),
  less_irrefl e.0,
  lookup-Above e.0 (key_of d) d es a,
  lookup-first p es d (s, ks),
)

pub minted_for-exact :
    (dec : DecOps) (laws : DecLaws dec) (hc : HostChain) (n : ℕ)
    → minted_for dec hc n ≡ coin (mint_denom hc) (n * hc.c_value / one)
unfolding minted_for
minted_for-exact dec laws hc n = ap (coin (mint_denom hc)) (minted_exact dec laws hc n)
