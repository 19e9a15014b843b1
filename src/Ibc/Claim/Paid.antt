-- ===== src/Ibc/Claim/Paid.antt =====
-- What the users of an unbonding are paid, and what is taken off the unbonding for it.
use pstake_native_test.Ibc.Messages.{mint_denom}
use pstake_native_test.Base.{
  ◌++◌, ℕ, ◌+◌, ◌<◌, ◌≡◌, ◌⊎◌, Bool, true, false, Option, none, some, List, [], ◌∷◌, select, sum_by,
  panic,
}
use pstake_native_test.Base.Text.{Bytes, same}
use pstake_native_test.Sdk.Coin.{Coin, coin}
use pstake_native_test.Sdk.Store.Update.{delete_each}
use pstake_native_test.Ibc.Types.{HostChain, Unbonding, UnbondingState, UserUnbonding}
use pstake_native_test.Ibc.Unbonding.{key_of_user_unbonding}
use pstake_native_test.Ibc.Bank.{Bank, BankLaws, Account, user, module_of, part}
use pstake_native_test.Ibc.State.{Stores, undelegation_account}
use pstake_native_test.Ibc.Claim.{Claiming, owed}

-- What a user is to get of an unbonding in a state, and what the unbonding has for its users.
abbrev pub due : UnbondingState → UserUnbonding → ℕ
due UnbondingState.claimable x = x.unbond_amount.amount
due UnbondingState.failed x = x.stk_amount.amount
due _ x = 0

abbrev pub left_of : UnbondingState → Unbonding → ℕ
left_of UnbondingState.claimable u = u.unbond_amount.amount
left_of UnbondingState.failed u = u.burn_amount.amount
left_of _ u = 0

-- Some of a list, in order.
pub data Some : List UserUnbonding → List UserUnbonding → Type 0 where
  nobody : Some [] []
  taken : (x : UserUnbonding) {xs ys : List UserUnbonding} → Some xs ys → Some (x ∷ xs) (x ∷ ys)
  left_out : (x : UserUnbonding) {xs ys : List UserUnbonding} → Some xs ys → Some xs (x ∷ ys)

abbrev token_of : UnbondingState → Unbonding → Bytes
token_of UnbondingState.claimable u = u.unbond_amount.denom
token_of UnbondingState.failed u = u.burn_amount.denom
token_of _ u = []

abbrev Reduced : UnbondingState → UserUnbonding → Unbonding → Unbonding → Type 0
Reduced state x u left =
    (left_of state left + due state x ≡ left_of state u)
    × (left.state ≡ u.state)
    × (token_of state left ≡ token_of state u)

-- More than there is after `n` are taken off, or another token.
abbrev Larger : ℕ → Coin → Coin → Type 0
Larger n b a = (same a.denom b.denom ≡ false) ⊎ (a.amount < n + b.amount)

-- The user is to get more than the unbonding has after `n` are taken off, or another token.
abbrev pub Exceeds : UnbondingState → ℕ → UserUnbonding → Unbonding → Type 0
Exceeds UnbondingState.claimable n x u = Larger n x.unbond_amount u.unbond_amount
Exceeds UnbondingState.failed n x u = Larger n x.stk_amount u.burn_amount
Exceeds _ n x u = ⊥

abbrev found : Option Bytes → Bool
found none = false
found (some a) = true

module _ (st : Stores) {W : Type 0} (bank : Bank W) (laws : BankLaws bank)
    (ibc_denom : HostChain → Bytes) (hc : HostChain) where
  -- A user whose address can be read.
  abbrev pub has_address : UserUnbonding → Bool
  has_address x = found (bank.parse_address x.address)

  -- In the host chain's tokens from a claimable unbonding, in minted ones from a failed one.
  abbrev denom_of : UnbondingState → Bytes
  denom_of UnbondingState.claimable = ibc_denom hc
  denom_of UnbondingState.failed = mint_denom hc
  denom_of _ = []

  abbrev pub due_coin : UnbondingState → UserUnbonding → Coin
  due_coin state x = coin (denom_of state) (due state x)

  abbrev owed_to : UnbondingState → UserUnbonding → Coin
  owed_to state x = owed st bank ibc_denom hc state x

  abbrev part_for : Account → Bytes → Coin → Option Bytes → ℕ
  part_for a d c none = 0
  part_for a d c (some address) = part a d (user address) c

  -- What an account gets of what the users are paid, and what it pays.
  abbrev pub received : UnbondingState → Account → Bytes → List UserUnbonding → ℕ
  received state a d xs =
      sum_by (λ x. part_for a d (due_coin state x) (bank.parse_address x.address)) xs

  abbrev pub given : UnbondingState → Account → Bytes → List UserUnbonding → ℕ
  given state a d xs = sum_by (λ x. part a d (module_of undelegation_account) (due_coin state x)) xs

  abbrev Claimed :
      UnbondingState
      → List UserUnbonding
      → Claiming st W
      → List UserUnbonding
      → Claiming st W
      → Type 0
  Claimed state xs c paid c' =
      Some paid (select has_address xs)
      × (c'.user_store ≡ delete_each st.user_unbondings key_of_user_unbonding paid c.user_store)
      × (c'.unbonding.state ≡ state)
      × (left_of state c'.unbonding + sum_by (due state) (select has_address xs)
          ≡ left_of state c.unbonding)
      × ((a : Account) (d : Bytes)
          → bank.balance c'.world a d + given state a d paid
            ≡ bank.balance c.world a d + received state a d paid)

  abbrev pub Claims : UnbondingState → List UserUnbonding → Claiming st W → Claiming st W → Type 0
  Claims state xs c c' = (paid : List UserUnbonding) × Claimed state xs c paid c'

  -- The bank panics, or a user is to get more than is left.
  abbrev pub Panics : UnbondingState → List UserUnbonding → Claiming st W → Type 0
  Panics state xs c =
      (before : List UserUnbonding) × (x : UserUnbonding) × (after : List UserUnbonding)
      × (a : Bytes) × (xs ≡ (before ++ (x ∷ after)))
      × (bank.parse_address x.address ≡ some a)
      × (((w : W) × (bank.send (module_of undelegation_account) (user a) (due_coin state x) w
              ≡ panic))
          ⊎ Exceeds state (sum_by (due state) (select has_address before)) x c.unbonding)
