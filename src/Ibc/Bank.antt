-- ===== src/Ibc/Bank.antt =====
-- The bank of the SDK as x/liquidstakeibc calls it (x/liquidstakeibc/types/expected_keepers.go), and
-- what its calls do to the balances.
use pstake_native_test.Base.{
  ℕ, ◌+◌, ◌≡◌, Bool, false, ◌&&◌, Option, arith, if◌then◌else◌, Outcome, ok,
}
use pstake_native_test.Base.Text.{Bytes, same, same_refl}
use pstake_native_test.Sdk.Coin.{Coin, coin}
use pstake_native_test.Ibc.Types.{Error}

-- An account of a user, by its address, or of a module, by its name.
pub data Account : Type 0 where
  user module_of : Bytes → Account

abbrev pub same_account : Account → Account → Bool
same_account (user a) (user b) = same a b
same_account (module_of a) (module_of b) = same a b
same_account (user a) (module_of b) = false
same_account (module_of a) (user b) = false

-- The calls on a state `W` of the other modules. `send` is `SendCoinsFromAccountToModule` and
-- `SendCoinsFromModuleToAccount`; the accounts of a call tell which. An amount of zero is dropped by
-- `NewCoins`, which changes no balance. `parse_address` is `AccAddressFromBech32`.
pub record Bank (W : Type 0) : Type 0 where
  pub send : Account → Account → Coin → W → Outcome Error W
  pub mint : Bytes → Coin → W → Outcome Error W
  pub burn : Bytes → Coin → W → Outcome Error W
  pub balance : W → Account → Bytes → ℕ
  pub parse_address : Bytes → Option Bytes

-- What a coin at an account adds to the balance of `x` in `d`.
unfoldable pub part : Account → Bytes → Account → Coin → ℕ
part x d a c = if same_account x a && same d c.denom then c.amount else 0

-- The documented effect of the calls that succeed on the balance of every account in every
-- denomination.
pub record BankLaws {W : Type 0} (bank : Bank W) : Type 0 where
  pub balance-send :
      (a b : Account) (c : Coin) (w w' : W)
      → bank.send a b c w ≡ ok w'
      → (x : Account) (d : Bytes)
      → bank.balance w' x d + part x d a c ≡ bank.balance w x d + part x d b c
  pub balance-mint :
      (m : Bytes) (c : Coin) (w w' : W)
      → bank.mint m c w ≡ ok w'
      → (x : Account) (d : Bytes)
      → bank.balance w' x d ≡ bank.balance w x d + part x d (module_of m) c
  pub balance-burn :
      (m : Bytes) (c : Coin) (w w' : W)
      → bank.burn m c w ≡ ok w'
      → (x : Account) (d : Bytes)
      → bank.balance w' x d + part x d (module_of m) c ≡ bank.balance w x d

-- A coin in two parts.
pub part_sum :
    (x : Account) (d : Bytes) (a : Account) (c k f : Coin)
    → k.denom ≡ c.denom
    → f.denom ≡ c.denom
    → k.amount + f.amount ≡ c.amount
    → part x d a k + part x d a f ≡ part x d a c
unfolding part
part_sum x d a c k f e1 e2 h = ground arith

pub part_denom :
    (x : Account) (d : Bytes) (a : Account) (k : Coin) (e : Bytes)
    → k.denom ≡ e
    → part x d a k ≡ part x d a (coin e k.amount)
unfolding part
part_denom x d a k e h = ground arith

pub part_none : (x : Account) (d : Bytes) (a : Account) (c : Coin) → c.amount ≡ 0 → part x d a c ≡ 0
unfolding part
part_none x d a c h = ground arith

pub part_self : (a : Bytes) (c : Coin) → part (module_of a) c.denom (module_of a) c ≡ c.amount
unfolding part
part_self a c = rw (same_refl a, same_refl c.denom)
