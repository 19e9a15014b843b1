-- ===== src/Stake/UnstakeTests.antt =====
-- Runs of unstaking on small data, and the theorems at inputs that meet their hypotheses.
use mathlib.Core.Option.{some}
use pstake_native_test.Base.{
  ℕ, ◌+◌, ◌-◌, ◌*◌, ◌<◌, ◌≤◌, ◌≡◌, refl, ap, sym, Bool, true, false, List, [], ◌∷◌, leb,
  if◌then◌else◌, Outcome, ok, err, panic, arith,
}
use pstake_native_test.Base.Int.{◌-ℤ◌}
use pstake_native_test.Base.Text.{codes, same}
use pstake_native_test.Sdk.Coin.{coin}
use pstake_native_test.Sdk.Dec.{one, of_int}
use pstake_native_test.Sdk.Dec.Rounding.{integer_ops, integer_ops-DecLaws}
use pstake_native_test.Stake.Types.{LiquidValidator, total_liquid_tokens}
use pstake_native_test.Stake.Unstake.{
  UnstakeKeeper, UnstakeError, other_module, start, unbond_each, unbond_from_all, liquid_unstake,
}
use pstake_native_test.Stake.Unstake.Unbonds.{UnbondLaws, Unbonds, unbond_each-Unbonds}
use pstake_native_test.Stake.Unstake.Settles.{Settles}
use pstake_native_test.Stake.Unstake.FromAll.{UnbondsAmount, unbond_from_all-Unbonds}

abbrev vals : List LiquidValidator
vals = record { operator_address = codes "v" } ∷ record { operator_address = codes "w" } ∷ []

-- A chain that holds a number of tokens, 30 of them at one validator and the others at another. A
-- share is a token, and an entry of the queue is its amount.
abbrev holder : UnstakeKeeper ℕ ℕ
holder = record {
  bond_denom = λ _. codes "uxprt";
  net_amount_state = λ w. record {
    stkxprt_total_supply = 50;
    net_amount = of_int w;
    total_liquid_tokens = w;
    total_remaining_rewards = 0;
    total_unbonding_balance = 0;
    proxy_acc_balance = 0;
  };
  liquid_validators = λ _. vals;
  liquid_tokens = λ w a. if same (codes "v") a then 30 else w - 30;
  send_coins_to_module = λ _ _ w. ok w;
  burn_coins = λ _ w. ok w;
  pay_from_proxy = λ _ _ w. ok w;
  validate_unbond_amount = λ _ _ n w. ok n;
  validator = λ _ _. some true;
  has_max_entries = λ _ _ _. false;
  unbond = λ _ _ n w. if leb n w then ok (n, w - n) else err other_module;
  send_to_not_bonded = λ _ w. ok w;
  completion_time = λ _. 21;
  queue = λ _ _ t n w. (n, w);
}

-- Ten minted tokens of 50 are worth 20 of the 100 tokens, which leave both validators in proportion.
unstaked :
    liquid_unstake holder
      (codes "proxy")
      (codes "user")
      integer_ops
      (codes "stk/uxprt")
      0
      (coin (codes "stk/uxprt") 10)
      100
    ≡ ok (record { time = some 21; total = 20; entries = 6 ∷ 14 ∷ [] }, 0, 80)
unfolding liquid_unstake same ◌-ℤ◌
unstaked = refl

-- What an unbonding returned, and the state after it.
abbrev returned : Outcome UnstakeError (ℕ × ℕ) → ℕ
returned (ok r) = r.0
returned (err e) = 0
returned panic = 0

abbrev state_after : Outcome UnstakeError (ℕ × ℕ) → ℕ
state_after (ok r) = r.1
state_after (err e) = 0
state_after panic = 0

unbonded :
    (b : Bool) (s w n w' : ℕ)
    → leb s w ≡ b
    → if◌then◌else◌ {A = Outcome UnstakeError (ℕ × ℕ)} b (ok (s, w - s)) (err other_module)
      ≡ ok (n, w')
    → (w' + n ≡ w) × (n ≡ s)
unbonded true s w n w' h e =
    let left : s ≡ n = ap returned e in
    let right : w - s ≡ w' = ap state_after e in
    let low : s ≤ w = ground arith in (omega (arith, left, right, low), sym left)
unbonded false s w n w' h e = cc e

abbrev validated : Outcome UnstakeError ℕ → ℕ
validated (ok n) = n
validated (err e) = 0
validated panic = 0

holder-UnbondLaws : UnbondLaws holder (λ w. w)
holder-UnbondLaws = record {
  unbond_takes = λ proxy v shares n w w' e. (unbonded (leb shares w) shares w n w' refl e).0;
  unbond_within = λ proxy v a shares n w w' h e.
      let same_shares : a ≡ shares = ap validated h in
      omega (arith, same_shares, (unbonded (leb shares w) shares w n w' refl e).1);
  transfer_keeps = λ c w w' h. sym (ap validated h);
  queue_keeps = λ staker v t n w. refl;
}

unbond_each-Unbonds_example :
    Unbonds holder
      (λ w. w)
      (codes "proxy")
      (codes "user")
      20
      start
      100
      (unbond_each holder (codes "proxy") (codes "user") vals (6 * one ∷ 14 * one ∷ []) start 100)
unbond_each-Unbonds_example =
    unbond_each-Unbonds holder (λ w. w) (codes "proxy") (codes "user") holder-UnbondLaws vals
      (6 * one ∷ 14 * one ∷ []) start 100 refl

some_tokens : 0 < total_liquid_tokens (holder.liquid_tokens 100) vals
unfolding same
some_tokens = omega arith

unbond_from_all-Unbonds_example :
    UnbondsAmount holder
      (λ w. w)
      (codes "proxy")
      (codes "user")
      (20 * one)
      100
      (unbond_from_all holder (codes "proxy") (codes "user") integer_ops (20 * one) 100)
unbond_from_all-Unbonds_example =
    unbond_from_all-Unbonds holder (λ w. w) (codes "proxy") (codes "user") holder-UnbondLaws
      integer_ops integer_ops-DecLaws (20 * one) 100 some_tokens
