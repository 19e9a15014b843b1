-- ===== src/Ibc/Unbonding/Users.antt =====
-- What an increase of a user's unbonding adds to the store.
use pstake_native_test.Base.{ℕ, ◌≡◌, refl, none, some, ok, ◌>>=◌, inl, inr, Option-cases}
use pstake_native_test.Base.Text.{Bytes}
use pstake_native_test.Sdk.Coin.{Coin}
use pstake_native_test.Sdk.Store.{KvStore, StoreLaws}
use pstake_native_test.Sdk.Store.Update.{IsKeyed}
use pstake_native_test.Ibc.Types.{UserUnbonding}
use pstake_native_test.Ibc.Keys.{user_unbonding_key}
use pstake_native_test.Ibc.Unbonding.{
  increase_user_unbonding_amount_for_epoch, new_user_unbonding, add_to_user_unbonding,
  key_of_user_unbonding, set_user_unbonding, get_user_unbonding,
}
use pstake_native_test.Ibc.Unbonding.Amounts.{Increases, Increases-new, Increases-add}

module _ (kv : KvStore UserUnbonding) (laws : StoreLaws kv) where
  open kv use {Store, entries, get}

  user_unbonding_none :
      (c a : Bytes) (n : ℕ) (stk unbond : Coin) (s : Store)
      → get (user_unbonding_key c a n) s ≡ none
      → increase_user_unbonding_amount_for_epoch kv c a n stk unbond s
        ≡ ok (kv.set (user_unbonding_key c a n) (new_user_unbonding kv c a n stk unbond) s)
  unfolding increase_user_unbonding_amount_for_epoch set_user_unbonding get_user_unbonding
  user_unbonding_none c a n stk unbond s h = cc h

  user_unbonding_some :
      (c a : Bytes) (n : ℕ) (stk unbond : Coin) (s : Store) (u : UserUnbonding)
      → get (user_unbonding_key c a n) s ≡ some u
      → increase_user_unbonding_amount_for_epoch kv c a n stk unbond s ≡ (
          add_to_user_unbonding kv u stk unbond >>= λ u'.
          ok (kv.set (key_of_user_unbonding u') u' s))
  unfolding increase_user_unbonding_amount_for_epoch set_user_unbonding get_user_unbonding
  user_unbonding_some c a n stk unbond s u h = cc h

  -- Increasing a user's unbonding of a chain and epoch adds the two amounts to what the users'
  -- unbondings hold in all, and changes the record of that key alone; it panics only when there is
  -- a record with coins of another denomination.
  pub increase_user_unbonding_amount-Increases :
      (j chain_id address : Bytes) (epoch : ℕ) (stk unbond : Coin) (s : Store)
      → IsKeyed key_of_user_unbonding (entries s)
      → Increases kv key_of_user_unbonding
          (λ u. u.stk_amount)
          (λ u. u.unbond_amount)
          j
          (user_unbonding_key chain_id address epoch)
          stk
          unbond
          s
          (increase_user_unbonding_amount_for_epoch kv chain_id address epoch stk unbond s)
  increase_user_unbonding_amount-Increases j c a n stk unbond s keyed =
      let k = user_unbonding_key c a n in
      let key = key_of_user_unbonding in
      let f : UserUnbonding → Coin = λ u. u.stk_amount in
      let g : UserUnbonding → Coin = λ u. u.unbond_amount in
      elim (Option-cases (get k s)) [
        | inl e ↦
            rw (user_unbonding_none c a n stk unbond s e)
              (Increases-new kv key f g laws j k stk unbond _ s keyed refl e refl refl)
        | inr (u, e) ↦ rw (user_unbonding_some c a n stk unbond s u e) (
            Increases-add kv key f g laws j k stk unbond u s
              (λ x y. record u { stk_amount = x; unbond_amount = y }) keyed e (λ x y. refl)
              (λ x y. refl) (λ x y. refl))
      ]
