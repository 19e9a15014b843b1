-- ===== src/Ibc/Unbonding/Amounts.antt =====
-- What an increase of an unbonding adds to the store.
use mathlib.Core.Path.{ap, subst}
use pstake_native_test.Base.{
  refl, Bool-cases, ℕ, ◌+◌, ◌≡◌, sym, ◌∙◌, Bool, false, ◌&&◌, none, some, arith, sum_by,
  if◌then◌else◌, Outcome, ok, err, panic, ◌>>=◌, Never, inl, inr, Option-cases,
}
use pstake_native_test.Base.Text.{Bytes, same}
use pstake_native_test.Sdk.Coin.{coin, Coin, coin_add}
use pstake_native_test.Sdk.Store.{KvStore, StoreLaws}
use pstake_native_test.Sdk.Store.Content.{
  values, lookup, insert, lookup-insert, lookup-insert_self, sum_by-insert, sum_by-insert_new,
}
use pstake_native_test.Sdk.Store.Update.{IsKeyed, lookup-IsKeyed, insert-IsKeyed}
use pstake_native_test.Ibc.Types.{Unbonding, Error}
use pstake_native_test.Ibc.Keys.{unbonding_key}
use pstake_native_test.Ibc.Unbonding.{
  key_of_unbonding, get_unbonding, set_unbonding, increase_undelegating_amount_for_epoch,
  new_unbonding, add_to_unbonding,
}

-- How an increase of the amounts `f` and `g` under the key `k` ends, for records of any kind: both
-- grow by just the amounts, over the whole store and so over the record; nothing else is touched. It
-- panics only on a record in another denomination.
module _ {V : Type 0} (kv : KvStore V) (key : V → Bytes) (f g : V → Coin) where
  open kv use {Store, entries, get, set}

  abbrev pub total : (V → Coin) → Store → ℕ
  total h s = sum_by (λ v. (h v).amount) (values (entries s))

  abbrev pub Increases : Bytes → Bytes → Coin → Coin → Store → Outcome Error Store → Type 0
  Increases j k a b s (ok t) =
      (total f t ≡ total f s + a.amount)
      × (total g t ≡ total g s + b.amount)
      × (get j t ≡ (if same k j then get k t else get j s))
      × IsKeyed key (entries t)
  Increases j k a b s (err e) = Never
  Increases j k a b s panic =
      (v : V) × (get k s ≡ some v)
      × ((same (f v).denom a.denom && same (g v).denom b.denom) ≡ false)

  module _ (laws : StoreLaws kv) where
    open laws use {get-entries, entries-set}

    -- A step that puts `v` under the key.
    Increases-set :
        (j k : Bytes) (a b : Coin) (v : V) (s : Store)
        → IsKeyed key (entries s)
        → key v ≡ k
        → sum_by (λ v. (f v).amount) (values (insert k v (entries s))) ≡ total f s + a.amount
        → sum_by (λ v. (g v).amount) (values (insert k v (entries s))) ≡ total g s + b.amount
        → Increases j k a b s (ok (set k v s))
    Increases-set j k a b v s keyed own hf hg = (
      rw (entries-set k v s) hf,
      rw (entries-set k v s) hg,
      rw
          (
            get-entries j (set k v s),
            get-entries k (set k v s),
            get-entries j s,
            entries-set k v s,
            lookup-insert_self k v (entries s),
          )
          (lookup-insert j k v (entries s)),
      rw (entries-set k v s) (insert-IsKeyed key k v (entries s) own keyed),
    )

    pub Increases-new :
        (j k : Bytes) (a b : Coin) (v : V) (s : Store)
        → IsKeyed key (entries s)
        → key v ≡ k
        → get k s ≡ none
        → (f v).amount ≡ a.amount
        → (g v).amount ≡ b.amount
        → Increases j k a b s (ok (set k v s))
    Increases-new j k a b v s keyed own h ef eg =
        let free : lookup k (entries s) ≡ none = sym (get-entries k s) ∙ h in
        Increases-set j k a b v s keyed own
          (omega (arith, ef, sum_by-insert_new (λ v. (f v).amount) k v (entries s) free))
          (omega (arith, eg, sum_by-insert_new (λ v. (g v).amount) k v (entries s) free))

    pub Increases-old :
        (j k : Bytes) (a b : Coin) (v w : V) (s : Store)
        → IsKeyed key (entries s)
        → key v ≡ k
        → get k s ≡ some w
        → (f v).amount ≡ (f w).amount + a.amount
        → (g v).amount ≡ (g w).amount + b.amount
        → Increases j k a b s (ok (set k v s))
    Increases-old j k a b v w s keyed own h ef eg =
        let held : lookup k (entries s) ≡ some w = sym (get-entries k s) ∙ h in
        Increases-set j k a b v s keyed own
          (omega (arith, ef, sum_by-insert (λ v. (f v).amount) k v w (entries s) keyed.0 held))
          (omega (arith, eg, sum_by-insert (λ v. (g v).amount) k v w (entries s) keyed.0 held))

abbrev both : Coin → Coin → Coin → Coin → Bool
both a b c d = same a.denom b.denom && same c.denom d.denom

abbrev plus : Coin → Coin → Coin
plus a b = coin a.denom (a.amount + b.amount)

-- Adding both pairs of coins: sums, or a panic on another denomination.
add_both :
    {V : Type 0} (a b c d : Coin) (make : Coin → Coin → V)
    → (coin_add {E = Error} a b >>= λ x. coin_add c d >>= λ y. ok (make x y))
      ≡ (if both a b c d then ok (make (plus a b) (plus c d)) else panic)
unfolding coin_add
add_both a b c d make = ground arith

module _ {V : Type 0} (kv : KvStore V) (key : V → Bytes) (f g : V → Coin)
    (laws : StoreLaws kv) where
  open kv use {Store, entries, get, set}

  -- An existing record, with both coins added.
  pub Increases-add :
      (j k : Bytes) (a b : Coin) (w : V) (s : Store) (make : Coin → Coin → V)
      → IsKeyed key (entries s)
      → get k s ≡ some w
      → ((x y : Coin) → key (make x y) ≡ key w)
      → ((x y : Coin) → f (make x y) ≡ x)
      → ((x y : Coin) → g (make x y) ≡ y)
      → Increases kv key f g j k a b s (
          (coin_add (f w) a >>= λ x. coin_add (g w) b >>= λ y. ok (make x y)) >>= λ v.
          ok (set (key v) v s))
  Increases-add j k a b w s make keyed e hk hf hg =
      let own : key w ≡ k =
        lookup-IsKeyed key k w (entries s) keyed.1 (sym (laws.get-entries k s) ∙ e) in
      rw (add_both (f w) a (g w) b make) (elim (Bool-cases (both (f w) a (g w) b)) [
        | inl h ↦ rw h (
            subst
              (λ l.
                Increases kv key f g j k a b s (ok (set l (make (plus (f w) a) (plus (g w) b)) s)))
              (sym (hk _ _ ∙ own))
              (Increases-old kv key f g laws j k a b (make (plus (f w) a) (plus (g w) b)) w s keyed
                (hk _ _ ∙ own) e (ap (λ c. c.amount) (hf _ _)) (ap (λ c. c.amount) (hg _ _))))
        | inr h ↦ rw h (w, e, h)
      ])

module _ (kv : KvStore Unbonding) (laws : StoreLaws kv) where
  open kv use {Store, entries, get}

  unbonding_none :
      (c : Bytes) (n : ℕ) (burn unbond : Coin) (s : Store)
      → get (unbonding_key c n) s ≡ none
      → increase_undelegating_amount_for_epoch kv c n burn unbond s
        ≡ ok (kv.set (unbonding_key c n) (new_unbonding kv c n burn unbond) s)
  unfolding increase_undelegating_amount_for_epoch set_unbonding get_unbonding
  unbonding_none c n burn unbond s h = cc h

  unbonding_some :
      (c : Bytes) (n : ℕ) (burn unbond : Coin) (s : Store) (u : Unbonding)
      → get (unbonding_key c n) s ≡ some u
      → increase_undelegating_amount_for_epoch kv c n burn unbond s ≡ (
          add_to_unbonding kv u burn unbond >>= λ u'.
          ok (kv.set (unbonding_key u'.chain_id u'.epoch_number) u' s))
  unfolding increase_undelegating_amount_for_epoch set_unbonding get_unbonding
  unbonding_some c n burn unbond s u h = cc h

  -- Increasing the unbonding of a chain and epoch adds the two amounts to what the unbondings hold
  -- in all, and changes the record of that key alone; it panics only when there is a record with
  -- coins of another denomination.
  pub increase_undelegating_amount-Increases :
      (j chain_id : Bytes) (epoch : ℕ) (burn unbond : Coin) (s : Store)
      → IsKeyed key_of_unbonding (entries s)
      → Increases kv key_of_unbonding
          (λ u. u.unbond_amount)
          (λ u. u.burn_amount)
          j
          (unbonding_key chain_id epoch)
          unbond
          burn
          s
          (increase_undelegating_amount_for_epoch kv chain_id epoch burn unbond s)
  increase_undelegating_amount-Increases j c n burn unbond s keyed =
      let k = unbonding_key c n in
      let f : Unbonding → Coin = λ u. u.unbond_amount in
      let g : Unbonding → Coin = λ u. u.burn_amount in
      elim (Option-cases (get k s)) [
        | inl e ↦
            rw (unbonding_none c n burn unbond s e) (
              Increases-new kv key_of_unbonding f g laws j k unbond burn _ s keyed refl e refl refl)
        | inr (u, e) ↦ rw (unbonding_some c n burn unbond s u e) (
            Increases-add kv key_of_unbonding f g laws j k unbond burn u s
              (λ x y. record u { unbond_amount = x; burn_amount = y }) keyed e (λ x y. refl)
              (λ x y. refl) (λ x y. refl))
      ]

  store_of : Store → Outcome Error Store → Store
  store_of s (ok t) = t
  store_of s (err e) = s
  store_of s panic = s

  set_recorded :
      (c : Bytes) (n : ℕ) (k : Bytes) (u : Unbonding) (s : Store)
      → k ≡ unbonding_key c n
      → get_unbonding kv c n (kv.set k u s) ≡ some u
  unfolding get_unbonding
  set_recorded c n k u s e = rw e (
      laws.get-entries (unbonding_key c n) (kv.set (unbonding_key c n) u s)
      ∙ ap (lookup (unbonding_key c n)) (laws.entries-set (unbonding_key c n) u s)
      ∙ lookup-insert_self (unbonding_key c n) u (entries s))

  added :
      (c : Bytes) (n : ℕ) (burn unbond : Coin) (s t : Store) (u : Unbonding)
      → key_of_unbonding u ≡ unbonding_key c n
      → (add_to_unbonding kv u burn unbond >>= λ u'.
          ok (kv.set (unbonding_key u'.chain_id u'.epoch_number) u' s))
        ≡ ok t
      → (u' : Unbonding) × (get_unbonding kv c n t ≡ some u')
  unfolding store_of
  added c n burn unbond s t u own done =
      let make : Coin → Coin → Unbonding = λ x y. record u { unbond_amount = x; burn_amount = y } in
      let put : Outcome Error Unbonding → Outcome Error Store =
        λ r. r >>= λ u'. ok (kv.set (unbonding_key u'.chain_id u'.epoch_number) u' s) in
      let sums = add_both u.unbond_amount unbond u.burn_amount burn make in
      elim (Bool-cases (both u.unbond_amount unbond u.burn_amount burn)) [
        | inl b ↦
            let u' = make (plus u.unbond_amount unbond) (plus u.burn_amount burn) in
            let good : add_to_unbonding kv u burn unbond ≡ ok u' = sums ∙ rw b in
            let stored : kv.set (key_of_unbonding u) u' s ≡ t =
              ap (store_of s) (ap put (sym good) ∙ done) in
            (u', ap (get_unbonding kv c n) (sym stored) ∙ set_recorded c n _ u' s own)
        | inr b ↦
            let bad : add_to_unbonding kv u burn unbond ≡ panic = sums ∙ rw b in
            let never : panic ≡ ok t = ap put (sym bad) ∙ done in cc never
      ]

  -- The record is there after an increase.
  pub increase_undelegating_amount-recorded :
      (c : Bytes) (n : ℕ) (burn unbond : Coin) (s t : Store)
      → IsKeyed key_of_unbonding (entries s)
      → increase_undelegating_amount_for_epoch kv c n burn unbond s ≡ ok t
      → (u : Unbonding) × (get_unbonding kv c n t ≡ some u)
  unfolding store_of
  increase_undelegating_amount-recorded c n burn unbond s t keyed done =
      let k = unbonding_key c n in
      elim (Option-cases (get k s)) [
        | inl e ↦
            let same_store = sym (unbonding_none c n burn unbond s e) ∙ done in
            (
              new_unbonding kv c n burn unbond,
              ap (λ x. get_unbonding kv c n (store_of s x)) (sym same_store)
                  ∙ set_recorded c n k (new_unbonding kv c n burn unbond) s refl,
            )
        | inr (u, e) ↦
            let own : key_of_unbonding u ≡ k =
              lookup-IsKeyed key_of_unbonding k u (entries s) keyed.1
                (sym (laws.get-entries k s) ∙ e) in
            added c n burn unbond s t u own (sym (unbonding_some c n burn unbond s u e) ∙ done)
      ]
