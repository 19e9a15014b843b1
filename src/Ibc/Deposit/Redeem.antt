-- ===== src/Ibc/Deposit/Redeem.antt =====
-- Instant redemption takes what is asked from the redeemable deposits of a chain, and nothing else.
use pstake_native_test.Base.{
  panic, Returns-map, ◌<◌, sym, ◌∙◌, ℕ, ◌+◌, ◌-◌, ◌≤◌, ◌≡◌, ◌≢◌, refl, Bool, true, List, [], ◌∷◌,
  some, arith, ltb, if◌then◌else◌, All, select, sum_by, sum_by-select, Outcome, ok, err, Returns,
  inl, inr, Bool-cases,
}
use pstake_native_test.Base.Text.{Bytes, same_iff, less_irrefl}
use pstake_native_test.Sdk.Coin.{coin_sub-ok, Coin, coin, is_zero}
use pstake_native_test.Sdk.Store.{KvStore, StoreLaws}
use pstake_native_test.Sdk.Store.Content.{
  Entries, values, lookup, insert, Above, IsSorted, lookup-insert_ne, insert-IsSorted,
  sum_by-insert,
}
use pstake_native_test.Sdk.Store.Update.{IsKeyed}
use pstake_native_test.Ibc.Types.{Deposit, HostChain, insufficient_deposits}
use pstake_native_test.Ibc.Deposit.{
  Error, set_deposit, key_of, coin_amount, is_redeemable, redeem_from,
  adjust_deposits_for_redemption, get_redeemable_deposits_for_host_chain,
}

-- The amount that a deposit has to offer.
abbrev pub redeemable : Bytes → Deposit → ℕ
redeemable chain_id d = if is_redeemable chain_id d then coin_amount d else 0

-- All deposits of the chain are in the coin `denom`.
abbrev pub InDenom : Bytes → Bytes → Entries Deposit → Type 0
InDenom chain_id denom = All (λ e. is_redeemable chain_id e.1 ≡ true → e.1.amount.denom ≡ denom)

-- The deposits stand in the store, each under a key of its own, and are redeemable in `denom`.
abbrev Ready : Bytes → Bytes → Entries Deposit → List Deposit → Type 0
Ready c denom es [] = Unit
Ready c denom es (d ∷ ds) =
    (lookup (key_of d) es ≡ some d)
    × (is_redeemable c d ≡ true)
    × (d.amount.denom ≡ denom)
    × All (λ d'. key_of d' ≢ key_of d) ds
    × Ready c denom es ds

Ready-insert :
    (c denom k : Bytes) (v : Deposit) (es : Entries Deposit) (ds : List Deposit)
    → All (λ d. key_of d ≢ k) ds
    → Ready c denom es ds
    → Ready c denom (insert k v es) ds
Ready-insert c denom k v es [] a r = tt
Ready-insert c denom k v es (d ∷ ds) (a, as') (r, p, q, o, rs) =
    (lookup-insert_ne (key_of d) k v es a ∙ r, p, q, o, Ready-insert c denom k v es ds as' rs)

Ready-cons :
    (c denom : Bytes) (e : Bytes × Deposit) (es : Entries Deposit) (ds : List Deposit)
    → All (λ d. key_of d ≢ e.0) ds
    → Ready c denom es ds
    → Ready c denom (e ∷ es) ds
unfolding lookup
Ready-cons c denom e es [] a r = tt
Ready-cons c denom e es (d ∷ ds) (a, as') (r, p, q, o, rs) =
    (ground (arith, same_iff e.0 (key_of d)), p, q, o, Ready-cons c denom e es ds as' rs)

Above-select :
    (p : Deposit → Bool) (k : Bytes) (es : Entries Deposit)
    → Above k es
    → All (λ e. e.0 ≡ key_of e.1) es
    → All (λ d. key_of d ≢ k) (select p (values es))
Above-select p k [] a h = tt
Above-select p k (e ∷ es) (a, as') (h, hs) =
    ground (arith, less_irrefl k, Above-select p k es as' hs)

select-Ready :
    (c denom : Bytes) (es : Entries Deposit)
    → IsKeyed key_of es
    → InDenom c denom es
    → Ready c denom es (select (is_redeemable c) (values es))
unfolding lookup
select-Ready c denom [] k d = tt
select-Ready c denom (e ∷ es) ((a, s), (h, hs)) (d, ds) =
    let others = Above-select (is_redeemable c) e.0 es a hs in
    let rest = Ready-cons c denom e es _ others (select-Ready c denom es (s, hs) ds) in
    elim (Bool-cases (is_redeemable c e.1)) [
      | inl b ↦ rw (b) (ground (arith, same_iff e.0 (key_of e.1)), b, d b, rw (← h) others, rest)
      | inr b ↦ rw b rest
    ]

module _ (kv : KvStore Deposit) where
  open kv use {Store, entries}

  -- How a redemption of `amount` ends: with the deposits lowered by just that, or refused.
  abbrev pub Adjusts : HostChain → Coin → Store → Outcome Error Store → Type 0
  Adjusts hc amount s (ok s') =
      (sum_by (redeemable hc.chain_id) (values (entries s')) + amount.amount
        ≡ sum_by (redeemable hc.chain_id) (values (entries s)))
      × IsSorted (entries s')
      × ((k : Bytes)
          → All (λ d. key_of d ≢ k) (get_redeemable_deposits_for_host_chain kv hc s).0
          → lookup k (entries s') ≡ lookup k (entries s))
  Adjusts hc amount s (err e) =
      (e ≡ insufficient_deposits)
      × (sum_by (redeemable hc.chain_id) (values (entries s)) < amount.amount)
  Adjusts hc amount s panic = ⊥

module _ (kv : KvStore Deposit) (laws : StoreLaws kv) where
  open kv use {Store, entries}
  open laws use {entries-set}

  -- What the loop has done when it returns.
  record Redeemed (c : Bytes) (ds : List Deposit) (left : ℕ) (s s' : Store) : Type 0 where
    sorted : IsSorted (entries s')
    paid :
        sum_by (redeemable c) (values (entries s')) + left
        ≡ sum_by (redeemable c) (values (entries s))
    others : (k : Bytes) → All (λ d. key_of d ≢ k) ds → lookup k (entries s') ≡ lookup k (entries s)

  -- A redeemable deposit with another amount, put back into the store.
  with_amount : Deposit → ℕ → Deposit
  with_amount d a = record d { amount = coin d.amount.denom a }

  sum-with_amount :
      (c : Bytes) (d : Deposit) (a : ℕ) (s : Store)
      → IsSorted (entries s)
      → lookup (key_of d) (entries s) ≡ some d
      → is_redeemable c d ≡ true
      → sum_by (redeemable c) (values (entries (set_deposit kv (with_amount d a) s)))
          + coin_amount d
        ≡ sum_by (redeemable c) (values (entries s)) + a
  unfolding with_amount set_deposit
  sum-with_amount c d a s sorted r p = rw entries-set (
      ground
        (arith, sum_by-insert (redeemable c) (key_of d) (with_amount d a) d (entries s) sorted r))

  -- Taking a part of one deposit, or all of it.
  with_amount-Redeemed :
      (c : Bytes) (d : Deposit) (ds : List Deposit) (a n : ℕ) (s : Store)
      → IsSorted (entries s)
      → lookup (key_of d) (entries s) ≡ some d
      → is_redeemable c d ≡ true
      → n + a ≡ coin_amount d
      → Redeemed c (d ∷ ds) n s (set_deposit kv (with_amount d a) s)
  unfolding set_deposit with_amount
  with_amount-Redeemed c d ds a n s sorted r p h = record {
    sorted = rw entries-set (insert-IsSorted _ _ _ sorted);
    paid = omega (arith, sum-with_amount c d a s sorted r p);
    others = λ k o. rw entries-set (lookup-insert_ne k (key_of d) _ _ (λ e. o.0 (sym e)));
  }

  Redeemed-trans :
      (c : Bytes) (d : Deposit) (ds : List Deposit) (a b n : ℕ) (s t u : Store)
      → Redeemed c (d ∷ ds) a s t
      → Redeemed c ds b t u
      → a + b ≡ n
      → Redeemed c (d ∷ ds) n s u
  Redeemed-trans c d ds a b n s t u f g e = record {
    sorted = g.sorted;
    paid = omega (arith, f.paid, g.paid);
    others = λ k o. g.others k o.1 ∙ f.others k o;
  }

  -- The loop returns, and has taken `left` from the deposits that it was given.
  redeem_from-Returns :
      (c : Bytes) (ds : List Deposit) (left : Coin) (s : Store)
      → IsSorted (entries s)
      → Ready c left.denom (entries s) ds
      → left.amount ≤ sum_by coin_amount ds
      → Returns (Redeemed c ds left.amount s) (redeem_from kv ds left s)
  unfolding redeem_from with_amount set_deposit
  redeem_from-Returns c [] left s sorted r h = record {
    sorted = sorted;
    paid = omega arith;
    others = λ k _. refl;
  }
  redeem_from-Returns c (d ∷ ds) left s sorted (r, p, q, o, rs) h =
      elim (Bool-cases (is_zero left)) [
        | inl z ↦ rw z (record { sorted = sorted; paid = ground arith; others = λ k _. refl })
        | inr nz ↦ rw nz (elim (Bool-cases (ltb left.amount d.amount.amount)) [
          | inl part ↦
              let enough : left.amount ≤ coin_amount d = ground arith in
              rw (part, coin_sub-ok d.amount left q enough)
                (with_amount-Redeemed c d ds _ left.amount s sorted r p (omega arith))
          | inr whole ↦
              let small : coin_amount d ≤ left.amount = ground arith in
              let nothing : ℕ = d.amount.amount - d.amount.amount in
              let t = set_deposit kv (with_amount d nothing) s in
              let left' : Coin = coin left.denom (left.amount - d.amount.amount) in
              let taken =
                with_amount-Redeemed c d ds nothing (coin_amount d) s sorted r p (omega arith) in
              let ready =
                Ready-insert c left.denom (key_of d) (with_amount d nothing) (entries s) ds o rs in
              rw
                (
                  whole,
                  coin_sub-ok left d.amount (sym q) small,
                  coin_sub-ok d.amount d.amount refl (omega arith),
                )
                (Returns-map (redeem_from kv ds left' t)
                  (λ u g.
                    Redeemed-trans c d ds (coin_amount d) left'.amount left.amount s t u taken g
                      (omega arith))
                  (redeem_from-Returns c ds left' t taken.sorted (rw entries-set ready)
                    (omega arith)))
        ])
      ]

  Returns-Adjusts :
      (hc : HostChain) (amount : Coin) (s : Store) (r : Outcome Error Store)
      → let ds = (get_redeemable_deposits_for_host_chain kv hc s).0 in
        Returns (Redeemed hc.chain_id ds amount.amount s) r → Adjusts kv hc amount s r
  Returns-Adjusts hc amount s (ok s') h = (h.paid, h.sorted, h.others)
  Returns-Adjusts hc amount s (err e) h = elim h [ ]
  Returns-Adjusts hc amount s panic h = elim h [ ]

  -- On deposits under their keys, with the redeemable ones of the chain in the denomination of the
  -- amount, the call does not panic. When it returns, the redeemable deposits of the chain have together lost
  -- exactly the amount, and every entry that is not one of them is as before. When it fails, it is
  -- since the redeemable deposits sum to less than the amount.
  pub adjust_deposits_for_redemption-Adjusts :
      (hc : HostChain) (amount : Coin) (s : Store)
      → IsKeyed key_of (entries s)
      → InDenom hc.chain_id amount.denom (entries s)
      → Adjusts kv hc amount s (adjust_deposits_for_redemption kv hc amount s)
  unfolding adjust_deposits_for_redemption
  adjust_deposits_for_redemption-Adjusts hc amount s keyed inside =
      let p = is_redeemable hc.chain_id in
      let ds = select p (values (entries s)) in
      let total = sum_by-select coin_amount p (values (entries s)) in
      elim (Bool-cases (ltb (sum_by coin_amount ds) amount.amount)) [
        | inl short ↦ rw short (refl, ground (arith, total))
        | inr cover ↦ rw cover (
            Returns-Adjusts hc amount s _ (
              redeem_from-Returns hc.chain_id ds amount s keyed.0
                (select-Ready hc.chain_id amount.denom (entries s) keyed inside) (ground arith)))
      ]
