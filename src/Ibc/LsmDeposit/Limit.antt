-- ===== src/Ibc/LsmDeposit/Limit.antt =====
-- The filter with a limit against the plain one, and a round of states over what it finds.
use pstake_native_test.Base.{
  ℕ, ◌+◌, ◌-◌, ◌<◌, ◌≤◌, ◌≡◌, refl, sym, ◌∙◌, ap, Bool, false, List, [], ◌∷◌, ◌++◌, length,
  length-append, ◌==◌, if◌then◌else◌, select, arith, inl, inr, Bool-cases,
}
use pstake_native_test.Base.Text.{Bytes, same}
use pstake_native_test.Sdk.Store.{KvStore, StoreLaws}
use pstake_native_test.Sdk.Store.Content.{values}
use pstake_native_test.Sdk.Store.Update.{
  update_where-agrees, IsKeyed, update_where, set_each-select,
}
use pstake_native_test.Ibc.Types.{LsmDepositState, LsmDeposit}
use pstake_native_test.Ibc.LsmDeposit.{
  previous_lsm, set_each, filter_up_to, filter_lsm_deposits_with_limit, filter_lsm_deposits,
  lsm_deposit_filter_limit, revert_lsm_deposits_state, lsm_reverted, key_of_lsm,
  get_lsm_deposits_from_ibc_sequence_id,
}

-- The first so many elements.
abbrev pub take : ℕ → List LsmDeposit → List LsmDeposit
take n [] = []
take n (d ∷ ds) = if n == 0 then [] else d ∷ take (n - 1) ds

take_zero : (ds : List LsmDeposit) → take 0 ds ≡ []
take_zero [] = refl
take_zero (d ∷ ds) = refl

take_all : (n : ℕ) (ds : List LsmDeposit) → length ds ≤ n → take n ds ≡ ds
take_all n [] h = refl
take_all n (d ∷ ds) h = ground (arith, take_all (n - 1) ds)

length-select : (p : LsmDeposit → Bool) (ds : List LsmDeposit) → length (select p ds) ≤ length ds
length-select p [] = omega arith
length-select p (d ∷ ds) = ground (arith, length-select p ds)

append_nil : (ds : List LsmDeposit) → (ds ++ []) ≡ ds
append_nil [] = refl
append_nil (d ∷ ds) = ap (◌∷◌ d) (append_nil ds)

append_assoc : (xs ys zs : List LsmDeposit) → ((xs ++ ys) ++ zs) ≡ (xs ++ (ys ++ zs))
append_assoc [] ys zs = refl
append_assoc (x ∷ xs) ys zs = ap (◌∷◌ x) (append_assoc xs ys zs)

take-cons :
    (n : ℕ) (d : LsmDeposit) (ds : List LsmDeposit) → 0 < n → take n (d ∷ ds) ≡ d ∷ take (n - 1) ds
take-cons n d ds h = ground arith

length-snoc :
    (found : List LsmDeposit) (d : LsmDeposit) → length (found ++ (d ∷ [])) ≡ length found + 1
length-snoc found d = omega (arith, length-append found (d ∷ []))

-- One more that is found.
found_one :
    (limit : ℕ) (p : LsmDeposit → Bool) (found ds : List LsmDeposit) (d : LsmDeposit)
    → length found < limit
    → (length found + 1 < limit
        → filter_up_to limit p (found ++ (d ∷ [])) ds
          ≡ ((found ++ (d ∷ [])) ++ take (limit - (length found + 1)) (select p ds)))
    → (if length (found ++ (d ∷ [])) == limit
        then found ++ (d ∷ [])
        else filter_up_to limit p (found ++ (d ∷ [])) ds)
      ≡ (found ++ take (limit - length found) (d ∷ select p ds))
found_one limit p found ds d h ih =
    rw (length-snoc found d, take-cons (limit - length found) d (select p ds) (omega arith))
      (elim (Bool-cases (length found + 1 == limit)) [
        | inl b ↦
            let none_left : limit - length found - 1 ≡ 0 = ground arith in
            rw (b, none_left, take_zero (select p ds)) refl
        | inr b ↦
            let left : limit - (length found + 1) ≡ limit - length found - 1 = omega arith in
            rw b (
              ih (ground arith)
              ∙ append_assoc found (d ∷ []) _
              ∙ ap (λ n. found ++ (d ∷ take n (select p ds))) left)
      ])

filter_up_to-take :
    (limit : ℕ) (p : LsmDeposit → Bool) (found ds : List LsmDeposit)
    → length found < limit
    → filter_up_to limit p found ds ≡ (found ++ take (limit - length found) (select p ds))
unfolding filter_up_to
filter_up_to-take limit p found [] h = sym (append_nil found)
filter_up_to-take limit p found (d ∷ ds) h = elim (Bool-cases (p d)) [
  | inl b ↦ rw b (
      found_one limit p found ds d h (λ more.
        rw (sym (length-snoc found d))
          (filter_up_to-take limit p (found ++ (d ∷ [])) ds (rw (length-snoc found d) more))))
  | inr b ↦
      let goes_on : (length found == limit) ≡ false = ground arith in
      rw (b, goes_on) (filter_up_to-take limit p found ds h)
]

-- The number of a state in the protocol definition, and the state of a number.
abbrev pub number : LsmDepositState → ℕ
number LsmDepositState.pending = 0
number LsmDepositState.sent = 1
number LsmDepositState.received = 2
number LsmDepositState.untokenizing = 3

abbrev numbered : ℕ → LsmDepositState
numbered n =
    if n == 0
    then LsmDepositState.pending
    else (if n == 1
        then LsmDepositState.sent
        else (if n == 2 then LsmDepositState.received else LsmDepositState.untokenizing))

-- A deposit with no sequence id whose state has the number before, if there is one.
abbrev pub taken_back : LsmDeposit → LsmDeposit
taken_back d = record d { ibc_sequence_id = []; state = numbered (number d.state - 1) }

previous-numbered : (x : LsmDepositState) → previous_lsm x ≡ numbered (number x - 1)
unfolding previous_lsm
previous-numbered LsmDepositState.pending = refl
previous-numbered LsmDepositState.sent = refl
previous-numbered LsmDepositState.received = refl
previous-numbered LsmDepositState.untokenizing = refl

lsm_reverted-taken_back : (d : LsmDeposit) → lsm_reverted d ≡ taken_back d
unfolding lsm_reverted
lsm_reverted-taken_back d =
    ap (λ x. record d { ibc_sequence_id = []; state = x }) (previous-numbered d.state)

module _ (kv : KvStore LsmDeposit) where
  open kv use {Store, entries}

  -- The filter with a limit finds the first 10,000 of what the plain filter finds.
  pub filter_lsm_deposits_with_limit-take :
      (p : LsmDeposit → Bool) (s : Store)
      → filter_lsm_deposits_with_limit kv p s
        ≡ take lsm_deposit_filter_limit (filter_lsm_deposits kv p s)
  unfolding filter_lsm_deposits_with_limit filter_lsm_deposits
  filter_lsm_deposits_with_limit-take p s =
      filter_up_to-take lsm_deposit_filter_limit p [] (values (entries s)) (omega arith)

  -- When the store holds no more than 10,000 deposits, reverting those of a sequence id takes just
  -- those to the state with the number before, if there is one, clears their id, and leaves every other entry as it is.
  pub entries-revert_lsm_deposits_state :
      (laws : StoreLaws kv) (sequence_id : Bytes) (s : Store)
      → IsKeyed key_of_lsm (entries s)
      → length (values (entries s)) ≤ 10000
      → entries
          (revert_lsm_deposits_state kv (get_lsm_deposits_from_ibc_sequence_id kv sequence_id s) s)
        ≡ update_where (λ d. same d.ibc_sequence_id sequence_id) taken_back (entries s)
  unfolding revert_lsm_deposits_state lsm_reverted get_lsm_deposits_from_ibc_sequence_id
      filter_lsm_deposits
  entries-revert_lsm_deposits_state laws q s keyed few =
      let all : filter_lsm_deposits_with_limit kv (λ d. same d.ibc_sequence_id q) s
          ≡ select (λ d. same d.ibc_sequence_id q) (values (entries s)) =
        filter_lsm_deposits_with_limit-take (λ d. same d.ibc_sequence_id q) s
        ∙ take_all lsm_deposit_filter_limit _ (
            omega
              (arith, few, length-select (λ d. same d.ibc_sequence_id q) (values (entries s)))) in
      ap (λ ds. entries (set_each kv key_of_lsm lsm_reverted ds s)) all
      ∙ set_each-select kv laws key_of_lsm lsm_reverted (λ d. same d.ibc_sequence_id q) s
          (λ v. refl) keyed
      ∙ update_where-agrees (λ d. same d.ibc_sequence_id q) lsm_reverted taken_back (entries s)
          lsm_reverted-taken_back
