-- ===== src/Ibc/Rebalance/Surplus.antt =====
-- The redelegations move no more than the surplus of the validators, and no more than they lack.
use pstake_native_test.Base.{
  ℕ, ◌+◌, ◌≤◌, ◌≡◌, refl, Bool, true, false, ◌||◌, List, [], ◌∷◌, arith, ltb, if◌then◌else◌, sum_by,
  sum_by-append,
}
use pstake_native_test.Base.Int.{
  parts_disjoint, ℤ, pos, pos_part, neg_part, ◌+ℤ◌, ◌-ℤ◌, ◌≤ℤ◌, ltb_ℤ, int_laws,
}
use pstake_native_test.Base.Text.{same}
use pstake_native_test.Ibc.Redelegation.{Redelegation}
use pstake_native_test.Ibc.Rebalance.{
  Delegation, Move, Pass, abs, smaller, put_in_order, sort_delegation_list_asc, reverse,
  redelegation_exists_to_validator, redelegation_from_a_to_b, cannot_take, kept, move_amount,
  with_move, paid, pass, passes,
}

-- What a validator has above its ideal, and below it.
abbrev pub surplus : Delegation → ℕ
surplus d = pos_part d.diff

abbrev pub lack : Delegation → ℕ
lack d = neg_part d.diff

abbrev pub moved : List Move → ℕ
moved ms = sum_by (λ m. m.amount) ms

module _ (f : Delegation → ℕ) where
  put_in_order_sum :
      (d : Delegation) (es : List Delegation) → sum_by f (put_in_order d es) ≡ f d + sum_by f es
  unfolding put_in_order
  put_in_order_sum d [] = refl
  put_in_order_sum d (e ∷ es) = ground (arith, put_in_order_sum d es)

  pub sort_sum : (ds : List Delegation) → sum_by f (sort_delegation_list_asc ds) ≡ sum_by f ds
  unfolding sort_delegation_list_asc
  sort_sum [] = refl
  sort_sum (d ∷ ds) = omega (arith, put_in_order_sum d (sort_delegation_list_asc ds), sort_sum ds)

  pub reverse_sum : (ds : List Delegation) → sum_by f (reverse ds) ≡ sum_by f ds
  unfolding reverse
  reverse_sum [] = refl
  reverse_sum (d ∷ ds) = omega (arith, reverse_sum ds, sum_by-append f (reverse ds) (d ∷ []))

-- What a pass from a source moves.
abbrev Moves : Delegation → List Delegation → Pass → Type 0
Moves s ds p =
    (moved p.moves ≤ surplus s) × (moved p.moves + sum_by lack p.destinations ≡ sum_by lack ds)

smaller_facts : (a b : ℕ) → (smaller a b ≤ a) × (smaller a b ≤ b)
smaller_facts a b = (ground arith, ground arith)

move_bounds :
    (x y : ℤ) (k : ℕ)
    → ltb_ℤ (pos 0) y ≡ false
    → neg_part x ≡ 0
    → (k ≤ abs x) × (k ≤ abs y)
    → (pos_part (x -ℤ pos k) + k ≡ pos_part x)
      × (neg_part (x -ℤ pos k) ≡ 0)
      × (neg_part (y +ℤ pos k) + k ≡ neg_part y)
move_bounds x y k h z (kx, ky) =
    let y_low : pos_part y ≤ neg_part y = ground arith in
    let x_parts = parts_disjoint (x -ℤ pos k) in
    let y_parts = parts_disjoint (y +ℤ pos k) in
    let parts = parts_disjoint y in (omega int_laws, omega int_laws, omega int_laws)

module _ (held : List Redelegation) (delta : ℤ) (max_entries : ℕ) where
  either-Moves :
      (s : Delegation) (ds : List Delegation) (b : Bool) (p q : Pass)
      → (b ≡ true → Moves s ds p)
      → (b ≡ false → Moves s ds q)
      → Moves s ds (if b then p else q)
  either-Moves s ds true p q f g = f refl
  either-Moves s ds false p q f g = g refl

  kept-Moves :
      (s d : Delegation) (ds : List Delegation) (p : Pass)
      → Moves s ds p
      → Moves s (d ∷ ds) (kept d p)
  kept-Moves s d ds p (a, b) = (a, omega (arith, b))

  with_move-Moves :
      (s d : Delegation) (ds : List Delegation) (p : Pass)
      → ltb_ℤ (pos 0) d.diff ≡ false
      → neg_part s.diff ≡ 0
      → Moves (paid s d) ds p
      → Moves s (d ∷ ds) (with_move s d p)
  with_move-Moves s d ds p h z (a, b) =
      let bounds =
        move_bounds s.diff d.diff (move_amount s d) h z (smaller_facts (abs s.diff) (abs d.diff)) in
      (omega (arith, bounds.0, a), omega (arith, bounds.2, b))

  or_false : (a b : Bool) → (a || b) ≡ false → b ≡ false
  or_false a b h = ground arith

  -- One pass moves no more than the source's surplus, and what the destinations lack goes down by it.
  pass-Moves :
      (s : Delegation) (ds : List Delegation)
      → neg_part s.diff ≡ 0
      → Moves s ds (pass held delta max_entries s ds)
  unfolding pass
  pass-Moves s [] h = (omega arith, omega arith)
  pass-Moves s (d ∷ ds) h =
      let skipped = kept-Moves s d ds (pass held delta max_entries s ds) (pass-Moves s ds h) in
      either-Moves s (d ∷ ds) (same s.validator d.validator) _ _ (λ _. (omega arith, omega arith))
        (λ _.
          either-Moves s (d ∷ ds) (ltb_ℤ s.diff delta || ltb_ℤ (pos 0) d.diff) _ _
            (λ _. (omega arith, omega arith))
            (λ lacks.
              either-Moves s (d ∷ ds) (cannot_take d) _ _ (λ _. skipped)
                (λ _.
                  either-Moves s (d ∷ ds)
                    (ltb (redelegation_from_a_to_b held s.validator d.validator) max_entries) _ _
                    (λ _.
                      let low = or_false (ltb_ℤ s.diff delta) (ltb_ℤ (pos 0) d.diff) lacks in
                      let bounds =
                        move_bounds s.diff d.diff (move_amount s d) low h
                          (smaller_facts (abs s.diff) (abs d.diff)) in
                      with_move-Moves s d ds (pass held delta max_entries (paid s d) ds) low h
                        (pass-Moves (paid s d) ds bounds.1))
                    (λ _. skipped))))

  abbrev pub Within : List Delegation → List Delegation → List Move → Type 0
  Within ss ds ms = (moved ms ≤ sum_by surplus ss) × (moved ms ≤ sum_by lack ds)

  either-Within :
      (ss ds : List Delegation) (b : Bool) (xs ys : List Move)
      → (b ≡ true → Within ss ds xs)
      → (b ≡ false → Within ss ds ys)
      → Within ss ds (if b then xs else ys)
  either-Within ss ds true xs ys f g = f refl
  either-Within ss ds false xs ys f g = g refl

  not_negative : (z : ℤ) → pos 0 ≤ℤ delta → ltb_ℤ z delta ≡ false → neg_part z ≡ 0
  not_negative z h k =
      let parts = parts_disjoint z in
      let above : pos_part delta + neg_part z ≤ pos_part z + neg_part delta = ground arith in
      let delta_parts = parts_disjoint delta in omega arith

  -- All passes together.
  pub passes-Within :
      (ss ds : List Delegation)
      → pos 0 ≤ℤ delta
      → Within ss ds (passes held delta max_entries ss ds)
  unfolding passes
  passes-Within [] ds h = (omega arith, omega arith)
  passes-Within (s ∷ ss) ds h =
      let sorted = sort_delegation_list_asc ds in
      let p = pass held delta max_entries s sorted in
      let without = passes-Within ss ds h in
      let (later_surplus, later_lack) = passes-Within ss p.destinations h in
      either-Within (s ∷ ss) ds (ltb_ℤ s.diff delta) _ _ (λ _. (omega arith, omega arith))
        (λ b.
          either-Within (s ∷ ss) ds (redelegation_exists_to_validator held s.validator) _ _
            (λ _. (omega (arith, without.0), without.1))
            (λ _.
              let (one_surplus, one_lack) = pass-Moves s sorted (not_negative s.diff h b) in
              let same_lack = sort_sum lack ds in
              let rest = if p.stop then [] else passes held delta max_entries ss p.destinations in
              let (rest_surplus, rest_lack) =
                either-Within ss p.destinations p.stop []
                  (passes held delta max_entries ss p.destinations)
                  (λ _. (omega arith, omega arith)) (λ _. (later_surplus, later_lack)) in
              let all = sum_by-append (λ (m : Move). m.amount) p.moves rest in
              (
                omega (arith, all, one_surplus, rest_surplus),
                omega (arith, all, one_lack, rest_lack, same_lack),
              )))
