-- ===== src/Sdk/Store/Content.antt =====
-- The contents of a key-value store: its entries in the order of the keys.
use pstake_native_test.Base.{
  ℕ, ◌+◌, ◌≡◌, ◌≢◌, refl, true, Option, none, some, List, [], ◌∷◌, arith, if◌then◌else◌, sum_by,
}
use pstake_native_test.Base.Text.{
  Bytes, same, less, same_iff, less_irrefl, less_trans, less_total, same_refl,
}

abbrev pub Entries : Type 0 → Type 0
Entries V = List (Bytes × V)

module _ {V : Type 0} where
  unfoldable pub lookup : Bytes → Entries V → Option V
  unfolding same
  lookup k [] = none
  lookup k ((j, v) ∷ es) = if same j k then some v else lookup k es

  -- The entry of `k` is replaced where it stands; a new key goes before the first greater one.
  unfoldable pub insert : Bytes → V → Entries V → Entries V
  unfolding same less
  insert k v [] = (k, v) ∷ []
  insert k v ((j, w) ∷ es) =
      if same j k
      then (k, v) ∷ es
      else if less k j
      then (k, v) ∷ (j, w) ∷ es
      else (j, w) ∷ insert k v es

  unfoldable pub erase : Bytes → Entries V → Entries V
  unfolding same
  erase k [] = []
  erase k ((j, w) ∷ es) = if same j k then es else (j, w) ∷ erase k es

  -- What an iterator yields.
  abbrev pub values : Entries V → List V
  values [] = []
  values (e ∷ es) = e.1 ∷ values es

  -- All keys are greater than `k`.
  abbrev pub Above : Bytes → Entries V → Type 0
  Above k [] = Unit
  Above k (e ∷ es) = (less k e.0 ≡ true) × Above k es

  abbrev pub IsSorted : Entries V → Type 0
  IsSorted [] = Unit
  IsSorted (e ∷ es) = Above e.0 es × IsSorted es

module _ {V : Type 0} where
  Above-weaken : (j k : Bytes) (es : Entries V) → less j k ≡ true → Above k es → Above j es
  Above-weaken j k [] h a = tt
  Above-weaken j k (e ∷ es) h a = (less_trans j k e.0 h a.0, Above-weaken j k es h a.1)

  Above-insert :
      (j k : Bytes) (v : V) (es : Entries V)
      → less j k ≡ true
      → Above j es
      → Above j (insert k v es)
  unfolding insert
  Above-insert j k v [] h a = (h, tt)
  Above-insert j k v (e ∷ es) h a = ground (arith, Above-insert j k v es h a.1)

  pub insert-IsSorted :
      (k : Bytes) (v : V) (es : Entries V) → IsSorted es → IsSorted (insert k v es)
  unfolding insert
  insert-IsSorted k v [] s = (tt, tt)
  insert-IsSorted k v (e ∷ es) s = ground (
    arith,
    same_iff e.0 k,
    less_total k e.0,
    same_iff k e.0,
    insert-IsSorted k v es s.1,
    Above-insert e.0 k v es,
    Above-weaken k e.0 es,
  )

  pub lookup-Above : (k : Bytes) (es : Entries V) → Above k es → lookup k es ≡ none
  unfolding lookup
  lookup-Above k [] a = refl
  lookup-Above k (e ∷ es) a = ground (arith, same_iff e.0 k, less_irrefl k, lookup-Above k es a.1)

  pub lookup-insert :
      (j k : Bytes) (v : V) (es : Entries V)
      → lookup j (insert k v es) ≡ (if same k j then some v else lookup j es)
  unfolding lookup insert
  lookup-insert j k v [] = refl
  lookup-insert j k v (e ∷ es) =
      ground (arith, same_iff e.0 k, same_iff k j, same_iff e.0 j, lookup-insert j k v es)

  pub lookup-insert_self : (k : Bytes) (v : V) (es : Entries V) → lookup k (insert k v es) ≡ some v
  lookup-insert_self k v es = rw (lookup-insert k k v es, same_refl k)

  pub lookup-insert_ne :
      (j k : Bytes) (v : V) (es : Entries V) → j ≢ k → lookup j (insert k v es) ≡ lookup j es
  lookup-insert_ne j k v es h = ground (arith, lookup-insert j k v es, same_iff k j)

  pub lookup-erase_ne : (j k : Bytes) (es : Entries V) → j ≢ k → lookup j (erase k es) ≡ lookup j es
  unfolding lookup erase
  lookup-erase_ne j k [] h = refl
  lookup-erase_ne j k (e ∷ es) h =
      ground (arith, same_iff e.0 k, same_iff e.0 j, lookup-erase_ne j k es h)

  pub lookup-erase_self : (k : Bytes) (es : Entries V) → IsSorted es → lookup k (erase k es) ≡ none
  unfolding lookup erase
  lookup-erase_self k [] s = refl
  lookup-erase_self k (e ∷ es) s =
      ground (arith, same_iff e.0 k, lookup-Above k es, lookup-erase_self k es s.1)

  Above-erase : (j k : Bytes) (es : Entries V) → Above j es → Above j (erase k es)
  unfolding erase
  Above-erase j k [] a = tt
  Above-erase j k (e ∷ es) a = ground (arith, Above-erase j k es a.1)

  pub erase-IsSorted : (k : Bytes) (es : Entries V) → IsSorted es → IsSorted (erase k es)
  unfolding erase
  erase-IsSorted k [] s = tt
  erase-IsSorted k (e ∷ es) s = ground (arith, erase-IsSorted k es s.1, Above-erase e.0 k es s.0)

  -- Replacing an entry moves a sum over the values by the difference of the two.
  pub sum_by-insert :
      (f : V → ℕ) (k : Bytes) (v w : V) (es : Entries V)
      → IsSorted es
      → lookup k es ≡ some w
      → sum_by f (values (insert k v es)) + f w ≡ sum_by f (values es) + f v
  unfolding lookup insert
  sum_by-insert f k v w [] s h = cc
  sum_by-insert f k v w (e ∷ es) s h = ground (
    arith,
    same_iff e.0 k,
    lookup-Above k es,
    Above-weaken k e.0 es,
    sum_by-insert f k v w es s.1,
  )

  -- A new entry adds its value to a sum.
  pub sum_by-insert_new :
      (f : V → ℕ) (k : Bytes) (v : V) (es : Entries V)
      → lookup k es ≡ none
      → sum_by f (values (insert k v es)) ≡ sum_by f (values es) + f v
  unfolding lookup insert
  sum_by-insert_new f k v [] h = omega arith
  sum_by-insert_new f k v (e ∷ es) h = ground (arith, sum_by-insert_new f k v es)

  -- Deleting an entry takes its value off a sum.
  pub sum_by-erase :
      (f : V → ℕ) (k : Bytes) (w : V) (es : Entries V)
      → lookup k es ≡ some w
      → sum_by f (values (erase k es)) + f w ≡ sum_by f (values es)
  unfolding lookup erase
  sum_by-erase f k w [] h = cc
  sum_by-erase f k w (e ∷ es) h = ground (arith, sum_by-erase f k w es)
