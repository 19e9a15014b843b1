-- ===== src/Base/Lists.antt =====
-- Lists measured and summed by native numbers, and predicates on them.
use Prim.Native.Nat.{ℕ, suc, ◌+◌}
use mathlib.Core.Path.{◌≡◌, refl}
use mathlib.Core.Bool.{Bool, true, false}
use mathlib.Core.List.{List, [], ◌∷◌, ◌++◌, map}
use native.Mathlib.Omega.{arith}
use pstake_native_test.Base.Tests.{if◌then◌else◌}

module _ {ℓ} {A : Type ℓ} where
  abbrev pub length : List A → ℕ
  length [] = 0
  length (_ ∷ xs) = suc (length xs)

  -- The sum of a measure over a list.
  abbrev pub sum_by : (A → ℕ) → List A → ℕ
  sum_by f [] = 0
  sum_by f (x ∷ xs) = f x + sum_by f xs

  -- The elements that pass a Boolean test, in order.
  abbrev pub select : (A → Bool) → List A → List A
  select p [] = []
  select p (x ∷ xs) = if p x then x ∷ select p xs else select p xs

  abbrev pub All {κ} : (A → Type κ) → List A → Type κ
  All P [] = Unit
  All P (x ∷ xs) = P x × All P xs

module _ {ℓ} {A : Type ℓ} where
  pub length-append : (xs ys : List A) → length (xs ++ ys) ≡ length xs + length ys
  length-append [] ys = omega arith
  length-append (x ∷ xs) ys = omega (arith, length-append xs ys)

  pub sum_by-append : (f : A → ℕ) (xs ys : List A) → sum_by f (xs ++ ys) ≡ sum_by f xs + sum_by f ys
  sum_by-append f [] ys = omega arith
  sum_by-append f (x ∷ xs) ys = omega (arith, sum_by-append f xs ys)

  pub All-append {κ} : (P : A → Type κ) (xs ys : List A) → All P xs → All P ys → All P (xs ++ ys)
  All-append P [] ys h k = k
  All-append P (x ∷ xs) ys (h, hs) k = (h, All-append P xs ys hs k)

  pub All-select : (p : A → Bool) (xs : List A) → All (λ x. p x ≡ true) (select p xs)
  All-select p [] = tt
  All-select p (x ∷ xs) = ground (arith, All-select p xs)

  -- A sum over the selected elements.
  pub sum_by-select :
      (f : A → ℕ) (p : A → Bool) (xs : List A)
      → sum_by f (select p xs) ≡ sum_by (λ x. if p x then f x else 0) xs
  sum_by-select f p [] = refl
  sum_by-select f p (x ∷ xs) = ground (arith, sum_by-select f p xs)

  pub select-cons_true :
      (p : A → Bool) (x : A) (xs : List A) → p x ≡ true → select p (x ∷ xs) ≡ x ∷ select p xs
  select-cons_true p x xs h = ground arith

  pub select-cons_false :
      (p : A → Bool) (x : A) (xs : List A) → p x ≡ false → select p (x ∷ xs) ≡ select p xs
  select-cons_false p x xs h = ground arith

  pub sum_by-map {κ} :
      {B : Type κ} (f : B → ℕ) (g : A → B) (xs : List A)
      → sum_by f (map g xs) ≡ sum_by (λ x. f (g x)) xs
  sum_by-map f g [] = refl
  sum_by-map f g (x ∷ xs) = omega (arith, sum_by-map f g xs)
