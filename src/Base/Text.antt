-- ===== src/Base/Text.antt =====
-- Go strings as byte sequences: equality, order, and decimal printing of naturals.
use Prim.Native.Char.{code}
use Prim.Native.String.{String}
use pstake_native_test.Base.{
  ℕ, ◌≡◌, refl, ◌↔◌, Bool, true, false, ◌&&◌, List, [], ◌∷◌, arith, ltb, ◌==◌, if◌then◌else◌,
}

abbrev pub Bytes : Type 0
Bytes = List ℕ

-- The bytes of an ASCII literal.
abbrev pub codes : String → Bytes
codes String.[] = []
codes (String.◌∷◌ c s) = code c ∷ codes s

-- `a == b` on strings.
unfoldable pub same : Bytes → Bytes → Bool
same [] [] = true
same [] (y ∷ ys) = false
same (x ∷ xs) [] = false
same (x ∷ xs) (y ∷ ys) = x == y && same xs ys

pub same_iff : (a b : Bytes) → (same a b ≡ true) ↔ (a ≡ b)
unfolding same
same_iff [] [] = ground arith
same_iff [] (y ∷ ys) = ground arith
same_iff (x ∷ xs) [] = ground arith
same_iff (x ∷ xs) (y ∷ ys) = ground (arith, same_iff xs ys)

pub same_refl : (a : Bytes) → same a a ≡ true
same_refl a = (same_iff a a).1 refl

-- `a < b` on strings, which is the order of the bytes.
unfoldable pub less : Bytes → Bytes → Bool
less [] [] = false
less [] (y ∷ ys) = true
less (x ∷ xs) [] = false
less (x ∷ xs) (y ∷ ys) = if ltb x y then true else (x == y && less xs ys)

pub less_irrefl : (a : Bytes) → less a a ≡ false
unfolding less
less_irrefl [] = refl
less_irrefl (x ∷ xs) = ground (arith, less_irrefl xs)

pub less_trans : (a b c : Bytes) → less a b ≡ true → less b c ≡ true → less a c ≡ true
unfolding less
less_trans [] [] c h k = cc
less_trans [] (y ∷ ys) [] h k = cc
less_trans [] (y ∷ ys) (z ∷ zs) h k = refl
less_trans (x ∷ xs) [] c h k = cc
less_trans (x ∷ xs) (y ∷ ys) [] h k = cc
less_trans (x ∷ xs) (y ∷ ys) (z ∷ zs) h k = ground (arith, less_trans xs ys zs)

-- Of two different strings one is less.
pub less_total : (a b : Bytes) → same a b ≡ false → less a b ≡ false → less b a ≡ true
unfolding less same
less_total [] [] h k = cc
less_total [] (y ∷ ys) h k = cc
less_total (x ∷ xs) [] h k = refl
less_total (x ∷ xs) (y ∷ ys) h k = ground (arith, less_total xs ys)
