-- ===== src/Base/Ending.antt =====
-- How a Go function ends: with its result, with an error, or with a panic.
use mathlib.Core.Bool.{Bool, true, false}
use mathlib.Core.Path.{◌≡◌, refl}
use mathlib.Core.Option.{Option, none, some}

pub data Outcome {ℓ κ} (E : Type ℓ) (A : Type κ) : Type (ℓ ⊔ κ) where
  ok : A → Outcome E A
  err : E → Outcome E A
  panic : Outcome E A

infixl 5 ◌>>=◌ ◌>>◌
abbrev pub ◌>>=◌ {ℓ κ ι} :
    {E : Type ℓ} {A : Type κ} {B : Type ι} → Outcome E A → (A → Outcome E B) → Outcome E B
ok a >>= f = f a
err e >>= f = err e
panic >>= f = panic

abbrev pub ◌>>◌ {ℓ ι} : {E : Type ℓ} {B : Type ι} → Outcome E (Unit {0}) → Outcome E B → Outcome E B
m >> k = m >>= λ _. k

-- `if !b { return e }`
abbrev pub require {ℓ} : {E : Type ℓ} → Bool → E → Outcome E (Unit {0})
require true e = ok tt
require false e = err e

-- `if b { return e }`
abbrev pub refuse {ℓ} : {E : Type ℓ} → Bool → E → Outcome E (Unit {0})
refuse true e = err e
refuse false e = ok tt

-- The empty type at any level.
pub data Never {ℓ} : Type ℓ where

-- The function returns a result, and the result satisfies `P`.
abbrev pub Returns {ℓ κ ι} : {E : Type ℓ} {A : Type κ} → (A → Type ι) → Outcome E A → Type ι
Returns P (ok a) = P a
Returns P (err e) = Never
Returns P panic = Never

pub Returns-map {ℓ κ ι} :
    {E : Type ℓ} {A : Type κ} {P Q : A → Type ι} (r : Outcome E A)
    → ((a : A) → P a → Q a)
    → Returns P r
    → Returns Q r
Returns-map (ok a) f h = f a h
Returns-map (err e) f h = elim h [ ]
Returns-map panic f h = elim h [ ]

pub Returns-ok {ℓ κ ι} :
    {E : Type ℓ} {A : Type κ} (P : A → Type ι) (r : Outcome E A)
    → Returns P r
    → (a : A) × (r ≡ ok a) × P a
Returns-ok P (ok a) h = (a, refl, h)
Returns-ok P (err e) h = elim h [ ]
Returns-ok P panic h = elim h [ ]

-- `x, found := ...; if !found { return e }`
abbrev pub found_or {ℓ κ} : {E : Type ℓ} {A : Type κ} → Option A → E → Outcome E A
found_or none e = err e
found_or (some a) e = ok a

-- `errorsmod.Wrapf(e, ...)` around the error of a call.
abbrev pub wrapped {ℓ κ} : {E : Type ℓ} {A : Type κ} → E → Outcome E A → Outcome E A
wrapped e (ok a) = ok a
wrapped e (err _) = err e
wrapped e panic = panic

-- What holds of a result, of an error and of a panic.
abbrev pub Ends {ℓ κ} :
    {E : Type ℓ} {A : Type κ} → (A → Type 0) → (E → Type 0) → Type 0 → Outcome E A → Type 0
Ends P Q R (ok a) = P a
Ends P Q R (err e) = Q e
Ends P Q R panic = R

module _ {ℓ κ} {E : Type ℓ} {B : Type κ} (P : B → Type 0) (Q : E → Type 0) (R : Type 0) where
  pub require-Ends :
      (b : Bool) (e : E) (r : Outcome E B)
      → (b ≡ false → Q e)
      → (b ≡ true → Ends P Q R r)
      → Ends P Q R (require b e >> r)
  require-Ends false e r f g = f refl
  require-Ends true e r f g = g refl

  pub refuse-Ends :
      (b : Bool) (e : E) (r : Outcome E B)
      → (b ≡ true → Q e)
      → (b ≡ false → Ends P Q R r)
      → Ends P Q R (refuse b e >> r)
  refuse-Ends true e r f g = f refl
  refuse-Ends false e r f g = g refl

  pub bind-Ends {ι} :
      {A : Type ι} (r : Outcome E A) (f : A → Outcome E B)
      → ((e : E) → r ≡ err e → Q e)
      → (r ≡ panic → R)
      → ((a : A) → r ≡ ok a → Ends P Q R (f a))
      → Ends P Q R (r >>= f)
  bind-Ends (ok a) f g h k = k a refl
  bind-Ends (err e) f g h k = g e refl
  bind-Ends panic f g h k = h refl

  pub found-Ends {ι} :
      {A : Type ι} (o : Option A) (e : E) (f : A → Outcome E B)
      → (o ≡ none → Q e)
      → ((a : A) → o ≡ some a → Ends P Q R (f a))
      → Ends P Q R (found_or o e >>= f)
  found-Ends none e f g k = g refl
  found-Ends (some a) e f g k = k a refl

  -- The error of a wrapped call is the given one.
  pub wrapped-Ends {ι} :
      {A : Type ι} (e : E) (r : Outcome E A) (f : A → Outcome E B)
      → ((e' : E) → r ≡ err e' → Q e)
      → (r ≡ panic → R)
      → ((a : A) → r ≡ ok a → Ends P Q R (f a))
      → Ends P Q R (wrapped e r >>= f)
  wrapped-Ends e (ok a) f g h k = k a refl
  wrapped-Ends e (err e') f g h k = g e' refl
  wrapped-Ends e panic f g h k = h refl

  -- A call whose endings are known.
  pub chain-Ends {ι} :
      {A : Type ι} (P' : A → Type 0) (Q' : E → Type 0) (R' : Type 0) (r : Outcome E A)
      (f : A → Outcome E B)
      → Ends P' Q' R' r
      → ((e : E) → Q' e → Q e)
      → (R' → R)
      → ((a : A) → P' a → Ends P Q R (f a))
      → Ends P Q R (r >>= f)
  chain-Ends P' Q' R' (ok a) f h g k l = l a h
  chain-Ends P' Q' R' (err e) f h g k l = g e h
  chain-Ends P' Q' R' panic f h g k l = k h

  pub weaken-Ends :
      (P' : B → Type 0) (r : Outcome E B) → Ends P' Q R r → ((b : B) → P' b → P b) → Ends P Q R r
  weaken-Ends P' (ok b) h f = f b h
  weaken-Ends P' (err e) h f = h
  weaken-Ends P' panic h f = h

  -- And one that is followed by two more.
  pub chain2-Ends {ι κ'} :
      {A : Type ι} {C : Type κ'} (P' : A → Type 0) (Q' : E → Type 0) (R' : Type 0) (r : Outcome E A)
      (f : A → Outcome E C) (k : C → Outcome E B)
      → Ends P' Q' R' r
      → ((e : E) → Q' e → Q e)
      → (R' → R)
      → ((a : A) → P' a → Ends P Q R (f a >>= k))
      → Ends P Q R ((r >>= f) >>= k)
  chain2-Ends P' Q' R' (ok a) f k h g m l = l a h
  chain2-Ends P' Q' R' (err e) f k h g m l = g e h
  chain2-Ends P' Q' R' panic f k h g m l = m h
