-- ===== src/Base/Decimal.antt =====
-- `strconv.FormatInt(n, 10)` of a number that is not negative, and the value of its digits.
use pstake_native_test.Base.{
  refl, Bool-cases, inl, inr, leb, ◌&&◌, Option, some, none, Bool, ℕ, zero, suc, ◌+◌, ◌-◌, ◌*◌, ◌/◌,
  ◌%◌, ◌<◌, ◌≡◌, [], ◌∷◌, arith, ltb, if◌then◌else◌, ap, sym, ◌∙◌,
}
use pstake_native_test.Base.Text.{Bytes}

-- The digits from the last one on, in front of those that are there; a number has fewer digits
-- than its value and one more, which is the fuel that `format` gives.
format_from : ℕ → ℕ → Bytes → Bytes
format_from zero n out = out
format_from (suc fuel) n out =
    let digit = 48 + n % 10 in
    let rest = format_from fuel (n / 10) (digit ∷ out) in if ltb n 10 then digit ∷ out else rest

unfoldable pub format : ℕ → Bytes
unfolding format_from
format n = format_from (suc n) n []

-- The number that decimal digits stand for, read after `acc`.
abbrev pub value_from : ℕ → Bytes → ℕ
value_from acc [] = acc
value_from acc (c ∷ cs) = value_from (acc * 10 + (c - 48)) cs

value-format_from :
    (fuel n : ℕ) (out : Bytes) → n < fuel → value_from 0 (format_from fuel n out) ≡ value_from n out
unfolding format_from
value-format_from zero n out h = elim h [ ]
value-format_from (suc fuel) n out h =
    ground (arith, value-format_from fuel (n / 10) ((48 + n % 10) ∷ out))

-- Reading back what was printed.
pub value-format : (n : ℕ) → value_from 0 (format n) ≡ n
unfolding format
value-format n = value-format_from (suc n) n [] (omega arith)

pub format_inj : (m n : ℕ) → format m ≡ format n → m ≡ n
format_inj m n e = sym (value-format m) ∙ ap (value_from 0) e ∙ value-format n

-- `strconv.ParseUint(s, 10, 64)`: the digits are read from the left, and the number stays below 2^64.
abbrev pub uint64_bound : ℕ
uint64_bound = 18446744073709551616

abbrev pub is_digit : ℕ → Bool
is_digit c = leb 48 c && leb c 57

unfoldable pub parse_from : ℕ → Bytes → Option ℕ
parse_from acc [] = some acc
parse_from acc (c ∷ cs) =
    let next = acc * 10 + (c - 48) in
    let rest = parse_from next cs in if is_digit c && ltb next uint64_bound then rest else none

unfoldable pub parse_uint : Bytes → Option ℕ
unfolding parse_from
parse_uint [] = none
parse_uint (c ∷ cs) = parse_from 0 (c ∷ cs)

parse_digit :
    (n : ℕ) (out : Bytes)
    → n < uint64_bound
    → parse_from (n / 10) ((48 + n % 10) ∷ out) ≡ parse_from n out
unfolding parse_from
parse_digit n out h =
    let value : n / 10 * 10 + (48 + n % 10 - 48) ≡ n = omega arith in rw value (ground arith)

parse-format_from :
    (fuel n : ℕ) (out : Bytes)
    → n < fuel
    → n < uint64_bound
    → parse_from 0 (format_from fuel n out) ≡ parse_from n out
unfolding format_from
parse-format_from zero n out h b = elim h [ ]
parse-format_from (suc fuel) n out h b =
    ground (arith, parse-format_from fuel (n / 10) ((48 + n % 10) ∷ out), parse_digit n out b)

format_from-cons :
    (fuel n : ℕ) (c : ℕ) (out : Bytes)
    → (d : ℕ) × (ds : Bytes) × (format_from fuel n (c ∷ out) ≡ d ∷ ds)
unfolding format_from
format_from-cons zero n c out = (c, out, refl)
format_from-cons (suc fuel) n c out =
    let digit = 48 + n % 10 in
    elim (Bool-cases (ltb n 10)) [
      | inl b ↦ (digit, c ∷ out, rw b refl)
      | inr b ↦ let (d, ds, e) = format_from-cons fuel (n / 10) digit (c ∷ out) in (d, ds, rw b e)
    ]

parse_uint-cons : (s : Bytes) (d : ℕ) (ds : Bytes) → s ≡ d ∷ ds → parse_uint s ≡ parse_from 0 s
unfolding parse_uint
parse_uint-cons s d ds e = rw e refl

format-cons : (n : ℕ) → (d : ℕ) × (ds : Bytes) × (format n ≡ d ∷ ds)
unfolding format format_from
format-cons n = elim (Bool-cases (ltb n 10)) [
  | inl b ↦ (48 + n % 10, [], rw b refl)
  | inr b ↦ let (d, ds, e) = format_from-cons n (n / 10) (48 + n % 10) [] in (d, ds, rw b e)
]

parse_from-nil : (n : ℕ) → parse_from n [] ≡ some n
unfolding parse_from
parse_from-nil n = refl

parse_format_from : (n : ℕ) → n < uint64_bound → parse_from 0 (format n) ≡ parse_from n []
unfolding format
parse_format_from n h = parse-format_from (suc n) n [] (omega arith) h

-- Reading back an unsigned integer of 64 bits.
pub parse_uint-format : (n : ℕ) → n < uint64_bound → parse_uint (format n) ≡ some n
parse_uint-format n h =
    let (d, ds, e) = format-cons n in
    parse_uint-cons (format n) d ds e ∙ parse_format_from n h ∙ parse_from-nil n
