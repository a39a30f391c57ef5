-- ===== src/Base/Decimal.antt =====
-- Decimal digits as the standard library reads and prints them, and `i64`.
use Prim.Native.Char.{Char, code}
use Prim.Native.String.{String}
use Prim.Native.Nat.{ℕ, zero, suc, ◌+◌, ◌-◌, ◌*◌, ◌/◌, ◌%◌, ◌^◌, ◌≤◌, ◌<◌}
use mathlib.Core.Path.{◌≡◌, refl, ◌∙◌}
use mathlib.Core.Bool.{Bool, true, false, ◌&&◌}
use mathlib.Core.Option.{Option, none, some}
use native.Mathlib.Omega.{arith}
use clawpod.Base.Tests.{leb, ltb, nat_eq, if◌then◌else◌, Bool-cases}
use mathlib.Core.Logic.{inl, inr}
use clawpod.Base.Text.{is_empty}

abbrev pub u64_bound : ℕ
u64_bound = 2 ^ 64

abbrev pub i64_bound : ℕ
i64_bound = 2 ^ 63

pub data ℤ : Type 0 where
  pos : ℕ → ℤ
  negsuc : ℕ → ℤ

abbrev pub leb_int : ℤ → ℤ → Bool
leb_int (pos m) (pos n) = leb m n
leb_int (pos m) (negsuc n) = false
leb_int (negsuc m) (pos n) = true
leb_int (negsuc m) (negsuc n) = leb n m

abbrev pub negate : ℕ → ℤ
negate zero = pos zero
negate (suc n) = negsuc n

unfoldable pub digit_value : Char → Option ℕ
digit_value c = let n = code c in if leb 48 n && leb n 57 then some (n - 48) else none

-- The digits of a text after those read already.
unfoldable pub read_digits : ℕ → String → Option ℕ
unfolding digit_value
read_digits value String.[] = some value
read_digits value (String.◌∷◌ c s) = elim (digit_value c) [
  | none ↦ none
  | some d ↦ read_digits (value * 10 + d) s
]

-- `str::parse::<u64>`: digits, at least one, after an optional plus, below 2^64.
unfoldable pub parse_u64 : String → Option ℕ
unfolding read_digits
parse_u64 String.[] = none
parse_u64 (String.◌∷◌ c s) =
    let digits = if nat_eq (code c) 43 then s else String.◌∷◌ c s in
    if is_empty digits then none else elim (read_digits 0 digits) [
      | none ↦ none
      | some value ↦ if ltb value u64_bound then some value else none
    ]

-- The digits of a number that is not below 0.
abbrev magnitude : String → Option ℕ
magnitude digits = if is_empty digits then none else read_digits 0 digits

-- `str::parse::<i64>`, with one sign at most.
unfoldable pub parse_i64 : String → Option ℤ
unfolding read_digits
parse_i64 String.[] = none
parse_i64 (String.◌∷◌ c s) =
    if nat_eq (code c) 45
    then elim (magnitude s) [
      | none ↦ none
      | some n ↦ if leb n i64_bound then some (negate n) else none
    ]
    else elim (magnitude (if nat_eq (code c) 43 then s else String.◌∷◌ c s)) [
      | none ↦ none
      | some n ↦ if ltb n i64_bound then some (pos n) else none
    ]

unfoldable digit_char : ℕ → Char
digit_char zero = "0"
digit_char (suc zero) = "1"
digit_char (suc (suc zero)) = "2"
digit_char (suc (suc (suc zero))) = "3"
digit_char (suc (suc (suc (suc zero)))) = "4"
digit_char (suc (suc (suc (suc (suc zero))))) = "5"
digit_char (suc (suc (suc (suc (suc (suc zero)))))) = "6"
digit_char (suc (suc (suc (suc (suc (suc (suc zero))))))) = "7"
digit_char (suc (suc (suc (suc (suc (suc (suc (suc zero)))))))) = "8"
digit_char (suc (suc (suc (suc (suc (suc (suc (suc (suc n))))))))) = "9"

code-digit_char : (n : ℕ) → n < 10 → code (digit_char n) ≡ 48 + n
unfolding digit_char
code-digit_char zero h = refl
code-digit_char (suc zero) h = refl
code-digit_char (suc (suc zero)) h = refl
code-digit_char (suc (suc (suc zero))) h = refl
code-digit_char (suc (suc (suc (suc zero)))) h = refl
code-digit_char (suc (suc (suc (suc (suc zero))))) h = refl
code-digit_char (suc (suc (suc (suc (suc (suc zero)))))) h = refl
code-digit_char (suc (suc (suc (suc (suc (suc (suc zero))))))) h = refl
code-digit_char (suc (suc (suc (suc (suc (suc (suc (suc zero)))))))) h = refl
code-digit_char (suc (suc (suc (suc (suc (suc (suc (suc (suc zero))))))))) h = refl
code-digit_char (suc (suc (suc (suc (suc (suc (suc (suc (suc (suc n)))))))))) h =
    absurd (omega arith)

-- The digits of a number before a text; `fuel` rounds are enough for a number below 10 ^ fuel, so a
-- number is fuel enough for itself.
unfoldable pub digits : ℕ → ℕ → String → String
unfolding digit_char
digits zero n rest = rest
digits (suc fuel) n rest =
    let more = digits fuel (n / 10) (String.◌∷◌ (digit_char (n % 10)) rest) in
    if ltb n 10 then String.◌∷◌ (digit_char n) rest else more

-- `to_string` of an unsigned number.
unfoldable pub to_decimal : ℕ → String
unfolding digits
to_decimal n = digits (suc n) n ""

abbrev pub IsDigits : String → Type 0
IsDigits String.[] = Unit
IsDigits (String.◌∷◌ c s) = (48 ≤ code c) × (code c ≤ 57) × IsDigits s

pub digits-IsDigits : (fuel n : ℕ) (rest : String) → IsDigits rest → IsDigits (digits fuel n rest)
unfolding digits
digits-IsDigits zero n rest h = h
digits-IsDigits (suc fuel) n rest h = elim (Bool-cases (ltb n 10)) [
  | inl small ↦
      let lt : n < 10 = ground arith in
      let e = code-digit_char n lt in rw small (omega (arith, e), omega (arith, e), h)
  | inr large ↦
      let e = code-digit_char (n % 10) (omega arith) in
      rw large (
        digits-IsDigits fuel (n / 10) (String.◌∷◌ (digit_char (n % 10)) rest)
          (omega (arith, e), omega (arith, e), h))
]

digit_value-digit_char : (n : ℕ) → n < 10 → digit_value (digit_char n) ≡ some n
unfolding digit_value
digit_value-digit_char n h = ground (arith, code-digit_char n h)

read_digits-cons :
    (v n : ℕ) (rest : String)
    → n < 10
    → read_digits v (String.◌∷◌ (digit_char n) rest) ≡ read_digits (v * 10 + n) rest
unfolding read_digits
read_digits-cons v n rest h = rw (read_digits, digit_value-digit_char n h) refl

pub read_digits-digits :
    (fuel n : ℕ) (rest : String)
    → n < fuel
    → read_digits 0 (digits fuel n rest) ≡ read_digits n rest
unfolding digits
read_digits-digits zero n rest h = absurd (omega arith)
read_digits-digits (suc fuel) n rest h = elim (Bool-cases (ltb n 10)) [
  | inl small ↦
      let start : 0 * 10 + n ≡ n = omega arith in
      let lt : n < 10 = ground arith in rw small (rw start at (read_digits-cons 0 n rest lt))
  | inr large ↦
      let ih =
        read_digits-digits fuel (n / 10) (String.◌∷◌ (digit_char (n % 10)) rest) (ground arith) in
      let whole : n / 10 * 10 + n % 10 ≡ n = omega arith in
      rw (large, ih, read_digits-cons (n / 10) (n % 10) rest (omega arith), whole) refl
]

pub to_decimal-IsDigits : (n : ℕ) → IsDigits (to_decimal n)
unfolding to_decimal
to_decimal-IsDigits n = digits-IsDigits (suc n) n "" tt

pub read_digits-to_decimal : (n : ℕ) → read_digits 0 (to_decimal n) ≡ some n
unfolding to_decimal
read_digits-to_decimal n =
    read_digits-digits (suc n) n "" (omega arith) ∙ (unfold read_digits in refl)

digits-filled :
    (fuel n : ℕ) (rest : String) → is_empty rest ≡ false → is_empty (digits fuel n rest) ≡ false
unfolding digits
digits-filled zero n rest h = h
digits-filled (suc fuel) n rest h = elim (Bool-cases (ltb n 10)) [
  | inl small ↦ rw small refl
  | inr large ↦ rw large (digits-filled fuel (n / 10) _ refl)
]

pub to_decimal-filled : (n : ℕ) → is_empty (to_decimal n) ≡ false
unfolding to_decimal digits
to_decimal-filled n = elim (Bool-cases (ltb n 10)) [
  | inl small ↦ rw small refl
  | inr large ↦ rw large (digits-filled n (n / 10) _ refl)
]

pub parse_i64-IsDigits :
    (s : String) (n : ℕ)
    → IsDigits s
    → is_empty s ≡ false
    → read_digits 0 s ≡ some n
    → n < i64_bound
    → parse_i64 s ≡ some (pos n)
unfolding parse_i64
parse_i64-IsDigits String.[] n h filled e lt = cc
parse_i64-IsDigits (String.◌∷◌ c s) n h filled e lt =
    let minus : nat_eq (code c) 45 ≡ false = ground (arith, h.0) in
    let plus : nat_eq (code c) 43 ≡ false = ground (arith, h.0) in
    let small : ltb n (2 ^ 63) ≡ true = ground arith in rw (minus, plus, e, small) refl

pub parse_i64-minus :
    (s : String) (n : ℕ)
    → is_empty s ≡ false
    → read_digits 0 s ≡ some (suc n)
    → n < i64_bound
    → parse_i64 (String.◌∷◌ "-" s) ≡ some (negsuc n)
unfolding parse_i64
parse_i64-minus s n filled e lt =
    let small : leb (suc n) (2 ^ 63) ≡ true = ground arith in rw (filled, e, small) refl

-- The value of an i64 from its bits.
unfoldable pub i64_of : ℕ → ℤ
i64_of bits = if ltb bits i64_bound then pos bits else negsuc (u64_bound - 1 - bits)

printed : to_decimal 1700 ≡ "1700"
unfolding to_decimal
printed = refl
