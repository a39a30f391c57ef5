-- ===== src/Queue/Names.antt =====
-- crates/queue/src/lib.rs: the names of the files that hold messages, which say when one is due.
use Prim.Native.Char.{code}
use Prim.Native.String.{count}
use Prim.Native.String.{◌++◌}
use text.Mathlib.TextLemmas.{nil-append, cons-append, append_assoc, append-nil}
use clawpod.Base.{
  ◌∙◌, ℕ, zero, suc, ◌-◌, ◌<◌, arith, String, Bool, true, false, not, Option, none, some, [], ◌∷◌,
  nat_eq, unwrap_or, option_map, if◌then◌else◌, format, ◌≡◌, refl,
}
use clawpod.Base.Text
use clawpod.Base.Decimal.{
  ℤ, pos, negsuc, i64_bound, parse_i64, to_decimal, IsDigits, read_digits, to_decimal-IsDigits,
  read_digits-to_decimal, to_decimal-filled, parse_i64-IsDigits, parse_i64-minus,
}

-- `path.extension() == Some("json")`: a name that is only a suffix has no extension.
unfoldable pub is_json : String → Bool
unfolding Text.strip_suffix
is_json name = elim (Text.strip_suffix name ".json") [
  | none ↦ false
  | some stem ↦ not (Text.is_empty stem)
]

-- `{:013}`.
unfoldable pub zeros : ℕ → String → String
zeros zero s = s
zeros (suc n) s = String.◌∷◌ "0" (zeros n s)

-- `{:013}` of an i64.
unfoldable pub number_of : ℤ → String
unfolding zeros to_decimal
number_of (pos n) = zeros (13 - count (to_decimal n)) (to_decimal n)
number_of (negsuc n) = String.◌∷◌ "-" (zeros (12 - count (to_decimal (suc n))) (to_decimal (suc n)))

-- `queued_file_name`, with the random part.
unfoldable pub queued_file_name : ℤ → String → String
unfolding number_of
queued_file_name available_at_ms simple =
    format (number_of available_at_ms ∷ "_" ∷ simple ∷ ".json" ∷ [])

-- `split_once('_')`, its first part.
unfoldable pub before_underscore : String → Option String
before_underscore String.[] = none
before_underscore (String.◌∷◌ c s) =
    let rest = before_underscore s in
    if nat_eq (code c) 95 then some "" else option_map (λ t. String.◌∷◌ c t) rest

-- `parse_due_from_filename`.
unfoldable pub parse_due_from_filename : String → Option ℤ
unfolding before_underscore parse_i64
parse_due_from_filename file_name = elim (before_underscore file_name) [
  | none ↦ none
  | some prefix ↦ parse_i64 prefix
]

-- The order of `scan_incoming_files`: by the due time, 0 where there is none.
abbrev pub due_key : String → ℤ
due_key file_name = unwrap_or (parse_due_from_filename file_name) (pos 0)

zeros-IsDigits : (n : ℕ) (s : String) → IsDigits s → IsDigits (zeros n s)
unfolding zeros
zeros-IsDigits zero s h = h
zeros-IsDigits (suc n) s h = (omega arith, omega arith, zeros-IsDigits n s h)

before_underscore-digits :
    (s rest : String) → IsDigits s → before_underscore (s ++ ("_" ++ rest)) ≡ some s
unfolding before_underscore
before_underscore-digits String.[] rest h =
    rw (nil-append ("_" ++ rest), cons-append "_" "" rest, before_underscore) refl
before_underscore-digits (String.◌∷◌ c s) rest h =
    let other : nat_eq (code c) 95 ≡ false = ground (arith, h.0, h.1) in
    rw (cons-append c s ("_" ++ rest), before_underscore, other)
      (rw (before_underscore-digits s rest h.2) refl)

read_digits-zeros : (n : ℕ) (s : String) → read_digits 0 (zeros n s) ≡ read_digits 0 s
unfolding zeros read_digits
read_digits-zeros zero s = refl
read_digits-zeros (suc n) s = read_digits-zeros n s

zeros-filled : (n : ℕ) (s : String) → Text.is_empty s ≡ false → Text.is_empty (zeros n s) ≡ false
unfolding zeros
zeros-filled zero s h = h
zeros-filled (suc n) s h = refl

is_json-append : (stem : String) → Text.is_empty stem ≡ false → is_json (stem ++ ".json") ≡ true
unfolding is_json
is_json-append stem h = rw (is_json, Text.strip_suffix-append stem ".json", h) refl

append-filled : (s t : String) → Text.is_empty s ≡ false → Text.is_empty (s ++ t) ≡ false
append-filled String.[] t h = cc
append-filled (String.◌∷◌ c s) t h = rw (cons-append c s t) refl

-- The numbers of an i64.
abbrev pub IsI64 : ℤ → Type 0
IsI64 (pos n) = n < i64_bound
IsI64 (negsuc n) = n < i64_bound

padded-IsDigits : (k n : ℕ) → IsDigits (zeros k (to_decimal n))
padded-IsDigits k n = zeros-IsDigits k (to_decimal n) (to_decimal-IsDigits n)

padded-filled : (k n : ℕ) → Text.is_empty (zeros k (to_decimal n)) ≡ false
padded-filled k n = zeros-filled k (to_decimal n) (to_decimal-filled n)

read_digits-padded : (k n : ℕ) → read_digits 0 (zeros k (to_decimal n)) ≡ some n
read_digits-padded k n = read_digits-zeros k (to_decimal n) ∙ read_digits-to_decimal n

number_of-due :
    (t : ℤ) (rest : String)
    → IsI64 t
    → parse_due_from_filename (number_of t ++ ("_" ++ rest)) ≡ some t
unfolding parse_due_from_filename number_of
number_of-due (pos n) rest lt =
    let k = 13 - count (to_decimal n) in
    rw (parse_due_from_filename, before_underscore-digits _ rest (padded-IsDigits k n))
      (parse_i64-IsDigits _ n (padded-IsDigits k n) (padded-filled k n) (read_digits-padded k n) lt)
number_of-due (negsuc n) rest lt =
    let k = 12 - count (to_decimal (suc n)) in
    let s : String = zeros k (to_decimal (suc n)) in
    rw
      (
        parse_due_from_filename,
        cons-append "-" s ("_" ++ rest),
        before_underscore,
        before_underscore-digits s rest (padded-IsDigits k (suc n)),
      )
      (parse_i64-minus s n (padded-filled k (suc n)) (read_digits-padded k (suc n)) lt)

number_of-filled : (t : ℤ) → Text.is_empty (number_of t) ≡ false
unfolding number_of
number_of-filled (pos n) = padded-filled (13 - count (to_decimal n)) n
number_of-filled (negsuc n) = refl

number_of-is_json : (t : ℤ) (middle : String) → is_json (number_of t ++ (middle ++ ".json")) ≡ true
number_of-is_json t middle = rw (← append_assoc (number_of t) middle ".json") (
    is_json-append (number_of t ++ middle)
      (append-filled (number_of t) middle (number_of-filled t)))

-- The due time that a file's name gives is the one that the file was named for, and the file is one
-- of those that the queue looks at, whatever the random part.
pub parse_due_from_filename-queued_file_name :
    (available_at_ms : ℤ) (simple : String)
    → IsI64 available_at_ms
    → (parse_due_from_filename (queued_file_name available_at_ms simple) ≡ some available_at_ms)
      × (is_json (queued_file_name available_at_ms simple) ≡ true)
unfolding queued_file_name
parse_due_from_filename-queued_file_name t simple lt = (
  rw (append-nil ".json") (number_of-due t (simple ++ ".json") lt),
  rw (append-nil ".json", ← append_assoc "_" simple ".json") (number_of-is_json t ("_" ++ simple)),
)
