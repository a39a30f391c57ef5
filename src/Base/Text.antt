-- ===== src/Base/Text.antt =====
-- Text as the standard library handles it: concatenation as `format!` makes it, and trimming.
use Prim.Native.Char.{Char, code}
use Prim.Native.String
use Prim.Native.String.{String, [], ◌∷◌}
use mathlib.Core.Path.{◌≡◌, refl, ap}
use mathlib.Core.Bool.{Bool, true, false, ◌&&◌, ◌||◌}
use mathlib.Core.Option.{Option, none, some}
use text.Mathlib.Text.{◌==◌}
use text.Mathlib.TextPositions.{eq_refl}
use text.Mathlib.TextEquality.{eq_iff}
use text.Mathlib.TextLemmas.{length-append, length-cons, cons-append, nil-append}
use native.Mathlib.Omega.{arith}
use mathlib.Core.Logic.{inl, inr}
use mathlib.Core.List
use Prim.Native.Nat.{ℕ, ◌+◌}
use clawpod.Base.Tests.{if◌then◌else◌, leb, nat_eq, Bool-cases}

-- `format!` of its pieces in order.
abbrev pub format : List.List String → String
format List.[] = ""
format (List.◌∷◌ s ss) = String.◌++◌ s (format ss)

abbrev pub is_empty : String → Bool
is_empty [] = true
is_empty (c ∷ s) = false

-- The code points with Unicode's `White_Space` property, which `str::trim` removes.
unfoldable pub is_whitespace : Char → Bool
is_whitespace c =
    let n = code c in
    (leb 9 n && leb n 13)
    || nat_eq n 32
    || nat_eq n 0x85
    || nat_eq n 0xa0
    || nat_eq n 0x1680
    || (leb 0x2000 n && leb n 0x200a)
    || nat_eq n 0x2028
    || nat_eq n 0x2029
    || nat_eq n 0x202f
    || nat_eq n 0x205f
    || nat_eq n 0x3000

unfoldable pub trim_start : String → String
trim_start [] = []
trim_start (c ∷ s) = let rest = trim_start s in if is_whitespace c then rest else c ∷ s

unfoldable pub trim_end : String → String
trim_end [] = []
trim_end (c ∷ s) =
    let rest = trim_end s in if is_empty rest && is_whitespace c then [] else c ∷ rest

unfoldable pub trim : String → String
unfolding trim_start trim_end is_whitespace
trim s = trim_end (trim_start s)

trim_sides : trim " \t a b " ≡ "a b"
unfolding trim
trim_sides = refl

-- `str::strip_prefix` and `str::strip_suffix`, the text before the affix.
unfoldable pub strip_prefix : String → String → Option String
strip_prefix s [] = some s
strip_prefix [] (p ∷ ps) = none
strip_prefix (c ∷ s) (p ∷ ps) =
    let rest = strip_prefix s ps in if nat_eq (code c) (code p) then rest else none

unfoldable pub strip_suffix : String → String → Option String
strip_suffix [] suffix = if "" == suffix then some "" else none
strip_suffix (c ∷ s) suffix =
    let rest = strip_suffix s suffix in
    if (c ∷ s) == suffix then some "" else elim rest [ none ↦ none | some t ↦ some (c ∷ t) ]

strip_suffix_self : (s : String) → strip_suffix s s ≡ some ""
unfolding strip_suffix
strip_suffix_self [] = refl
strip_suffix_self (c ∷ s) = rw (eq_refl (c ∷ s)) refl

pub strip_suffix-append : (s suffix : String) → strip_suffix (String.◌++◌ s suffix) suffix ≡ some s
unfolding strip_suffix
strip_suffix-append [] suffix = rw (nil-append suffix) (strip_suffix_self suffix)
strip_suffix-append (c ∷ s) suffix =
    let longer : ((c ∷ String.◌++◌ s suffix) == suffix) ≡ false =
      (elim (Bool-cases ((c ∷ String.◌++◌ s suffix) == suffix)) [
        | inr e ↦ e
        | inl e ↦
            let same = (eq_iff (c ∷ String.◌++◌ s suffix) suffix).0 e in
            absurd (
              omega (
                arith,
                ap String.count same,
                length-append s suffix,
                length-cons c (String.◌++◌ s suffix),
              ))
      ]) in
    rw (cons-append c s suffix, strip_suffix, longer, strip_suffix-append s suffix) refl

-- The bytes of a character in UTF-8, and `str::len`.
abbrev char_len : Char → ℕ
char_len c =
    let n = code c in
    if leb n 0x7f then 1 else if leb n 0x7ff then 2 else if leb n 0xffff then 3 else 4

unfoldable pub len : String → ℕ
len [] = 0
len (c ∷ s) = char_len c + len s
