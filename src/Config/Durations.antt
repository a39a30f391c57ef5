-- ===== src/Config/Durations.antt =====
-- crates/config/src/lib.rs: durations such as "30m", read into seconds.
use clawpod.Base.{
  ℕ, ◌*◌, ◌%◌, String, none, some, nat_eq, format, [], ◌∷◌, if◌then◌else◌, ◌≡◌, refl, Result, ok,
  err, ok_or, ◌>>=◌,
}
use clawpod.Base.Text
use clawpod.Base.Decimal.{u64_bound, parse_u64}

-- The number's text and the seconds of its unit.
unfoldable pub split_unit : String → String × ℕ
unfolding Text.strip_suffix
split_unit s = elim (Text.strip_suffix s "h") [
  | some n ↦ (n, 3600)
  | none ↦ elim (Text.strip_suffix s "m") [
    | some n ↦ (n, 60)
    | none ↦ elim (Text.strip_suffix s "s") [ some n ↦ (n, 1) | none ↦ (s, 1) ]
  ]
]

-- The last test of `parse_duration_str`, and its product, which wraps as it does in a release build.
unfoldable pub in_seconds : String → ℕ → ℕ → Result ℕ
in_seconds s value multiplier =
    if nat_eq value 0
    then err (format ("duration must be greater than zero: " ∷ s ∷ []))
    else ok ((value * multiplier) % u64_bound)

-- `parse_duration_str`, in seconds.
unfoldable pub parse_duration_str : String → Result ℕ
unfolding Text.trim parse_u64 split_unit in_seconds
parse_duration_str text =
    let s = Text.trim text in
    if Text.is_empty s
    then err "empty duration string"
    else let unit = split_unit s in
      do
        value ← ok_or (parse_u64 (Text.trim unit.0)) (format ("invalid duration: " ∷ s ∷ []))
        in_seconds s value unit.1

half_hour : parse_duration_str " 30m " ≡ ok 1800
unfolding parse_duration_str Text.trim
half_hour = refl

zero_rejected : parse_duration_str "0s" ≡ err "duration must be greater than zero: 0s"
unfolding parse_duration_str Text.trim
zero_rejected = refl
