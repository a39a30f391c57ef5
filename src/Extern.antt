-- ===== src/Extern.antt =====
-- What the program takes from code that is not in the repository, as records of functions: the
-- regex crate and the Unicode case tables (`TextLib`), and chrono's RFC 3339 text (`TimeLib`).
use clawpod.Base.{ℕ, ◌≤◌, ◌+◌, ◌*◌, String, Option, some, List, ◌≡◌}
use clawpod.Base.Decimal.{ℤ, pos}

-- The groups 1 and 2 of a match, as `caps.get(1)` and `caps.get(2)` give them.
pub record Captures : Type 0 where
  pub group_1 : Option String
  pub group_2 : Option String

-- `Regex::new(pattern)` with `captures`, `captures_iter` and `replace_all`, with "" or with a
-- function of the match, each with the pattern before the text; `str::to_lowercase` and `str::to_uppercase`.
pub record TextLib : Type 0 where
  pub captures : String → String → Option Captures
  pub captures_iter : String → String → List Captures
  pub erase_all : String → String → String
  pub replace_all : String → String → (Captures → String) → String
  pub to_lowercase : String → String
  pub to_uppercase : String → String

-- chrono's `DateTime<Utc>`, as nanoseconds: `parse_from_rfc3339`, `to_rfc3339`, and the sum with
-- `Duration::seconds`, which is none where chrono panics (the duration or the sum is out of range).
-- RFC 3339 has four digits for a year, so a text is read back up to the end of the year 9999, `last`.
pub record TimeLib : Type 0 where
  pub parse_from_rfc3339 : String → Option ℕ
  pub to_rfc3339 : ℕ → String
  pub add_seconds : ℕ → ℤ → Option ℕ
  pub last : ℕ
  pub parse-to_rfc3339 : (t : ℕ) → t ≤ last → parse_from_rfc3339 (to_rfc3339 t) ≡ some t
  pub add_seconds-pos :
      (t n : ℕ) → t + n * 1000000000 ≤ last → add_seconds t (pos n) ≡ some (t + n * 1000000000)
