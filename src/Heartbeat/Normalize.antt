-- ===== src/Heartbeat/Normalize.antt =====
-- crates/heartbeat/src/normalize.rs: what is left of an agent's answer without its HEARTBEAT_OK.
use Prim.Native.Char.{Char, code}
use clawpod.Base.{
  ℕ, ◌*◌, String, Bool, ◌&&◌, none, some, List, [], ◌∷◌, ◌==◌, ltb, leb, nat_eq, if◌then◌else◌,
  is_some, unwrap_or, and_then, any,
}
use clawpod.Base.Text

pub data NormalizeResult : Type 0 where
  ack_only : NormalizeResult
  ok_with_text : String → NormalizeResult
  alert : String → NormalizeResult

abbrev pub token : String
token = "HEARTBEAT_OK"

-- The loop's body in `strip_markdown_wrappers`, for one wrapper.
unfoldable pub unwrap_once : String → String → String
unfolding Text.trim Text.strip_prefix Text.strip_suffix Text.len
unwrap_once s wrapper =
    if is_some (Text.strip_prefix s wrapper)
      && is_some (Text.strip_suffix s wrapper)
      && ltb (2 * Text.len wrapper) (Text.len s)
    then Text.trim (
        unwrap_or (and_then (Text.strip_prefix s wrapper) (λ rest. Text.strip_suffix rest wrapper))
          s)
    else s

unfoldable pub unwrap_all : String → List String → String
unfolding unwrap_once
unwrap_all s [] = s
unwrap_all s (wrapper ∷ wrappers) = unwrap_all (unwrap_once s wrapper) wrappers

unfoldable pub strip_markdown_wrappers : String → String
unfolding Text.trim unwrap_all
strip_markdown_wrappers s =
    unwrap_all (Text.trim s) ("```" ∷ "**" ∷ "__" ∷ "~~" ∷ "`" ∷ "*" ∷ "_" ∷ [])

-- The characters '.', '!', ',', ';', ':' and '-'.
abbrev pub is_mark : Char → Bool
is_mark c = any (nat_eq (code c)) (46 ∷ 33 ∷ 44 ∷ 59 ∷ 58 ∷ 45 ∷ [])

-- `trim_start_matches` and `trim_end_matches` of these.
unfoldable pub trim_start_marks : String → String
trim_start_marks String.[] = String.[]
trim_start_marks (String.◌∷◌ c s) =
    let rest = trim_start_marks s in if is_mark c then rest else String.◌∷◌ c s

unfoldable pub trim_end_marks : String → String
trim_end_marks String.[] = String.[]
trim_end_marks (String.◌∷◌ c s) =
    let rest = trim_end_marks s in
    if Text.is_empty rest && is_mark c then String.[] else String.◌∷◌ c rest

unfoldable pub strip_token_start : String → String
unfolding Text.trim Text.strip_prefix trim_start_marks
strip_token_start unwrapped = elim (Text.strip_prefix unwrapped token) [
  | some rest ↦ Text.trim (trim_start_marks rest)
  | none ↦ unwrapped
]

unfoldable pub strip_token_end : String → String
unfolding Text.trim Text.strip_suffix trim_end_marks
strip_token_end after_start = elim (Text.strip_suffix after_start token) [
  | some rest ↦ Text.trim (trim_end_marks rest)
  | none ↦ after_start
]

-- The tests of `normalize_heartbeat_output`, on the texts it makes, in their order.
unfoldable pub classify : String → String → String → ℕ → NormalizeResult
unfolding Text.len
classify trimmed unwrapped stripped ack_max_chars =
    if Text.is_empty trimmed
    then ack_only
    else if unwrapped == token
    then ack_only
    else if stripped == unwrapped
    then alert trimmed
    else if Text.is_empty stripped
    then ack_only
    else if leb (Text.len stripped) ack_max_chars
    then ok_with_text stripped
    else alert stripped

-- `normalize_heartbeat_output`.
unfoldable pub normalize_heartbeat_output : String → ℕ → NormalizeResult
unfolding Text.trim strip_markdown_wrappers strip_token_start strip_token_end classify
normalize_heartbeat_output output ack_max_chars =
    let trimmed = Text.trim output in
    let unwrapped = strip_markdown_wrappers trimmed in
    classify trimmed unwrapped (strip_token_end (strip_token_start unwrapped)) ack_max_chars
