-- ===== src/Pairing.antt =====
-- crates/pairing/src/lib.rs: pairing codes and their comparison. Times are nanoseconds.
pub mod Compare
mod Tests
use Prim.Native.Char.{Char, code}
use Prim.Native.String
use clawpod.Base.{
  ℕ, zero, suc, ◌+◌, ◌-◌, ◌*◌, ◌/◌, ◌%◌, String, Bool, true, false, ◌&&◌, not, List, [], ◌∷◌, ◌++◌,
  leb, nat_eq, ltb, if◌then◌else◌, any, length,
}
use clawpod.Base.Text
use clawpod.Extern.{TextLib}

-- `str::as_bytes` of a character and of a text: UTF-8.
abbrev pub char_bytes : Char → List ℕ
char_bytes c =
    let n = code c in
    if leb n 0x7f
    then n ∷ []
    else if leb n 0x7ff
    then (0xc0 + n / 64 % 32) ∷ (0x80 + n % 64) ∷ []
    else if leb n 0xffff
    then (0xe0 + n / 4096 % 16) ∷ (0x80 + n / 64 % 64) ∷ (0x80 + n % 64) ∷ []
    else (0xf0 + n / 262144 % 8)
      ∷ (0x80 + n / 4096 % 64)
      ∷ (0x80 + n / 64 % 64)
      ∷ (0x80 + n % 64)
      ∷ []

unfoldable pub as_bytes : String → List ℕ
as_bytes String.[] = []
as_bytes (String.◌∷◌ c s) = char_bytes c ++ as_bytes s

-- Exclusive or and inclusive or of numbers of some bits.
unfoldable pub bit_xor : ℕ → ℕ → ℕ → ℕ
bit_xor zero a b = 0
bit_xor (suc w) a b = (a + b) % 2 + 2 * bit_xor w (a / 2) (b / 2)

unfoldable pub bit_or : ℕ → ℕ → ℕ → ℕ
bit_or zero a b = 0
bit_or (suc w) a b = (a % 2 + b % 2 + 1) / 2 + 2 * bit_or w (a / 2) (b / 2)

-- The loop of `constant_time_eq`, on bytes.
unfoldable pub diff_of : ℕ → List ℕ → List ℕ → ℕ
unfolding bit_xor bit_or
diff_of diff [] ys = diff
diff_of diff (x ∷ xs) [] = diff
diff_of diff (x ∷ xs) (y ∷ ys) = diff_of (bit_or 8 diff (bit_xor 8 x y)) xs ys

-- `constant_time_eq`.
unfoldable pub constant_time_eq : List ℕ → List ℕ → Bool
unfolding diff_of
constant_time_eq a b =
    if not (nat_eq (length a) (length b)) then false else nat_eq (diff_of 0 a b) 0

-- `verify_code`.
unfoldable pub verify_code : TextLib → String → String → Bool
unfolding Text.trim as_bytes constant_time_eq
verify_code lib provided stored =
    constant_time_eq (as_bytes (lib.to_uppercase (Text.trim provided))) (as_bytes stored)

-- `is_code_expired`, at a time of the clock.
unfoldable pub is_code_expired : ℕ → ℕ → Bool
is_code_expired now expires_at = ltb expires_at now

pub data VerifyResult : Type 0 where
  approved invalid_code expired locked_out : VerifyResult

-- `CODE_ALPHABET`.
abbrev pub code_alphabet : String
code_alphabet = "ABCDEFGHJKMNPQRSTUVWXYZ23456789"

-- `u8::to_ascii_uppercase`.
abbrev to_ascii_uppercase : ℕ → ℕ
to_ascii_uppercase b = if leb 97 b && leb b 122 then b - 32 else b

abbrev is_code_byte : ℕ → Bool
is_code_byte b = any (nat_eq (to_ascii_uppercase b)) (as_bytes code_alphabet)

-- `looks_like_pairing_code`.
unfoldable pub looks_like_pairing_code : String → ℕ → Bool
unfolding Text.trim as_bytes
looks_like_pairing_code message expected_length =
    let trimmed = as_bytes (Text.trim message) in
    nat_eq (length trimmed) expected_length && not (any (λ b. not (is_code_byte b)) trimmed)
