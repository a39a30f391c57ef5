-- ===== src/Pairing/Compare.antt =====
-- crates/pairing/src/lib.rs: the comparison without early exit is equality.
use clawpod.Base.{
  ℕ, zero, suc, ◌/◌, ◌^◌, ◌<◌, String, true, List, [], ◌∷◌, ◌≡◌, refl, ◌↔◌, All, length, nat_eq,
  All-append, arith, ap, Bool-cases, inl, inr,
}
use Prim.Native.Char.{Char}
use clawpod.Base.Text
use clawpod.Extern.{TextLib}
use clawpod.Pairing.{bit_xor, bit_or, diff_of, constant_time_eq, as_bytes, verify_code, char_bytes}

bit_or-eq-zero_iff : (w a b : ℕ) → a < 2 ^ w → b < 2 ^ w → (bit_or w a b ≡ 0) ↔ ((a ≡ 0) × (b ≡ 0))
unfolding bit_or
bit_or-eq-zero_iff zero a b ha hb = (λ _. (omega arith, omega arith), λ _. refl)
bit_or-eq-zero_iff (suc w) a b ha hb =
    let ih = bit_or-eq-zero_iff w (a / 2) (b / 2) (omega arith) (omega arith) in
    (
      λ e.
          let low = ih.0 (omega (arith, e)) in
          (omega (arith, e, low.0, low.1), omega (arith, e, low.0, low.1)),
      λ e. let low = ih.1 (omega (arith, e.0), omega (arith, e.1)) in omega (arith, e.0, e.1, low),
    )

bit_or-small : (w a b : ℕ) → bit_or w a b < 2 ^ w
unfolding bit_or
bit_or-small zero a b = omega arith
bit_or-small (suc w) a b = omega (arith, bit_or-small w (a / 2) (b / 2))

bit_xor-small : (w a b : ℕ) → bit_xor w a b < 2 ^ w
unfolding bit_xor
bit_xor-small zero a b = omega arith
bit_xor-small (suc w) a b = omega (arith, bit_xor-small w (a / 2) (b / 2))

bit_xor-eq-zero_iff : (w a b : ℕ) → a < 2 ^ w → b < 2 ^ w → (bit_xor w a b ≡ 0) ↔ (a ≡ b)
unfolding bit_xor
bit_xor-eq-zero_iff zero a b ha hb = (λ _. omega arith, λ _. refl)
bit_xor-eq-zero_iff (suc w) a b ha hb =
    let ih = bit_xor-eq-zero_iff w (a / 2) (b / 2) (omega arith) (omega arith) in
    (
      λ e. let low = ih.0 (omega (arith, e)) in omega (arith, e, low),
      λ e. let low = ih.1 (ap (λ n. n / 2) e) in omega (arith, e, low),
    )

abbrev Byte : ℕ → Type 0
Byte n = n < 2 ^ 8

diff_of-eq-zero_iff :
    (diff : ℕ) (xs ys : List ℕ)
    → Byte diff
    → All Byte xs
    → All Byte ys
    → length xs ≡ length ys
    → (diff_of diff xs ys ≡ 0) ↔ ((diff ≡ 0) × (xs ≡ ys))
unfolding diff_of
diff_of-eq-zero_iff diff [] [] hd hx hy e = (λ d. (d, refl), λ d. d.0)
diff_of-eq-zero_iff diff [] (y ∷ ys) hd hx hy e = absurd (omega (arith, e))
diff_of-eq-zero_iff diff (x ∷ xs) [] hd hx hy e = absurd (omega (arith, e))
diff_of-eq-zero_iff diff (x ∷ xs) (y ∷ ys) hd hx hy e =
    let ih =
      diff_of-eq-zero_iff (bit_or 8 diff (bit_xor 8 x y)) xs ys
        (bit_or-small 8 diff (bit_xor 8 x y)) hx.1 hy.1 (omega (arith, e)) in
    let joined = bit_or-eq-zero_iff 8 diff (bit_xor 8 x y) hd (bit_xor-small 8 x y) in
    let same = bit_xor-eq-zero_iff 8 x y hx.0 hy.0 in
    (
      λ d.
          let rest = ih.0 d in
          let both = joined.0 rest.0 in (both.0, both_eq (same.0 both.1) rest.1),
      λ d. ih.1 (joined.1 (d.0, same.1 (head_eq d.1)), tail_eq d.1),
    )
  where
    both_eq : {a b : ℕ} {us vs : List ℕ} → a ≡ b → us ≡ vs → a ∷ us ≡ b ∷ vs
    both_eq p q = cc

    head_eq : {a b : ℕ} {us vs : List ℕ} → a ∷ us ≡ b ∷ vs → a ≡ b
    head_eq p = cc

    tail_eq : {a b : ℕ} {us vs : List ℕ} → a ∷ us ≡ b ∷ vs → us ≡ vs
    tail_eq p = cc

-- The comparison that looks at every byte says yes exactly on equal lists of bytes.
pub constant_time_eq_iff :
    (xs ys : List ℕ) → All Byte xs → All Byte ys → (constant_time_eq xs ys ≡ true) ↔ (xs ≡ ys)
unfolding constant_time_eq
constant_time_eq_iff xs ys hx hy = elim (Bool-cases (nat_eq (length xs) (length ys))) [
  | inl same ↦
      let e : length xs ≡ length ys = ground arith in
      let d = diff_of-eq-zero_iff 0 xs ys (omega arith) hx hy e in
      (λ h. (d.0 (ground arith)).1, λ p. (let z = d.1 (refl, p) in ground arith))
  | inr other ↦ (λ h. absurd (ground arith), λ p. (let e = ap length p in ground arith))
]

char_bytes-All : (c : Char) → All Byte (char_bytes c)
char_bytes-All c = ground arith

as_bytes-All : (s : String) → All Byte (as_bytes s)
unfolding as_bytes
as_bytes-All String.[] = tt
as_bytes-All (String.◌∷◌ c s) =
    All-append Byte (char_bytes c) (as_bytes s) (char_bytes-All c) (as_bytes-All s)

-- A code is accepted exactly when the text provided, trimmed and in capitals, has the bytes of the
-- stored code.
pub verify_code_iff :
    (lib : TextLib) (provided stored : String)
    → (verify_code lib provided stored ≡ true)
      ↔ (as_bytes (lib.to_uppercase (Text.trim provided)) ≡ as_bytes stored)
unfolding verify_code
verify_code_iff lib provided stored =
    constant_time_eq_iff (as_bytes (lib.to_uppercase (Text.trim provided))) (as_bytes stored)
      (as_bytes-All (lib.to_uppercase (Text.trim provided))) (as_bytes-All stored)
