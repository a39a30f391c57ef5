-- ===== src/Heartbeat/Stripped.antt =====
-- crates/heartbeat/src/normalize.rs: what the steps of the normalization take off a text.
use Prim.Native.Char.{Char, code}
use Prim.Native.String
use text.Mathlib.TextLemmas.{append_assoc, append-nil, nil-append, cons-append}
use text.Mathlib.TextEquality.{Char-path}
use clawpod.Base.{
  String, Bool, true, false, ◌&&◌, ◌||◌, some, [], ◌∷◌, any, nat_eq, Bool-cases, Option-cases, inl,
  inr, ◌≡◌, refl, sym, ap, ◌∙◌, if◌then◌else◌, eq_iff, ◌==◌, arith,
}
use clawpod.Base.Text
use clawpod.Heartbeat.Normalize.{is_mark, trim_start_marks, trim_end_marks}

-- Whitespace, the marks that are trimmed, and the signs of the markdown wrappers.
abbrev pub is_noise : Char → Bool
is_noise c = Text.is_whitespace c || (is_mark c || any (nat_eq (code c)) (96 ∷ 42 ∷ 95 ∷ 126 ∷ []))

abbrev pub IsNoise : String → Type 0
IsNoise String.[] = Unit
IsNoise (String.◌∷◌ c s) = (is_noise c ≡ true) × IsNoise s

IsNoise-append : (a b : String) → IsNoise a → IsNoise b → IsNoise (String.◌++◌ a b)
IsNoise-append String.[] b h k = rw (nil-append b) k
IsNoise-append (String.◌∷◌ c a) b h k = rw (cons-append c a b) (h.0, IsNoise-append a b h.1 k)

-- The second text is the first one with noise around it.
abbrev pub IsAround : String → String → Type 0
IsAround u s =
    (a : String) × (b : String) × (s ≡ String.◌++◌ a (String.◌++◌ u b)) × IsNoise a × IsNoise b

pub IsAround-refl : (s : String) → IsAround s s
IsAround-refl s = ("", "", sym (nil-append _ ∙ append-nil s), tt, tt)

pub IsAround-trans : (u t s : String) → IsAround u t → IsAround t s → IsAround u s
IsAround-trans u t s (a, b, e, na, nb) (a', b', e', na', nb') = (
  String.◌++◌ a' a,
  String.◌++◌ b b',
  e' ∙ ap (λ x. String.◌++◌ a' (String.◌++◌ x b')) e ∙ simp (append_assoc),
  IsNoise-append a' a na' na,
  IsNoise-append b b' nb nb',
)

starts-IsAround : (a u s : String) → s ≡ String.◌++◌ a u → IsNoise a → IsAround u s
starts-IsAround a u s e n = (a, "", e ∙ ap (String.◌++◌ a) (sym (append-nil u)), n, tt)

ends-IsAround : (u b s : String) → s ≡ String.◌++◌ u b → IsNoise b → IsAround u s
ends-IsAround u b s e n = ("", b, e ∙ sym (nil-append _), tt, n)

or_true_left : (a b : Bool) → a ≡ true → (a || b) ≡ true
or_true_left a b e = rw e refl

or_true_right : (a b : Bool) → b ≡ true → (a || b) ≡ true
or_true_right true b e = refl
or_true_right false b e = e

IsNoise-mark : (c : Char) → is_mark c ≡ true → is_noise c ≡ true
IsNoise-mark c e = or_true_right (Text.is_whitespace c) _ (or_true_left (is_mark c) _ e)

IsNoise-blank : (c : Char) → Text.is_whitespace c ≡ true → is_noise c ≡ true
IsNoise-blank c e = or_true_left (Text.is_whitespace c) _ e

trim_start-splits :
    (s : String) → (a : String) × (s ≡ String.◌++◌ a (Text.trim_start s)) × IsNoise a
unfolding Text.trim_start
trim_start-splits String.[] = ("", sym (nil-append ""), tt)
trim_start-splits (String.◌∷◌ c s) = elim (Bool-cases (Text.is_whitespace c)) [
  | inl blank ↦
      let (a, e, n) = trim_start-splits s in
      rw blank (String.◌∷◌ c a, ap (String.◌∷◌ c) e ∙ sym (cons-append c a _), (rw blank refl, n))
  | inr other ↦ rw other ("", sym (nil-append _), tt)
]

trim_start_marks-splits :
    (s : String) → (a : String) × (s ≡ String.◌++◌ a (trim_start_marks s)) × IsNoise a
unfolding trim_start_marks
trim_start_marks-splits String.[] = ("", sym (nil-append ""), tt)
trim_start_marks-splits (String.◌∷◌ c s) = elim (Bool-cases (is_mark c)) [
  | inl mark ↦
      let (a, e, n) = trim_start_marks-splits s in
      rw mark
        (String.◌∷◌ c a, ap (String.◌∷◌ c) e ∙ sym (cons-append c a _), (IsNoise-mark c mark, n))
  | inr other ↦ rw other ("", sym (nil-append _), tt)
]

empty-eq : (s : String) → Text.is_empty s ≡ true → s ≡ ""
empty-eq String.[] e = refl
empty-eq (String.◌∷◌ c s) e = cc

-- One character more, at the start of a text whose end is taken off.
end_step :
    (c : Char) (s rest b : String) (dropped : Bool)
    → s ≡ String.◌++◌ rest b
    → IsNoise b
    → (dropped ≡ true → is_noise c ≡ true)
    → (b' : String) × (String.◌∷◌ c s
        ≡ String.◌++◌ (if Text.is_empty rest && dropped then String.[] else String.◌∷◌ c rest) b')
      × IsNoise b'
end_step c s rest b dropped e n noisy = elim (Bool-cases (Text.is_empty rest)) [
  | inr more ↦ rw more (b, ap (String.◌∷◌ c) e ∙ sym (cons-append c rest b), n)
  | inl none_left ↦ elim (Bool-cases dropped) [
    | inr kept ↦ rw (none_left, kept) (b, ap (String.◌∷◌ c) e ∙ sym (cons-append c rest b), n)
    | inl gone ↦
        let all : s ≡ b = e ∙ ap (λ r. String.◌++◌ r b) (empty-eq rest none_left) ∙ nil-append b in
        rw (none_left, gone)
          (String.◌∷◌ c b, ap (String.◌∷◌ c) all ∙ sym (nil-append _), (noisy gone, n))
  ]
]

trim_end-splits : (s : String) → (b : String) × (s ≡ String.◌++◌ (Text.trim_end s) b) × IsNoise b
unfolding Text.trim_end
trim_end-splits String.[] = ("", sym (nil-append ""), tt)
trim_end-splits (String.◌∷◌ c s) =
    let (b, e, n) = trim_end-splits s in
    end_step c s (Text.trim_end s) b (Text.is_whitespace c) e n (IsNoise-blank c)

trim_end_marks-splits :
    (s : String) → (b : String) × (s ≡ String.◌++◌ (trim_end_marks s) b) × IsNoise b
unfolding trim_end_marks
trim_end_marks-splits String.[] = ("", sym (nil-append ""), tt)
trim_end_marks-splits (String.◌∷◌ c s) =
    let (b, e, n) = trim_end_marks-splits s in
    end_step c s (trim_end_marks s) b (is_mark c) e n (IsNoise-mark c)

pub trim-IsAround : (s : String) → IsAround (Text.trim s) s
unfolding Text.trim
trim-IsAround s =
    let (a, e, n) = trim_start-splits s in
    let (b, e', n') = trim_end-splits (Text.trim_start s) in
    IsAround-trans (Text.trim_end (Text.trim_start s)) (Text.trim_start s) s
      (ends-IsAround _ b _ e' n') (starts-IsAround a _ s e n)

pub trim_start_marks-IsAround : (s : String) → IsAround (trim_start_marks s) s
trim_start_marks-IsAround s = let (a, e, n) = trim_start_marks-splits s in starts-IsAround a _ s e n

pub trim_end_marks-IsAround : (s : String) → IsAround (trim_end_marks s) s
trim_end_marks-IsAround s = let (b, e, n) = trim_end_marks-splits s in ends-IsAround _ b s e n

some_injective : {a b : String} → some a ≡ some b → a ≡ b
some_injective e = cc

pub strip_prefix-eq-some :
    (s p : String) {rest : String} → Text.strip_prefix s p ≡ some rest → s ≡ String.◌++◌ p rest
unfolding Text.strip_prefix
strip_prefix-eq-some s String.[] e = (let same : s ≡ _ = cc in same ∙ sym (nil-append _))
strip_prefix-eq-some String.[] (String.◌∷◌ p ps) e = cc
strip_prefix-eq-some (String.◌∷◌ c s) (String.◌∷◌ p ps) {rest} e =
    elim (Bool-cases (nat_eq (code c) (code p))) [
      | inr differ ↦ absurd (let e' = rw differ at e in cc)
      | inl same ↦
          let first : c ≡ p = Char-path c p (ground arith) in
          let tail = strip_prefix-eq-some s ps (rw same at e) in
          ap (String.◌∷◌ c) tail
          ∙ ap (λ d. String.◌∷◌ d (String.◌++◌ ps rest)) first
          ∙ sym (cons-append p ps rest)
    ]

pub strip_suffix-eq-some :
    (s p : String) {rest : String} → Text.strip_suffix s p ≡ some rest → s ≡ String.◌++◌ rest p
unfolding Text.strip_suffix
strip_suffix-eq-some String.[] p {rest} e = elim (Bool-cases ("" == p)) [
  | inr differ ↦ absurd (let e' = rw differ at e in cc)
  | inl same ↦
      let none_left : "" ≡ rest = some_injective (rw same at e) in
      (eq_iff "" p).0 same ∙ sym (nil-append p) ∙ ap (λ r. String.◌++◌ r p) none_left
]
strip_suffix-eq-some (String.◌∷◌ c s) p {rest} e = elim (Bool-cases (String.◌∷◌ c s == p)) [
  | inl same ↦
      let none_left : "" ≡ rest = some_injective (rw same at e) in
      (eq_iff (String.◌∷◌ c s) p).0 same ∙ sym (nil-append p) ∙ ap (λ r. String.◌++◌ r p) none_left
  | inr longer ↦ elim (Option-cases (Text.strip_suffix s p)) [
    | inl missing ↦ absurd (let e' = rw (longer, missing) at e in cc)
    | inr (t, found) ↦
        let longer_rest : String.◌∷◌ c t ≡ rest = some_injective (rw (longer, found) at e) in
        ap (String.◌∷◌ c) (strip_suffix-eq-some s p found)
        ∙ sym (cons-append c t p)
        ∙ ap (λ r. String.◌++◌ r p) longer_rest
  ]
]
