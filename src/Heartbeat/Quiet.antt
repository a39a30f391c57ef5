-- ===== src/Heartbeat/Quiet.antt =====
-- crates/heartbeat/src/normalize.rs: what may be cut off an answer.
use Prim.Native.Char.{Char}
use Prim.Native.String
use mathlib.Core.Path.{subst}
use text.Mathlib.TextLemmas.{append_assoc, append-nil, nil-append, cons-append, length-append}
use clawpod.Base.{
  String, Bool, true, false, List, [], ◌∷◌, and_then, unwrap_or, if◌then◌else◌, Option-cases, inl,
  inr, ◌≡◌, refl, sym, ap, ◌∙◌, ◌≤◌, arith,
}
use clawpod.Base.Text
use clawpod.Heartbeat.Normalize.{
  token, unwrap_once, unwrap_all, strip_markdown_wrappers, strip_token_start, strip_token_end,
  trim_start_marks, trim_end_marks,
}
use clawpod.Heartbeat.Stripped.{
  is_noise, IsNoise, IsAround, IsAround-refl, IsAround-trans, trim-IsAround,
  trim_start_marks-IsAround, trim_end_marks-IsAround, strip_prefix-eq-some, strip_suffix-eq-some,
}

-- A text that says nothing but HEARTBEAT_OK: the token any number of times, whitespace, the marks
-- that are trimmed and the signs of the markdown wrappers.
pub data IsQuiet : String → Type 0 where
  done : IsQuiet ""
  noise : (c : Char) (s : String) → is_noise c ≡ true → IsQuiet s → IsQuiet (String.◌∷◌ c s)
  said : (s : String) → IsQuiet s → IsQuiet (String.◌++◌ token s)

IsQuiet-append : (a b : String) → IsQuiet a → IsQuiet b → IsQuiet (String.◌++◌ a b)
IsQuiet-append _ b done q = subst IsQuiet (sym (nil-append b)) q
IsQuiet-append _ b (noise c s n p) q =
    subst IsQuiet (sym (cons-append c s b)) (noise c (String.◌++◌ s b) n (IsQuiet-append s b p q))
IsQuiet-append _ b (said s p) q =
    subst IsQuiet (sym (append_assoc token s b)) (said (String.◌++◌ s b) (IsQuiet-append s b p q))

IsQuiet-noise : (s : String) → IsNoise s → IsQuiet s
IsQuiet-noise String.[] n = done
IsQuiet-noise (String.◌∷◌ c s) n = noise c s n.0 (IsQuiet-noise s n.1)

pub IsQuiet-token : IsQuiet token
IsQuiet-token = subst IsQuiet (append-nil token) (said "" done)

-- The first text is the second one with quiet texts around it cut off.
abbrev pub IsCut : String → String → Type 0
IsCut u s =
    (a : String) × (b : String) × (s ≡ String.◌++◌ a (String.◌++◌ u b)) × IsQuiet a × IsQuiet b

pub IsCut-trans : (u t s : String) → IsCut u t → IsCut t s → IsCut u s
IsCut-trans u t s (a, b, e, qa, qb) (a', b', e', qa', qb') = (
  String.◌++◌ a' a,
  String.◌++◌ b b',
  e' ∙ ap (λ x. String.◌++◌ a' (String.◌++◌ x b')) e ∙ simp (append_assoc),
  IsQuiet-append a' a qa' qa,
  IsQuiet-append b b' qb qb',
)

pub IsAround-IsCut : (u s : String) → IsAround u s → IsCut u s
IsAround-IsCut u s (a, b, e, na, nb) = (a, b, e, IsQuiet-noise a na, IsQuiet-noise b nb)

pub IsQuiet-IsCut : (u s : String) → IsCut u s → IsQuiet u → IsQuiet s
IsQuiet-IsCut u s (a, b, e, qa, qb) q =
    subst IsQuiet (sym e) (IsQuiet-append a (String.◌++◌ u b) qa (IsQuiet-append u b q qb))

if-IsAround :
    (b : Bool) (u v s : String) → IsAround u s → IsAround v s → IsAround (if b then u else v) s
if-IsAround true u v s h k = h
if-IsAround false u v s h k = k

inside-IsAround :
    (s w : String)
    → IsNoise w
    → IsAround (unwrap_or (and_then (Text.strip_prefix s w) (λ rest. Text.strip_suffix rest w)) s) s
inside-IsAround s w n = elim (Option-cases (Text.strip_prefix s w)) [
  | inl missing ↦ rw missing (IsAround-refl s)
  | inr (rest, found) ↦ elim (Option-cases (Text.strip_suffix rest w)) [
    | inl missing ↦ rw (found, missing) (IsAround-refl s)
    | inr (inner, ends) ↦
        let e : s ≡ String.◌++◌ w (String.◌++◌ inner w) =
          strip_prefix-eq-some s w found ∙ ap (String.◌++◌ w) (strip_suffix-eq-some rest w ends) in
        rw (found, ends) (w, w, e, n, n)
  ]
]

unwrap_once-IsAround : (s w : String) → IsNoise w → IsAround (unwrap_once s w) s
unfolding unwrap_once
unwrap_once-IsAround s w n =
    let inner = unwrap_or (and_then (Text.strip_prefix s w) (λ rest. Text.strip_suffix rest w)) s in
    if-IsAround _ (Text.trim inner) s s
      (IsAround-trans (Text.trim inner) inner s (trim-IsAround inner) (inside-IsAround s w n))
      (IsAround-refl s)

abbrev AreNoise : List String → Type 0
AreNoise [] = Unit
AreNoise (w ∷ ws) = IsNoise w × AreNoise ws

unwrap_all-IsAround : (s : String) (ws : List String) → AreNoise ws → IsAround (unwrap_all s ws) s
unfolding unwrap_all
unwrap_all-IsAround s [] n = IsAround-refl s
unwrap_all-IsAround s (w ∷ ws) n =
    IsAround-trans (unwrap_all (unwrap_once s w) ws) (unwrap_once s w) s
      (unwrap_all-IsAround (unwrap_once s w) ws n.1) (unwrap_once-IsAround s w n.0)

pub strip_markdown_wrappers-IsAround : (s : String) → IsAround (strip_markdown_wrappers s) s
unfolding strip_markdown_wrappers Text.is_whitespace
strip_markdown_wrappers-IsAround s =
    let wrappers = "```" ∷ "**" ∷ "__" ∷ "~~" ∷ "`" ∷ "*" ∷ "_" ∷ [] in
    let all : AreNoise wrappers = (
      (refl, (refl, (refl, tt))),
      (
        (refl, (refl, tt)),
        ((refl, (refl, tt)), ((refl, (refl, tt)), ((refl, tt), ((refl, tt), ((refl, tt), tt))))),
      ),
    ) in
    IsAround-trans (unwrap_all (Text.trim s) wrappers) (Text.trim s) s
      (unwrap_all-IsAround (Text.trim s) wrappers all) (trim-IsAround s)

-- What is left after the token at the start, and before the one at the end.
pub start_rest-IsCut : (rest : String) → IsCut (Text.trim (trim_start_marks rest)) rest
start_rest-IsCut rest = IsAround-IsCut _ rest (
    IsAround-trans _ (trim_start_marks rest) rest (trim-IsAround (trim_start_marks rest))
      (trim_start_marks-IsAround rest))

pub end_rest-IsCut : (rest : String) → IsCut (Text.trim (trim_end_marks rest)) rest
end_rest-IsCut rest = IsAround-IsCut _ rest (
    IsAround-trans _ (trim_end_marks rest) rest (trim-IsAround (trim_end_marks rest))
      (trim_end_marks-IsAround rest))

pub strip_token_start-IsCut : (s : String) → IsCut (strip_token_start s) s
unfolding strip_token_start
strip_token_start-IsCut s = elim (Option-cases (Text.strip_prefix s token)) [
  | inl missing ↦ rw (strip_token_start, missing) (IsAround-IsCut s s (IsAround-refl s))
  | inr (rest, found) ↦
      let tail : IsCut rest s = (
        token,
        "",
        strip_prefix-eq-some s token found ∙ ap (String.◌++◌ token) (sym (append-nil rest)),
        IsQuiet-token,
        done,
      ) in
      rw (strip_token_start, found)
        (IsCut-trans (Text.trim (trim_start_marks rest)) rest s (start_rest-IsCut rest) tail)
]

pub strip_token_end-IsCut : (s : String) → IsCut (strip_token_end s) s
unfolding strip_token_end
strip_token_end-IsCut s = elim (Option-cases (Text.strip_suffix s token)) [
  | inl missing ↦ rw (strip_token_end, missing) (IsAround-IsCut s s (IsAround-refl s))
  | inr (rest, found) ↦
      let head : IsCut rest s =
        ("", token, strip_suffix-eq-some s token found ∙ sym (nil-append _), done, IsQuiet-token) in
      rw (strip_token_end, found)
        (IsCut-trans (Text.trim (trim_end_marks rest)) rest s (end_rest-IsCut rest) head)
]

pub count-IsCut : (u s : String) → IsCut u s → String.count u ≤ String.count s
count-IsCut u s (a, b, e, qa, qb) =
    omega (arith, ap String.count e, length-append a (String.◌++◌ u b), length-append u b)
