-- ===== src/Heartbeat/Classified.antt =====
-- crates/heartbeat/src/normalize.rs: what is suppressed of an answer, and what becomes an alert.
use Prim.Native.String
use mathlib.Core.Path.{subst}
use text.Mathlib.TextLemmas.{length-append}
use clawpod.Base.{
  ℕ, String, true, false, none, ◌==◌, eq_iff, leb, Bool-cases, Option-cases, inl, inr, ◌≡◌, ◌≢◌,
  refl, sym, ap, ◌∙◌, ◌⊎◌, ◌≤◌, ◌<◌, arith,
}
use clawpod.Base.Text
use clawpod.Heartbeat.Normalize.{
  NormalizeResult, ack_only, ok_with_text, alert, token, strip_markdown_wrappers, strip_token_start,
  strip_token_end, trim_start_marks, trim_end_marks, classify, normalize_heartbeat_output,
}
use clawpod.Heartbeat.Stripped.{
  IsAround-trans, trim-IsAround, strip_prefix-eq-some, strip_suffix-eq-some,
}
use clawpod.Heartbeat.Quiet.{
  IsQuiet, done, IsQuiet-token, IsCut, IsCut-trans, IsAround-IsCut, IsQuiet-IsCut,
  strip_markdown_wrappers-IsAround, start_rest-IsCut, end_rest-IsCut, strip_token_start-IsCut,
  strip_token_end-IsCut, count-IsCut,
}

-- No token stands at the start or at the end.
abbrev pub LacksToken : String → Type 0
LacksToken u = (Text.strip_prefix u token ≡ none) × (Text.strip_suffix u token ≡ none)

-- A text from which nothing is stripped has no token at its start or end.
same-LacksToken : (u : String) → strip_token_end (strip_token_start u) ≡ u → LacksToken u
unfolding strip_token_start strip_token_end
same-LacksToken u same = elim (Option-cases (Text.strip_prefix u token)) [
  | inr (rest, found) ↦
      let start : strip_token_start u ≡ Text.trim (trim_start_marks rest) =
        rw (strip_token_start, found) refl in
      let le = count-IsCut _ rest (start_rest-IsCut rest) in
      let le' = count-IsCut _ _ (strip_token_end-IsCut (strip_token_start u)) in
      absurd (
        omega (
          arith,
          le,
          le',
          ap String.count start,
          ap String.count same,
          ap String.count (strip_prefix-eq-some u token found),
          length-append token rest,
          token_count,
        ))
  | inl missing ↦ elim (Option-cases (Text.strip_suffix u token)) [
    | inl missing' ↦ (missing, missing')
    | inr (rest, found) ↦
        let start : strip_token_start u ≡ u = rw (strip_token_start, missing) refl in
        let end : strip_token_end u ≡ Text.trim (trim_end_marks rest) =
          rw (strip_token_end, found) refl in
        let le = count-IsCut _ rest (end_rest-IsCut rest) in
        absurd (
          omega (
            arith,
            le,
            ap String.count (sym end ∙ ap strip_token_end (sym start) ∙ same),
            ap String.count (strip_suffix-eq-some u token found),
            length-append rest token,
            token_count,
          ))
  ]
]
  where
    token_count : String.count token ≡ 12
    token_count = refl

-- What a result says of the answer and the threshold, which counts bytes. An answer of which nothing
-- is sent on says nothing but HEARTBEAT_OK; a text that is suppressed is what is left of the answer
-- when quiet texts around it are cut off, it is not blank and not longer than the threshold; and an
-- alert is the whole answer, trimmed, where no token stands at the start or the end of it without its
-- markdown wrappers, or what is left of it, where that is longer than the threshold.
pub IsClassified : String → ℕ → NormalizeResult → Type 0
IsClassified output ack_max_chars ack_only = IsQuiet output
IsClassified output ack_max_chars (ok_with_text t) =
    (Text.len t ≤ ack_max_chars) × (Text.is_empty t ≡ false) × IsCut t output
IsClassified output ack_max_chars (alert t) =
    (((t ≡ Text.trim output) × LacksToken (strip_markdown_wrappers (Text.trim output)))
      ⊎ ((ack_max_chars < Text.len t) × IsCut t output))
    × (Text.is_empty (Text.trim output) ≡ false)

blank-eq : (s : String) → Text.is_empty s ≡ true → s ≡ ""
blank-eq String.[] e = refl
blank-eq (String.◌∷◌ c s) e = cc

-- For every answer and threshold the result is classified: nothing but HEARTBEAT_OK with whitespace,
-- marks and markdown wrappers is dropped without a trace, a text that is suppressed is not longer than
-- the threshold in bytes, and an answer that is not blank and without the token at its start or end
-- is an alert as a whole.
pub normalize_heartbeat_output-IsClassified :
    (output : String) (ack_max_chars : ℕ)
    → IsClassified output ack_max_chars (normalize_heartbeat_output output ack_max_chars)
      × (Text.is_empty (Text.trim output) ≡ false
          → LacksToken (strip_markdown_wrappers (Text.trim output))
          → normalize_heartbeat_output output ack_max_chars ≡ alert (Text.trim output))
unfolding normalize_heartbeat_output classify IsClassified strip_token_start strip_token_end
normalize_heartbeat_output-IsClassified output ack_max_chars = (classified, whole)
  where
    trimmed : String
    trimmed = Text.trim output

    unwrapped : String
    unwrapped = strip_markdown_wrappers trimmed

    stripped : String
    stripped = strip_token_end (strip_token_start unwrapped)

    unwrapped_cut : IsCut unwrapped output
    unwrapped_cut = IsAround-IsCut unwrapped output (
        IsAround-trans unwrapped trimmed output (strip_markdown_wrappers-IsAround trimmed)
          (trim-IsAround output))

    stripped_cut : IsCut stripped output
    stripped_cut =
        IsCut-trans stripped unwrapped output
          (IsCut-trans stripped (strip_token_start unwrapped) unwrapped
            (strip_token_end-IsCut (strip_token_start unwrapped))
            (strip_token_start-IsCut unwrapped))
          unwrapped_cut

    classified :
        IsClassified output ack_max_chars (classify trimmed unwrapped stripped ack_max_chars)
    classified = elim (Bool-cases (Text.is_empty trimmed)) [
      | inl blank ↦ rw blank (
          IsQuiet-IsCut trimmed output (IsAround-IsCut trimmed output (trim-IsAround output))
            (subst IsQuiet (sym (blank-eq trimmed blank)) done))
      | inr some_text ↦ elim (Bool-cases (unwrapped == token)) [
        | inl pure ↦
            rw (some_text, pure)
              (IsQuiet-IsCut unwrapped output unwrapped_cut
                (subst IsQuiet (sym ((eq_iff unwrapped token).0 pure)) IsQuiet-token))
        | inr more ↦ elim (Bool-cases (stripped == unwrapped)) [
          | inl same ↦
              rw (some_text, more, same)
                (
                  inl (refl, same-LacksToken unwrapped ((eq_iff stripped unwrapped).0 same)),
                  some_text,
                )
          | inr cut ↦ elim (Bool-cases (Text.is_empty stripped)) [
            | inl gone ↦
                rw (some_text, more, cut, gone)
                  (IsQuiet-IsCut stripped output stripped_cut
                    (subst IsQuiet (sym (blank-eq stripped gone)) done))
            | inr rest ↦ elim (Bool-cases (leb (Text.len stripped) ack_max_chars)) [
              | inl short ↦
                  rw (some_text, more, cut, rest, short) (ground arith, rest, stripped_cut)
              | inr long ↦
                  rw (some_text, more, cut, rest, long)
                    (inr (ground arith, stripped_cut), some_text)
            ]
          ]
        ]
      ]
    ]

    whole :
        Text.is_empty trimmed ≡ false
        → LacksToken unwrapped
        → classify trimmed unwrapped stripped ack_max_chars ≡ alert trimmed
    whole some_text (no_start, no_end) =
        let start : strip_token_start unwrapped ≡ unwrapped =
          rw (strip_token_start, no_start) refl in
        let same : stripped ≡ unwrapped =
          ap strip_token_end start ∙ rw (strip_token_end, no_end) refl in
        let test : (stripped == unwrapped) ≡ true = (eq_iff stripped unwrapped).1 same in
        let more : (unwrapped == token) ≡ false = (elim (Bool-cases (unwrapped == token)) [
          | inr e ↦ e
          | inl pure ↦ absurd (
              no_token (
                subst (λ u. Text.strip_prefix u token ≡ none) ((eq_iff unwrapped token).0 pure)
                  no_start))
        ]) in
        rw (some_text, more, test) refl
      where
        no_token : Text.strip_prefix token token ≢ none
        no_token e = cc
