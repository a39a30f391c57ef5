-- ===== src/Session/Keys.antt =====
-- crates/session/src/lib.rs: which messages share a session.
use text.Mathlib.TextLemmas.{append_cancel_left, append_cancel_right}
use clawpod.Base.{String, List, [], ◌∷◌, ◌++◌, format, unwrap_or, ◌≡◌, refl, ap, ◌↔◌, ◌≢◌, ◌∙◌, sym}
use clawpod.Domain.Core.{ChatType, direct, group, thread, DmScope, InboundEvent}
use clawpod.Session.{build_session_key, session_key_of, build_direct_session_key}

format_injective :
    (pieces : List String) (x y : String)
    → format (pieces ++ x ∷ []) ≡ format (pieces ++ y ∷ [])
    → x ≡ y
format_injective [] x y e = append_cancel_right x y "" e
format_injective (piece ∷ pieces) x y e =
    format_injective pieces x y
      (append_cancel_left piece (format (pieces ++ x ∷ [])) (format (pieces ++ y ∷ [])) e)

format-eq_iff :
    (ps qs : List String) (x y : String)
    → ps ≡ qs
    → (format (ps ++ x ∷ []) ≡ format (qs ++ y ∷ [])) ↔ (x ≡ y)
format-eq_iff ps qs x y same = (
  λ e. format_injective ps x y (e ∙ ap (λ l. format (l ++ y ∷ [])) (sym same)),
  λ e. ap (λ l. format (l ++ x ∷ [])) same ∙ ap (λ z. format (qs ++ z ∷ [])) e,
)

-- Whom a conversation is with: the sender of a direct message, the group or the thread.
unfoldable pub participant : ChatType → InboundEvent → String
participant direct event = event.sender_id
participant group event = event.peer_id
participant thread event = event.peer_id

module _ (agent_id main_key : String) (e f : InboundEvent) (same_channel : e.channel ≡ f.channel)
    (same_account : e.account_id ≡ f.account_id) where
  session_key_of_iff :
      (chat : ChatType) (scope : DmScope)
      → scope ≢ DmScope.main
      → (session_key_of chat agent_id e scope main_key
          ≡ session_key_of chat agent_id f scope main_key)
        ↔ (participant chat e ≡ participant chat f)
  unfolding session_key_of build_direct_session_key participant
  session_key_of_iff direct DmScope.main apart = absurd (apart refl)
  session_key_of_iff direct DmScope.per_peer apart =
      format-eq_iff ("agent:" ∷ agent_id ∷ ":direct:" ∷ []) _ e.sender_id f.sender_id refl
  session_key_of_iff direct DmScope.per_channel_peer apart =
      format-eq_iff ("agent:" ∷ agent_id ∷ ":" ∷ e.channel ∷ ":direct:" ∷ [])
        ("agent:" ∷ agent_id ∷ ":" ∷ f.channel ∷ ":direct:" ∷ []) e.sender_id f.sender_id
        (ap (λ c. "agent:" ∷ agent_id ∷ ":" ∷ c ∷ ":direct:" ∷ []) same_channel)
  session_key_of_iff direct DmScope.per_account_channel_peer apart =
      format-eq_iff
        ("agent:"
          ∷ agent_id
          ∷ ":"
          ∷ e.channel
          ∷ ":"
          ∷ unwrap_or e.account_id "default"
          ∷ ":direct:"
          ∷ [])
        ("agent:"
          ∷ agent_id
          ∷ ":"
          ∷ f.channel
          ∷ ":"
          ∷ unwrap_or f.account_id "default"
          ∷ ":direct:"
          ∷ [])
        e.sender_id f.sender_id
        (ap
            (λ c.
              "agent:"
              ∷ agent_id
              ∷ ":"
              ∷ c
              ∷ ":"
              ∷ unwrap_or e.account_id "default"
              ∷ ":direct:"
              ∷ [])
            same_channel
          ∙ ap
              (λ a.
                "agent:"
                ∷ agent_id
                ∷ ":"
                ∷ f.channel
                ∷ ":"
                ∷ unwrap_or a "default"
                ∷ ":direct:"
                ∷ [])
              same_account)
  session_key_of_iff group scope apart =
      format-eq_iff ("agent:" ∷ agent_id ∷ ":" ∷ e.channel ∷ ":group:" ∷ [])
        ("agent:" ∷ agent_id ∷ ":" ∷ f.channel ∷ ":group:" ∷ []) e.peer_id f.peer_id
        (ap (λ c. "agent:" ∷ agent_id ∷ ":" ∷ c ∷ ":group:" ∷ []) same_channel)
  session_key_of_iff thread scope apart =
      format-eq_iff ("agent:" ∷ agent_id ∷ ":" ∷ e.channel ∷ ":thread:" ∷ [])
        ("agent:" ∷ agent_id ∷ ":" ∷ f.channel ∷ ":thread:" ∷ []) e.peer_id f.peer_id
        (ap (λ c. "agent:" ∷ agent_id ∷ ":" ∷ c ∷ ":thread:" ∷ []) same_channel)

  -- Two messages to one agent, of one kind, on one channel and account, share a session exactly when
  -- they are of the same conversation, unless all direct messages go to the main session.
  pub build_session_key_iff :
      (scope : DmScope)
      → scope ≢ DmScope.main
      → e.chat_type ≡ f.chat_type
      → (build_session_key agent_id e scope main_key ≡ build_session_key agent_id f scope main_key)
        ↔ (participant e.chat_type e ≡ participant e.chat_type f)
  unfolding build_session_key
  build_session_key_iff scope apart kind =
      let same = ap (λ c. session_key_of c agent_id f scope main_key) kind in
      let iff = session_key_of_iff e.chat_type scope apart in
      (λ h. iff.0 (h ∙ sym same), λ h. iff.1 h ∙ same)
