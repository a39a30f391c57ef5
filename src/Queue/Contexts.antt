-- ===== src/Queue/Contexts.antt =====
-- crates/queue/src/lib.rs: what `record_session_context` makes the main session remember.
use clawpod.Base.{
  String, true, false, some, [], ◌∷◌, ◌==◌, format, option_map, ok, ◌≡◌, refl, ◌∙◌, ap, Bool-cases,
  inl, inr, eq_iff, eq_refl,
}
use clawpod.Base.Maps
use clawpod.Domain.Core.{InboundEvent}
use clawpod.Queue.{is_internal_channel, chat_type_to_str}
use clawpod.Queue.Context.{record_session_context, context_of}
use clawpod.Store.Records.{StoreSnapshot, SessionRecord, SessionSummary, session_to_summary}
use clawpod.Store.State.{StateStore, StateFile, refresh_locked, normalize_ids}
use clawpod.Store.Sessions.{
  Context, touched, in_context, touch_session, touch_session_with_context, get_session,
}
use clawpod.Store.Steps.{updating-saves, reading-ok, refresh_locked-holds}

abbrev with_session : StoreSnapshot → String → SessionRecord → StoreSnapshot
with_session s key session = record s { sessions = Maps.insert s.sessions key session }

abbrev after_touch : String → String → String → StoreSnapshot → StoreSnapshot
after_touch key agent_id now s =
    with_session s key (touched (Maps.get s.sessions key) key agent_id now)

abbrev after_context : String → String → Context → String → StoreSnapshot → StoreSnapshot
after_context key agent_id c now s =
    with_session s key (in_context c (touched (Maps.get s.sessions key) key agent_id now))

abbrev written : StoreSnapshot → StateStore
written s = record { file = StateFile.holds s; snapshot = s }

touch_session_with_context-saves :
    (key agent_id : String) (c : Context) (now : String) (st : StateStore) (s : StoreSnapshot)
    → refresh_locked st ≡ ok s
    → touch_session_with_context key agent_id c now true st
      ≡ (ok tt, written (after_context key agent_id c now s))
unfolding touch_session_with_context
touch_session_with_context-saves key agent_id c now st s read =
    updating-saves st s read (λ t. (tt, after_context key agent_id c now t))

touch_session-saves :
    (key agent_id now : String) (st : StateStore) (s : StoreSnapshot)
    → refresh_locked st ≡ ok s
    → touch_session key agent_id now true st ≡ (ok tt, written (after_touch key agent_id now s))
unfolding touch_session
touch_session-saves key agent_id now st s read =
    updating-saves st s read (λ t. (tt, after_touch key agent_id now t))

get_session-holds :
    (key : String) (other : StateStore) (s : StoreSnapshot)
    → other.file ≡ StateFile.holds s
    → (get_session key other).0 ≡ ok (option_map session_to_summary (Maps.get s.sessions key))
unfolding get_session normalize_ids
get_session-holds key other s file =
    reading-ok other (normalize_ids s) (refresh_locked-holds other s file)
      (λ t. option_map session_to_summary (Maps.get t.sessions key))

-- What a session remembers of where its last message came from.
pub record Remembers (event : InboundEvent) (summary : SessionSummary) : Type 0 where
  channel : summary.last_channel ≡ some event.channel
  peer : summary.last_peer_id ≡ some event.peer_id
  account : summary.last_account_id ≡ event.account_id
  chat_type : summary.last_chat_type ≡ some (chat_type_to_str event.chat_type)
  sender : summary.last_sender_id ≡ some event.sender_id

in_context-Remembers :
    (event : InboundEvent) (session : SessionRecord)
    → Remembers event (session_to_summary (in_context (context_of event) session))
unfolding in_context context_of session_to_summary
in_context-Remembers event session = record {
  channel = refl;
  peer = refl;
  account = refl;
  chat_type = refl;
  sender = refl;
}

module _ (agent_id : String) (event : InboundEvent) (session_key main_key now : String)
    (st other : StateStore) (s : StoreSnapshot) (read : refresh_locked st ≡ ok s) where
  abbrev main : String
  main = format ("agent:" ∷ agent_id ∷ ":" ∷ main_key ∷ [])

  -- The snapshot in the file after a message from an external channel.
  external_file :
      is_internal_channel event.channel ≡ false
      → (after : StoreSnapshot) × (session : SessionRecord) × ((record_session_context agent_id
            event session_key main_key now true st).1.file
          ≡ StateFile.holds after)
        × (Maps.get after.sessions main ≡ some (in_context (context_of event) session))
  unfolding record_session_context normalize_ids
  external_file outside =
      let first =
        touch_session_with_context-saves session_key agent_id (context_of event) now st s read in
      let once = after_context session_key agent_id (context_of event) now s in
      elim (Bool-cases (main == session_key)) [
        | inl same ↦ (
          once,
          touched (Maps.get s.sessions session_key) session_key agent_id now,
          rw (outside, first, same) refl,
          rw
              (
                (eq_iff main session_key).0 same,
                Maps.get-insert s.sessions session_key
                    (in_context (context_of event)
                      (touched (Maps.get s.sessions session_key) session_key agent_id now))
                    session_key,
                eq_refl session_key,
              )
              refl,
        )
        | inr differ ↦
            let second =
              touch_session_with_context-saves main agent_id (context_of event) now (written once)
                (normalize_ids once) (refresh_locked-holds (written once) once refl) in
            (
              after_context main agent_id (context_of event) now (normalize_ids once),
              touched (Maps.get once.sessions main) main agent_id now,
              rw (outside, first, differ) (ap (λ r. r.1.file) second),
              rw
                  (
                    Maps.get-insert once.sessions main
                        (in_context (context_of event)
                          (touched (Maps.get once.sessions main) main agent_id now))
                        main,
                    eq_refl main,
                  )
                  refl,
            )
      ]

  -- After a message from an external channel the agent's main session, as every process reads it
  -- from the file, remembers where the message came from, whichever session the message belongs to.
  pub record_session_context-Remembers :
      is_internal_channel event.channel ≡ false
      → other.file ≡ (record_session_context agent_id event session_key main_key now true st).1.file
      → (summary : SessionSummary) × ((get_session
            (format ("agent:" ∷ agent_id ∷ ":" ∷ main_key ∷ []))
            other).0
          ≡ ok (some summary))
        × Remembers event summary
  record_session_context-Remembers outside shared =
      let (after, session, file, found) = external_file outside in
      (
        session_to_summary (in_context (context_of event) session),
        get_session-holds main other after (shared ∙ file)
            ∙ ap (λ o. ok (option_map session_to_summary o)) found,
        in_context-Remembers event session,
      )
