-- ===== src/Queue/Context.antt =====
-- crates/queue/src/lib.rs: the sessions that remember where the last message came from.
use clawpod.Base.{String, Bool, [], ◌∷◌, ◌==◌, format, if◌then◌else◌, Result, ok, err, panic}
use clawpod.Domain.Core.{InboundEvent}
use clawpod.Queue.{is_internal_channel, chat_type_to_str}
use clawpod.Store.State.{StateStore}
use clawpod.Store.Sessions.{Context, touch_session, touch_session_with_context}

unfoldable pub context_of : InboundEvent → Context
unfolding chat_type_to_str
context_of event = record {
  channel = event.channel;
  peer_id = event.peer_id;
  account_id = event.account_id;
  chat_type = chat_type_to_str event.chat_type;
  sender_id = event.sender_id;
  message_id = event.message_id;
}

-- The `?` after the first call.
abbrev then_touch :
    Result (Unit {0}) × StateStore
    → (StateStore → Result (Unit {0}) × StateStore)
    → Result (Unit {0}) × StateStore
then_touch (ok u, st) k = k st
then_touch (err e, st) k = (err e, st)
then_touch (panic e, st) k = (panic e, st)

-- `record_session_context`; every write to the file succeeds or fails alike.
unfoldable pub record_session_context :
    String
    → InboundEvent
    → String
    → String
    → String
    → Bool
    → StateStore
    → Result (Unit {0}) × StateStore
unfolding is_internal_channel touch_session touch_session_with_context context_of
record_session_context agent_id event session_key main_key now writes st =
    let main_session_key = format ("agent:" ∷ agent_id ∷ ":" ∷ main_key ∷ []) in
    if is_internal_channel event.channel
    then touch_session session_key agent_id now writes st
    else then_touch
        (touch_session_with_context session_key agent_id (context_of event) now writes st)
        (λ st'.
          if main_session_key == session_key
          then (ok tt, st')
          else touch_session_with_context main_session_key agent_id (context_of event) now writes
              st')
