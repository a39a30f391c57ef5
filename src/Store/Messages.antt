-- ===== src/Store/Messages.antt =====
-- crates/store/src/lib.rs: the numbered logs (events, chatroom messages, heartbeat runs) and the
-- steps of team chains.
use clawpod.Base.{String, Bool, [], ◌∷◌, ◌++◌, Result}
use clawpod.Base.Signed.{add_one}
use clawpod.Domain.Core.{ChatroomMessageView}
use clawpod.Store.Records.{
  ChainStepRecord, ChatroomMessageRecord, HeartbeatRunRecord, StoreSnapshot,
}
use clawpod.Store.State.{StateStore, updating}

-- `record_chain_step`.
unfoldable pub record_chain_step :
    ChainStepRecord → Bool → StateStore → Result (Unit {0}) × StateStore
unfolding updating
record_chain_step step = updating (λ s. (tt, record s { chain_steps = s.chain_steps ++ step ∷ [] }))

-- `record_event`, the snapshot it makes.
unfoldable pub with_event : String → String → String → StoreSnapshot → StoreSnapshot
with_event event_type payload now s = record s {
  next_event_id = add_one s.next_event_id;
  events =
      s.events
      ++ record {
        id = add_one s.next_event_id;
        event_type = event_type;
        payload = payload;
        created_at = now;
      }
        ∷ [];
}

unfoldable pub record_event :
    String → String → String → Bool → StateStore → Result (Unit {0}) × StateStore
unfolding updating with_event
record_event event_type payload now = updating (λ s. (tt, with_event event_type payload now s))

-- `record_chatroom_message`.
unfoldable pub next_chatroom_record :
    String → String → String → String → StoreSnapshot → ChatroomMessageRecord
next_chatroom_record team_id from_agent message now s = record {
  id = add_one s.next_chatroom_message_id;
  team_id = team_id;
  from_agent = from_agent;
  message = message;
  created_at = now;
}

unfoldable pub chatroom_view : ChatroomMessageRecord → ChatroomMessageView
chatroom_view r = record {
  id = r.id;
  team_id = r.team_id;
  from_agent = r.from_agent;
  message = r.message;
  created_at = r.created_at;
}

unfoldable pub with_message :
    String → String → String → String → StoreSnapshot → ChatroomMessageView × StoreSnapshot
unfolding next_chatroom_record chatroom_view
with_message team_id from_agent message now s =
    let r = next_chatroom_record team_id from_agent message now s in
    (
      chatroom_view r,
      record s {
        next_chatroom_message_id = add_one s.next_chatroom_message_id;
        chatroom_messages = s.chatroom_messages ++ r ∷ [];
      },
    )

unfoldable pub record_chatroom_message :
    String → String → String → String → Bool → StateStore → Result ChatroomMessageView × StateStore
unfolding updating with_message
record_chatroom_message team_id from_agent message now =
    updating (with_message team_id from_agent message now)

-- `record_heartbeat_run`, from a record without its identifier; the view has the same fields.
unfoldable pub record_heartbeat_run :
    HeartbeatRunRecord → Bool → StateStore → Result HeartbeatRunRecord × StateStore
unfolding updating
record_heartbeat_run run = updating (λ s.
    let r = record run { id = add_one s.next_heartbeat_run_id } in
    (
      r,
      record s {
        next_heartbeat_run_id = add_one s.next_heartbeat_run_id;
        heartbeat_runs = s.heartbeat_runs ++ r ∷ [];
      },
    ))
