-- ===== src/Store/Sessions.antt =====
-- crates/store/src/lib.rs: the operations on sessions and on routing affinity. A call's `now` is
-- the text of the clock in it.
use clawpod.Base.{String, Bool, not, Option, none, some, [], ◌∷◌, ◌==◌, Result, option_map, format}
use clawpod.Base.Maps
use clawpod.Store.Records.{SessionRecord, SessionSummary, StoreSnapshot, session_to_summary}
use clawpod.Store.State.{StateStore, reading, updating}

-- `session_exists`.
unfoldable pub session_exists : String → StateStore → Result Bool × StateStore
unfolding reading
session_exists session_key = reading (λ s. Maps.contains_key s.sessions session_key)

-- `touch_session`: the entry or a new one.
unfoldable pub touched : Option SessionRecord → String → String → String → SessionRecord
touched (some session) session_key agent_id now = record session {
  agent_id = agent_id;
  updated_at = now;
}
touched none session_key agent_id now = record {
  session_key = session_key;
  agent_id = agent_id;
  created_at = now;
  updated_at = now;
  last_channel = none;
  last_peer_id = none;
  last_account_id = none;
  last_chat_type = none;
  last_sender_id = none;
  last_message_id = none;
  last_thread_id = none;
  last_heartbeat_text = none;
  last_heartbeat_sent_at = none;
}

unfoldable pub touch_session :
    String → String → String → Bool → StateStore → Result (Unit {0}) × StateStore
unfolding updating touched
touch_session session_key agent_id now = updating (λ s. (
  tt,
  record s {
    sessions =
        Maps.insert s.sessions session_key
          (touched (Maps.get s.sessions session_key) session_key agent_id now);
  },
))

-- Where a message came from, the arguments of `touch_session_with_context` after the agent.
pub record Context : Type 0 where
  pub channel : String
  pub peer_id : String
  pub account_id : Option String
  pub chat_type : String
  pub sender_id : String
  pub message_id : String

-- The fields that both branches of `touch_session_with_context` set.
unfoldable pub in_context : Context → SessionRecord → SessionRecord
in_context c session = record session {
  last_channel = some c.channel;
  last_peer_id = some c.peer_id;
  last_account_id = c.account_id;
  last_chat_type = some c.chat_type;
  last_sender_id = some c.sender_id;
  last_message_id = some c.message_id;
}

unfoldable pub touch_session_with_context :
    String → String → Context → String → Bool → StateStore → Result (Unit {0}) × StateStore
unfolding updating touched in_context
touch_session_with_context session_key agent_id c now = updating (λ s. (
  tt,
  record s {
    sessions =
        Maps.insert s.sessions session_key
          (in_context c (touched (Maps.get s.sessions session_key) session_key agent_id now));
  },
))

-- `update_session_heartbeat`.
unfoldable pub update_session_heartbeat :
    String → String → String → Bool → StateStore → Result (Unit {0}) × StateStore
unfolding updating
update_session_heartbeat session_key text sent_at = updating (λ s. (
  tt,
  record s {
    sessions = Maps.modify s.sessions session_key (λ session. record session {
      last_heartbeat_text = some text;
      last_heartbeat_sent_at = some sent_at;
    });
  },
))

-- `get_session`.
unfoldable pub get_session : String → StateStore → Result (Option SessionSummary) × StateStore
unfolding reading session_to_summary
get_session session_key =
    reading (λ s. option_map session_to_summary (Maps.get s.sessions session_key))

-- `clear_agent_sessions`.
unfoldable pub clear_agent_sessions : String → Bool → StateStore → Result (Unit {0}) × StateStore
unfolding updating
clear_agent_sessions agent_id = updating (λ s. (
  tt,
  record s {
    sessions = Maps.retain (λ key session. not (session.agent_id == agent_id)) s.sessions;
  },
))

-- `routing_affinity_key`.
unfoldable pub routing_affinity_key : String → String → String → String
routing_affinity_key channel peer_id sender_id =
    format ("affinity:" ∷ channel ∷ ":" ∷ peer_id ∷ ":" ∷ sender_id ∷ [])

unfoldable pub with_affinity :
    String → String → String → String → String → StoreSnapshot → StoreSnapshot
unfolding routing_affinity_key
with_affinity channel peer_id sender_id agent_id now s = record s {
  routing_affinity =
      Maps.insert s.routing_affinity (routing_affinity_key channel peer_id sender_id) (record {
        channel = channel;
        sender_id = sender_id;
        agent_id = agent_id;
        updated_at = now;
      });
}

-- `set_routing_affinity`.
unfoldable pub set_routing_affinity :
    String → String → String → String → String → Bool → StateStore → Result (Unit {0}) × StateStore
unfolding updating with_affinity
set_routing_affinity channel peer_id sender_id agent_id now =
    updating (λ s. (tt, with_affinity channel peer_id sender_id agent_id now s))

unfoldable pub affinity_in : String → String → String → StoreSnapshot → Option String
unfolding routing_affinity_key
affinity_in channel peer_id sender_id s =
    option_map (λ r. r.agent_id)
      (Maps.get s.routing_affinity (routing_affinity_key channel peer_id sender_id))

-- `get_routing_affinity`.
unfoldable pub get_routing_affinity :
    String → String → String → StateStore → Result (Option String) × StateStore
unfolding reading affinity_in
get_routing_affinity channel peer_id sender_id = reading (affinity_in channel peer_id sender_id)
