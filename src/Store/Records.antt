-- ===== src/Store/Records.antt =====
-- crates/store/src/lib.rs: the records of the state file. The numbers are those of the source (i64
-- for identifiers, which wrap, and u32 for counters); `usize` and the other i64 fields are natural
-- numbers.
use clawpod.Base.{Bool, ℕ, String, Option, List, Map}
use clawpod.Base.Decimal.{ℤ}

pub record RunRecord : Type 0 where
  pub id : String
  pub task_id : String
  pub message_id : String
  pub session_key : String
  pub agent_id : String
  pub status : String
  pub prompt : Option String
  pub output : Option String
  pub error : Option String
  pub duration_ms : Option ℕ
  pub created_at : String
  pub updated_at : String
  pub started_at : Option String
  pub ended_at : Option String
  pub model : Option String
  pub provider : Option String
  pub event_count : Option ℕ
  pub stderr : Option String
  pub think_level : Option String

pub record ChainStepRecord : Type 0 where
  pub chain_id : String
  pub task_id : String
  pub team_id : String
  pub step_index : ℕ
  pub agent_id : String
  pub input : String
  pub output : String
  pub created_at : String

-- The payload is JSON, kept as its text.
pub record EventRecord : Type 0 where
  pub id : ℤ
  pub event_type : String
  pub payload : String
  pub created_at : String

pub record ChatroomMessageRecord : Type 0 where
  pub id : ℤ
  pub team_id : String
  pub from_agent : String
  pub message : String
  pub created_at : String

pub record HeartbeatRunRecord : Type 0 where
  pub id : ℤ
  pub agent_id : String
  pub reason : String
  pub session_key : Option String
  pub prompt : String
  pub output : Option String
  pub preview : Option String
  pub status : String
  pub skip_reason : Option String
  pub delivery_channel : Option String
  pub delivery_recipient : Option String
  pub delivery_mode : Option String
  pub used_model : Option String
  pub used_prompt : Option String
  pub indicator_type : Option String
  pub started_at : String
  pub finished_at : String
  pub duration_ms : ℕ

pub record SessionRecord : Type 0 where
  pub session_key : String
  pub agent_id : String
  pub created_at : String
  pub updated_at : String
  pub last_channel : Option String
  pub last_peer_id : Option String
  pub last_account_id : Option String
  pub last_chat_type : Option String
  pub last_sender_id : Option String
  pub last_message_id : Option String
  pub last_thread_id : Option String
  pub last_heartbeat_text : Option String
  pub last_heartbeat_sent_at : Option String

pub record SessionSummary : Type 0 where
  pub session_key : String
  pub agent_id : String
  pub created_at : String
  pub updated_at : String
  pub last_channel : Option String
  pub last_peer_id : Option String
  pub last_account_id : Option String
  pub last_chat_type : Option String
  pub last_sender_id : Option String
  pub last_heartbeat_text : Option String
  pub last_heartbeat_sent_at : Option String

pub record SenderAccessRecord : Type 0 where
  pub key : String
  pub channel : String
  pub sender_id : String
  pub sender_label : Option String
  pub status : String
  pub peer_id : String
  pub account_id : Option String
  pub requested_at : String
  pub updated_at : String
  pub last_message_preview : Option String
  pub last_message_id : Option String
  pub pairing_code : Option String
  pub pairing_code_expires_at : Option String
  pub failed_pairing_attempts : ℕ
  pub locked_until : Option String

pub record SenderAccessEntry : Type 0 where
  pub key : String
  pub channel : String
  pub sender_id : String
  pub sender_label : Option String
  pub status : String
  pub peer_id : String
  pub account_id : Option String
  pub requested_at : String
  pub updated_at : String
  pub last_message_preview : Option String
  pub last_message_id : Option String
  pub has_pairing_code : Bool
  pub pairing_code_expires_at : Option String
  pub failed_pairing_attempts : ℕ
  pub is_locked_out : Bool

pub data SenderAccessRegistration : Type 0 where
  approved pending_created pending_existing : SenderAccessRegistration

pub record RoutingAffinityRecord : Type 0 where
  pub channel : String
  pub sender_id : String
  pub agent_id : String
  pub updated_at : String

pub record StoreSnapshot : Type 0 where
  pub runs : Map RunRecord
  pub chain_steps : List ChainStepRecord
  pub chatroom_messages : List ChatroomMessageRecord
  pub heartbeat_runs : List HeartbeatRunRecord
  pub events : List EventRecord
  pub sessions : Map SessionRecord
  pub sender_access : Map SenderAccessRecord
  pub routing_affinity : Map RoutingAffinityRecord
  pub next_event_id : ℤ
  pub next_chatroom_message_id : ℤ
  pub next_heartbeat_run_id : ℤ

-- `session_to_summary`.
unfoldable pub session_to_summary : SessionRecord → SessionSummary
session_to_summary s = record {
  session_key = s.session_key;
  agent_id = s.agent_id;
  created_at = s.created_at;
  updated_at = s.updated_at;
  last_channel = s.last_channel;
  last_peer_id = s.last_peer_id;
  last_account_id = s.last_account_id;
  last_chat_type = s.last_chat_type;
  last_sender_id = s.last_sender_id;
  last_heartbeat_text = s.last_heartbeat_text;
  last_heartbeat_sent_at = s.last_heartbeat_sent_at;
}
