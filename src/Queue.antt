-- ===== src/Queue.antt =====
-- crates/queue/src/lib.rs: the messages that wait for an agent. Here are the envelope and what is
-- written and read of it; Route decides the agent, Retry what happens to a message that failed, and
-- Context records where the message came from.
pub mod Route
pub mod Retry
pub mod Context
pub mod Routed
pub mod Retries
pub mod Contexts
pub mod Names
pub mod Files
pub mod Handling
pub mod Metadata
pub mod Entries
pub mod Runnable
pub mod Runs
pub mod Ended
pub mod Answer
pub mod Depths
pub mod Rooms
pub mod Outgoing
pub mod Delivered
mod Tests
use clawpod.Base.{
  ℕ, ◌*◌, ◌<◌, arith, String, Bool, true, false, ◌||◌, Option, none, some, List, [], ◌∷◌, ◌==◌, ltb,
  unwrap_or, if◌then◌else◌, ◌≡◌, refl,
}
use clawpod.Domain.Core.{ChatType, direct, group, thread, InboundEvent}

pub record EnqueueMessage : Type 0 where
  pub channel : String
  pub sender : String
  pub sender_id : String
  pub message : String
  pub message_id : String
  pub timestamp_ms : ℕ
  pub chat_type : ChatType
  pub peer_id : String
  pub account_id : Option String
  pub pre_routed_agent : Option String
  pub from_agent : Option String
  pub files : List String
  pub chain_depth : ℕ

pub record IncomingQueueEnvelope : Type 0 where
  pub channel : String
  pub sender : String
  pub sender_id : Option String
  pub message : String
  pub timestamp : ℕ
  pub message_id : String
  pub agent : Option String
  pub from_agent : Option String
  pub account_id : Option String
  pub chat_type : Option String
  pub peer_id : Option String
  pub files : List String
  pub retry_count : ℕ
  pub available_at_ms : Option ℕ
  pub last_error : Option String
  pub chain_depth : ℕ

-- `chat_type_to_str` and `parse_chat_type`.
unfoldable pub chat_type_to_str : ChatType → String
chat_type_to_str direct = "direct"
chat_type_to_str group = "group"
chat_type_to_str thread = "thread"

unfoldable pub parse_chat_type : Option String → ChatType
parse_chat_type none = direct
parse_chat_type (some raw) =
    if raw == "group" then group else if raw == "thread" then thread else direct

-- `is_internal_channel`.
unfoldable pub is_internal_channel : String → Bool
is_internal_channel channel =
    channel == "heartbeat" || channel == "chatroom" || channel == "internal"

-- The payload of `enqueue_message`, as serde reads it again.
unfoldable pub enqueued : EnqueueMessage → IncomingQueueEnvelope
unfolding chat_type_to_str
enqueued msg = record {
  channel = msg.channel;
  sender = msg.sender;
  sender_id = some msg.sender_id;
  message = msg.message;
  timestamp = msg.timestamp_ms;
  message_id = msg.message_id;
  agent = msg.pre_routed_agent;
  from_agent = msg.from_agent;
  account_id = msg.account_id;
  chat_type = some (chat_type_to_str msg.chat_type);
  peer_id = some msg.peer_id;
  files = msg.files;
  retry_count = 0;
  available_at_ms = some msg.timestamp_ms;
  last_error = none;
  chain_depth = msg.chain_depth;
}

-- chrono's `from_timestamp_millis`, none out of its range, and the clock; times are milliseconds.
module _ (from_timestamp_millis : ℕ → Option ℕ) (now : ℕ) where
  -- `parse_timestamp`: a small number is one of seconds.
  unfoldable pub parse_timestamp : ℕ → ℕ
  parse_timestamp timestamp =
      if ltb 9999999999 timestamp
      then unwrap_or (from_timestamp_millis timestamp) now
      else unwrap_or (from_timestamp_millis (timestamp * 1000)) now

  -- `envelope_to_event`.
  unfoldable pub envelope_to_event : IncomingQueueEnvelope → InboundEvent
  unfolding parse_timestamp parse_chat_type
  envelope_to_event envelope =
      let sender_id = unwrap_or envelope.sender_id envelope.sender in
      record {
        message_id = envelope.message_id;
        channel = envelope.channel;
        sender = envelope.sender;
        sender_id = sender_id;
        text = envelope.message;
        timestamp = parse_timestamp envelope.timestamp;
        chat_type = parse_chat_type envelope.chat_type;
        peer_id = unwrap_or envelope.peer_id sender_id;
        account_id = envelope.account_id;
        files = envelope.files;
        pre_routed_agent = envelope.agent;
        from_agent = envelope.from_agent;
        chain_depth = envelope.chain_depth;
      }

  -- A message put into the queue comes out as an event with all of its fields; a time after April
  -- 1970 that chrono represents is kept as well.
  pub envelope_to_event-enqueued :
      (msg : EnqueueMessage)
      → 9999999999 < msg.timestamp_ms
      → from_timestamp_millis msg.timestamp_ms ≡ some msg.timestamp_ms
      → envelope_to_event (enqueued msg) ≡ record {
        message_id = msg.message_id;
        channel = msg.channel;
        sender = msg.sender;
        sender_id = msg.sender_id;
        text = msg.message;
        timestamp = msg.timestamp_ms;
        chat_type = msg.chat_type;
        peer_id = msg.peer_id;
        account_id = msg.account_id;
        files = msg.files;
        pre_routed_agent = msg.pre_routed_agent;
        from_agent = msg.from_agent;
        chain_depth = msg.chain_depth;
      }
  unfolding envelope_to_event enqueued parse_timestamp parse_chat_type chat_type_to_str
  envelope_to_event-enqueued msg large kept =
      let time : parse_timestamp msg.timestamp_ms ≡ msg.timestamp_ms =
        (let late : ltb 9999999999 msg.timestamp_ms ≡ true = ground arith in
          rw (late, kept) refl) in
      rw (time, chat_type_round_trip msg.chat_type) refl
    where
      chat_type_round_trip : (c : ChatType) → parse_chat_type (some (chat_type_to_str c)) ≡ c
      chat_type_round_trip direct = refl
      chat_type_round_trip group = refl
      chat_type_round_trip thread = refl
