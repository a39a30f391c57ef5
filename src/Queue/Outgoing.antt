-- ===== src/Queue/Outgoing.antt =====
-- crates/queue/src/lib.rs: the reply to a message: how it is made ready, written to the outgoing
-- folder, listed there for a channel, and removed once it is delivered.
use Prim.Native.String
use text.Mathlib.Text.{is_le}
use clawpod.Base.{
  ℕ, zero, suc, String, Bool, ◌&&◌, ◌||◌, Option, none, some, List, [], ◌∷◌, ◌++◌, Map, ◌==◌, ltb,
  if◌then◌else◌, unwrap_or, option_map, format, is_empty, Result, ok, err,
}
use clawpod.Base.Maps
use clawpod.Base.Text
use clawpod.Base.Paths
use clawpod.Base.Decimal.{pos}
use clawpod.Domain.Core.{InboundEvent}
use clawpod.Extern.{Captures, TextLib}
use clawpod.Plugins.{HookResult}
use clawpod.Queue.Names.{is_json, queued_file_name}

pub record OutgoingQueueEnvelope : Type 0 where
  pub channel : String
  pub sender : String
  pub message : String
  pub original_message : String
  pub timestamp : ℕ
  pub message_id : String
  pub agent : String
  pub recipient_id : String
  pub files : List String
  pub metadata : Map String

pub record QueuedOutgoingMessage : Type 0 where
  pub path : String
  pub channel : String
  pub recipient_id : String
  pub message : String
  pub message_id : String
  pub original_message : String
  pub agent_id : String
  pub files : List String
  pub metadata : Map String

pub record PreparedOutbound : Type 0 where
  pub message : String
  pub files : List String
  pub metadata : Map String

pub record OutboundEvent : Type 0 where
  pub channel : String
  pub recipient_id : String
  pub message : String
  pub message_id : String
  pub original_message_id : String
  pub agent_id : String
  pub files : List String

abbrev pub long_response_threshold : ℕ
long_response_threshold = 4000

-- The list of the attachments.
abbrev file_lines : List String → String
file_lines [] = ""
file_lines (file ∷ files) = format ("- " ∷ file ∷ "\n" ∷ file_lines files ∷ [])

-- `augment_prompt_with_files`.
unfoldable pub augment_prompt_with_files : String → List String → String
augment_prompt_with_files prompt files =
    if is_empty files
    then prompt
    else format (prompt ∷ "\n\nAttached files available on disk:\n" ∷ file_lines files ∷ [])

-- `resolve_output_file`.
unfoldable pub resolve_output_file : String → String → String
unfolding Paths.is_absolute Paths.join
resolve_output_file working_directory raw =
    if Paths.is_absolute raw then raw else Paths.join working_directory raw

-- `chars().take(n)`.
unfoldable pub first_chars : ℕ → String → String
first_chars zero s = ""
first_chars (suc n) String.[] = ""
first_chars (suc n) (String.◌∷◌ c s) = String.◌∷◌ c (first_chars n s)

module _ (lib : TextLib) where
  -- `strip_chatroom_tags`.
  unfoldable pub strip_chatroom_tags : String → String
  unfolding Text.trim
  strip_chatroom_tags response =
      Text.trim (lib.erase_all "\\[#(\\S+?):\\s*([\\s\\S]*?)\\]" response)

  -- `convert_mentions_to_readable`.
  unfoldable pub convert_mentions_to_readable : String → String → String
  unfolding Text.trim
  convert_mentions_to_readable response from_agent =
      lib.replace_all "\\[@(\\S+?):\\s*([\\s\\S]*?)\\]" response (λ caps. format (
        "@"
        ∷ from_agent
        ∷ " → @"
        ∷ unwrap_or caps.group_1 ""
        ∷ ": "
        ∷ unwrap_or (option_map Text.trim caps.group_2) ""
        ∷ []))

  -- The loop over the tags `[send_file: path]`; `exists` says which files there are.
  unfoldable pub sent_files : (String → Bool) → String → List Captures → List String
  unfolding resolve_output_file Text.trim
  sent_files exists working_directory [] = []
  sent_files exists working_directory (caps ∷ more) =
      let rest = sent_files exists working_directory more in
      elim (option_map Text.trim caps.group_1) [
        | none ↦ rest
        | some raw_path ↦
            let resolved = resolve_output_file working_directory raw_path in
            if exists resolved then resolved ∷ rest else rest
      ]

  -- A message over the threshold, in bytes, is written to a file and cut, in characters. `writes`
  -- says whether the file `path` can be written.
  unfoldable pub attach_long :
      Bool → String → String → List String → Map String → Result PreparedOutbound
  unfolding Text.len first_chars
  attach_long writes path message files metadata =
      if ltb long_response_threshold (Text.len message)
      then (if writes
          then ok (record {
            message = format (
                first_chars long_response_threshold message
                ∷ "\n\n(Full response attached as a file.)"
                ∷ []);
            files = files ++ path ∷ [];
            metadata = metadata;
          })
          else err (format ("failed to write long response attachment: " ∷ path ∷ [])))
      else ok (record { message = message; files = files; metadata = metadata })

  -- `prepare_outbound_payload` after the plugins, which worked on `strip_chatroom_tags` of the
  -- response.
  unfoldable pub prepare_outbound_payload :
      (String → Bool) → Bool → String → String → HookResult → Result PreparedOutbound
  unfolding sent_files attach_long Text.trim
  prepare_outbound_payload exists writes path working_directory transformed =
      attach_long writes path
        (Text.trim (lib.erase_all "\\[send_file:\\s*([^\\]]+)\\]" (Text.trim transformed.text)))
        (sent_files exists working_directory
          (lib.captures_iter "\\[send_file:\\s*([^\\]]+)\\]" transformed.text))
        transformed.metadata

-- The files of the outgoing folder: an envelope, or nothing that can be read as one.
abbrev pub Outbox : Type 0
Outbox = Map (Option OutgoingQueueEnvelope)

-- `enqueue_outgoing_message`, where the write succeeds, at the time that names the file.
unfoldable pub enqueue_outgoing_message : OutgoingQueueEnvelope → ℕ → String → Outbox → Outbox
unfolding queued_file_name
enqueue_outgoing_message envelope named simple outbox =
    Maps.insert outbox (queued_file_name (pos named) simple) (some envelope)

-- The payload of `enqueue_outgoing_message` for an answer.
unfoldable pub reply : InboundEvent → OutboundEvent → Map String → ℕ → OutgoingQueueEnvelope
reply event outbound metadata now = record {
  channel = event.channel;
  sender = event.sender;
  message = outbound.message;
  original_message = event.text;
  timestamp = now;
  message_id = outbound.message_id;
  agent = outbound.agent_id;
  recipient_id = outbound.recipient_id;
  files = outbound.files;
  metadata = metadata;
}

-- `write_outgoing`, at the two times that the clock is read.
unfoldable pub write_outgoing :
    InboundEvent → OutboundEvent → Map String → ℕ → ℕ → String → Outbox → Outbox
unfolding enqueue_outgoing_message reply
write_outgoing event outbound metadata named now simple outbox =
    if event.channel == "chatroom" || event.channel == "heartbeat"
    then outbox
    else enqueue_outgoing_message (reply event outbound metadata now) named simple outbox

unfoldable pub queued_message : String → OutgoingQueueEnvelope → QueuedOutgoingMessage
queued_message path envelope = record {
  path = path;
  channel = envelope.channel;
  recipient_id = envelope.recipient_id;
  message = envelope.message;
  message_id = envelope.message_id;
  original_message = envelope.original_message;
  agent_id = envelope.agent;
  files = envelope.files;
  metadata = envelope.metadata;
}

-- The stable sort by path.
unfoldable pub insert_message :
    QueuedOutgoingMessage → List QueuedOutgoingMessage → List QueuedOutgoingMessage
insert_message m [] = m ∷ []
insert_message m (n ∷ messages) =
    let rest = insert_message m messages in
    if is_le (String.compare m.path n.path) then m ∷ n ∷ messages else n ∷ rest

-- The file's message, if it is one for the channel.
unfoldable pub message_for :
    String → String → Option OutgoingQueueEnvelope → Option QueuedOutgoingMessage
unfolding is_json queued_message
message_for channel path none = none
message_for channel path (some envelope) =
    if is_json path && envelope.channel == channel
    then some (queued_message path envelope)
    else none

-- `list_outgoing_messages`; the paths are those in the folder.
unfoldable pub list_outgoing_messages : String → Outbox → List QueuedOutgoingMessage
unfolding message_for insert_message
list_outgoing_messages channel [] = []
list_outgoing_messages channel ((path, contents) ∷ entries) =
    let rest = list_outgoing_messages channel entries in
    elim (message_for channel path contents) [ none ↦ rest | some m ↦ insert_message m rest ]

-- `ack_outgoing_message`, where the removal succeeds.
unfoldable pub ack_outgoing_message : String → Outbox → Outbox
ack_outgoing_message path outbox = Maps.remove outbox path
