-- ===== src/Queue/Answer.antt =====
-- crates/queue/src/lib.rs: what follows an agent's answer: handoffs to teammates, posts to chatrooms,
-- the affinity that the agent asks for, and the reply.
mod Tests
use clawpod.Base.{
  ℕ, ◌+◌, ◌%◌, ◌^◌, String, Bool, true, false, not, ◌&&◌, ◌||◌, Option, none, some, List, [], ◌∷◌,
  ◌++◌, Map, ◌==◌, ltb, length, if◌then◌else◌, format, Result, ok, err, panic,
}
use clawpod.Base.Maps
use clawpod.Domain.Core.{
  ChatType, AgentConfig, TeamConfig, InboundEvent, MentionHandoff, ChatroomPost,
  ChatroomMessageView,
}
use clawpod.Extern.{TextLib}
use clawpod.Queue.{EnqueueMessage, is_internal_channel}
use clawpod.Routing.{extract_route_to}
use clawpod.Routing.Mentions.{extract_teammate_mentions}
use clawpod.Store.State.{StateStore}
use clawpod.Store.Messages.{record_chatroom_message}
use clawpod.Store.Sessions.{set_routing_affinity}
use clawpod.Team.{from_teammate}

-- The clock in milliseconds and the fresh identifiers, by the number of their use.
pub record Stamps : Type 0 where
  pub now_ms : ℕ → ℕ
  pub new_v4 : ℕ → String

-- The message of a handoff.
unfoldable pub handoff_message :
    Stamps → ℕ → String → InboundEvent → ℕ → MentionHandoff → EnqueueMessage
handoff_message stamps n agent_id event next_depth mention = record {
  channel = event.channel;
  sender = event.sender;
  sender_id = event.sender_id;
  message = from_teammate agent_id mention.message;
  message_id = format ("internal-" ∷ stamps.new_v4 n ∷ "-" ∷ mention.teammate_id ∷ []);
  timestamp_ms = stamps.now_ms n;
  chat_type = event.chat_type;
  peer_id = event.peer_id;
  account_id = event.account_id;
  pre_routed_agent = some mention.teammate_id;
  from_agent = some agent_id;
  files = [];
  chain_depth = next_depth;
}

-- The loop over the handoffs, each of whose writes and events succeeds.
unfoldable pub handoff_loop :
    Stamps → ℕ → String → InboundEvent → ℕ → ℕ → List MentionHandoff → List EnqueueMessage
unfolding handoff_message
handoff_loop stamps n agent_id event next_depth max_depth [] = []
handoff_loop stamps n agent_id event next_depth max_depth (mention ∷ mentions) =
    let rest = handoff_loop stamps (n + 1) agent_id event next_depth max_depth mentions in
    if ltb max_depth next_depth
    then []
    else handoff_message stamps n agent_id event next_depth mention ∷ rest

-- The handoffs of an answer. The depth is a u32, and so is what the limit is cut to.
unfoldable pub handoffs :
    TextLib
    → Map AgentConfig
    → Map TeamConfig
    → ℕ
    → Stamps
    → Option String
    → String
    → InboundEvent
    → String
    → List EnqueueMessage
unfolding handoff_loop extract_teammate_mentions
handoffs lib agents teams max_chain_steps stamps none agent_id event text = []
handoffs lib agents teams max_chain_steps stamps (some team_id) agent_id event text =
    handoff_loop stamps 0 agent_id event ((event.chain_depth + 1) % 2 ^ 32)
      (max_chain_steps % 2 ^ 32)
      (extract_teammate_mentions lib text agent_id event.from_agent team_id teams agents)

-- `enqueue_chatroom_message`, the message that it enqueues.
unfoldable pub chatroom_message : Stamps → ℕ → String → String → String → String → EnqueueMessage
chatroom_message stamps n team_id recipient_agent from_agent message = record {
  channel = "chatroom";
  sender = from_agent;
  sender_id = from_agent;
  message = format ("[Chat room #" ∷ team_id ∷ " - @" ∷ from_agent ∷ "]:\n" ∷ message ∷ []);
  message_id = format ("chatroom-" ∷ stamps.new_v4 n ∷ "-" ∷ recipient_agent ∷ []);
  timestamp_ms = stamps.now_ms n;
  chat_type = ChatType.group;
  peer_id = team_id;
  account_id = none;
  pre_routed_agent = some recipient_agent;
  from_agent = some from_agent;
  files = [];
  chain_depth = 0;
}

-- The loop over the teammates.
unfoldable pub tell_room :
    Map AgentConfig → Stamps → ℕ → String → String → String → List String → List EnqueueMessage
unfolding chatroom_message Maps.contains_key
tell_room agents stamps n team_id from_agent message [] = []
tell_room agents stamps n team_id from_agent message (teammate_id ∷ teammates) =
    let rest = tell_room agents stamps (n + 1) team_id from_agent message teammates in
    if teammate_id == from_agent || not (Maps.contains_key agents teammate_id)
    then rest
    else chatroom_message stamps n team_id teammate_id from_agent message ∷ rest

-- The messages of one post after its record, and of the posts behind it.
abbrev pub with_posts :
    List EnqueueMessage
    → Result (List EnqueueMessage) × StateStore
    → Result (List EnqueueMessage) × StateStore
with_posts messages (ok more, st) = (ok (messages ++ more), st)
with_posts messages (err e, st) = (err e, st)
with_posts messages (panic e, st) = (panic e, st)

abbrev pub after_record :
    Result ChatroomMessageView × StateStore
    → (StateStore → Result (List EnqueueMessage) × StateStore)
    → Result (List EnqueueMessage) × StateStore
after_record (ok view, st) k = k st
after_record (err e, st) k = (err e, st)
after_record (panic e, st) k = (panic e, st)

-- `post_chatroom_messages`, on the number of stamps used; every write to the file succeeds or fails
-- alike.
unfoldable pub post_chatroom_messages :
    Map AgentConfig
    → Map TeamConfig
    → Stamps
    → String
    → String
    → Bool
    → ℕ
    → List ChatroomPost
    → StateStore
    → Result (List EnqueueMessage) × StateStore
unfolding tell_room record_chatroom_message
post_chatroom_messages agents teams stamps from_agent now writes n [] st = (ok [], st)
post_chatroom_messages agents teams stamps from_agent now writes n (post ∷ posts) st =
    let next =
      λ (k : ℕ). post_chatroom_messages agents teams stamps from_agent now writes k posts in
    elim (Maps.get teams post.team_id) [
      | none ↦ next n st
      | some team ↦
          after_record (record_chatroom_message post.team_id from_agent post.message now writes st)
            (λ st'.
              with_posts
                (tell_room agents stamps n post.team_id from_agent post.message team.agents)
                (next (n + length team.agents) st'))
    ]

-- `[route_to: agent]`: a failure to write is only logged.
unfoldable pub follow_route_to :
    TextLib → Map AgentConfig → InboundEvent → String → Bool → String → StateStore → StateStore
unfolding extract_route_to is_internal_channel set_routing_affinity Maps.contains_key
follow_route_to lib agents event now writes text st = elim (extract_route_to lib text) [
  | none ↦ st
  | some target_agent ↦
      if Maps.contains_key agents target_agent && not (is_internal_channel event.channel)
      then (set_routing_affinity event.channel event.peer_id event.sender_id target_agent now writes
          st).1
      else st
]
