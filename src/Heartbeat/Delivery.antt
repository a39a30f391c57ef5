-- ===== src/Heartbeat/Delivery.antt =====
-- crates/heartbeat/src/delivery.rs: where the output of a heartbeat goes.
use clawpod.Base.{
  String, Bool, true, false, Option, none, some, Map, ◌==◌, if◌then◌else◌, unwrap_or, or_else,
  option_map,
}
use clawpod.Domain.Beat.{HeartbeatTarget, HeartbeatDirectPolicy}
use clawpod.Domain.Core.{TeamConfig}
use clawpod.Heartbeat.Policy.{EffectiveHeartbeatPolicy}
use clawpod.Routing.{find_team_for_agent}
use clawpod.Store.Records.{SessionSummary}

pub record DeliveryTarget : Type 0 where
  pub channel : String
  pub recipient : String
  pub account_id : Option String

pub data DeliveryKind : Type 0 where
  outbound : DeliveryTarget → DeliveryKind
  chatroom : String → DeliveryKind

abbrev pub is_direct_chat : Option String → Bool
is_direct_chat none = true
is_direct_chat (some t) = t == "direct"

-- `should_block_dm`.
unfoldable pub should_block_dm : HeartbeatDirectPolicy → SessionSummary → Bool
should_block_dm HeartbeatDirectPolicy.allow session = false
should_block_dm HeartbeatDirectPolicy.block session = is_direct_chat session.last_chat_type

-- The branch `HeartbeatTarget::Last`.
unfoldable pub last_target : EffectiveHeartbeatPolicy → SessionSummary → Option DeliveryKind
unfolding should_block_dm
last_target policy session = elim session.last_channel [
  | none ↦ none
  | some channel ↦ elim session.last_peer_id [
    | none ↦ none
    | some peer_id ↦
        if should_block_dm policy.direct_policy session
        then none
        else some (
            outbound (record {
              channel = channel;
              recipient = unwrap_or policy.to peer_id;
              account_id = or_else policy.account_id session.last_account_id;
            }))
  ]
]

-- The branch of the three channels by name.
unfoldable pub named_target : EffectiveHeartbeatPolicy → String → Option DeliveryKind
named_target policy channel =
    option_map
      (λ recipient.
        outbound
          (record { channel = channel; recipient = recipient; account_id = policy.account_id }))
      policy.to

unfoldable pub target_of :
    HeartbeatTarget
    → EffectiveHeartbeatPolicy
    → Option SessionSummary
    → String
    → Map TeamConfig
    → Option DeliveryKind
unfolding last_target named_target find_team_for_agent
target_of HeartbeatTarget.nowhere policy session agent_id teams = none
target_of HeartbeatTarget.last policy none agent_id teams = none
target_of HeartbeatTarget.last policy (some session) agent_id teams = last_target policy session
target_of HeartbeatTarget.telegram policy session agent_id teams = named_target policy "telegram"
target_of HeartbeatTarget.discord policy session agent_id teams = named_target policy "discord"
target_of HeartbeatTarget.slack policy session agent_id teams = named_target policy "slack"
target_of HeartbeatTarget.chatroom policy session agent_id teams =
    option_map chatroom (find_team_for_agent agent_id teams)

-- `resolve_delivery_target`.
unfoldable pub resolve_delivery_target :
    EffectiveHeartbeatPolicy → Option SessionSummary → String → Map TeamConfig → Option DeliveryKind
unfolding target_of
resolve_delivery_target policy = target_of policy.target policy
