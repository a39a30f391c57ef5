-- ===== src/Config/Access.antt =====
-- crates/config/src/lib.rs: who may write to an agent. `evaluate_ingress_policy` and the defaults of
-- the channels; Config/Access/Laws says whom it lets in.
pub mod Laws
use clawpod.Base.{
  String, Bool, true, false, not, ◌&&◌, Option, none, some, List, [], ◌∷◌, Map, ◌==◌, if◌then◌else◌,
  unwrap_or, or_else, contains, is_empty,
}
use clawpod.Base.Maps
use clawpod.Domain.Core.{ChatType, direct, group, thread}

pub data DirectMessagePolicy : Type 0 where
  open_to_all allowlist pairing disabled : DirectMessagePolicy

pub data GroupPolicy : Type 0 where
  disabled mention_only allowlist open_to_all : GroupPolicy

pub record PerChannelAccessConfig : Type 0 where
  pub allow : Bool
  pub require_mention : Option Bool

pub record ChannelAccessConfig : Type 0 where
  pub dm_policy : DirectMessagePolicy
  pub group_policy : GroupPolicy
  pub allow_from : List String
  pub group_allow_from : List String
  pub channels : Map PerChannelAccessConfig

pub data IngressDecision : Type 0 where
  allow : IngressDecision
  drop : String → IngressDecision
  require_pairing : IngressDecision

-- `effective_access` of Telegram and of Slack, from the field `access`.
unfoldable pub effective_access : Option ChannelAccessConfig → ChannelAccessConfig
effective_access access = unwrap_or access (record {
  dm_policy = DirectMessagePolicy.open_to_all;
  group_policy = GroupPolicy.mention_only;
  allow_from = [];
  group_allow_from = [];
  channels = [];
})

-- `effective_access` of Discord, from the fields `access` and `mention_only` (`only_mentions`).
unfoldable pub discord_access : Option ChannelAccessConfig → Bool → ChannelAccessConfig
discord_access access only_mentions = unwrap_or access (record {
  dm_policy = DirectMessagePolicy.open_to_all;
  group_policy = if only_mentions then GroupPolicy.mention_only else GroupPolicy.open_to_all;
  allow_from = [];
  group_allow_from = [];
  channels = [];
})

-- The branch `ChatType::Direct`.
unfoldable pub direct_policy : DirectMessagePolicy → List String → String → Bool → IngressDecision
direct_policy DirectMessagePolicy.open_to_all allow_from sender_id is_pairing_approved = allow
direct_policy DirectMessagePolicy.disabled allow_from sender_id is_pairing_approved =
    drop "dm_disabled"
direct_policy DirectMessagePolicy.allowlist allow_from sender_id is_pairing_approved =
    if contains allow_from sender_id then allow else drop "sender_not_allowlisted"
direct_policy DirectMessagePolicy.pairing allow_from sender_id is_pairing_approved =
    if is_pairing_approved then allow else require_pairing

-- The `match access.group_policy` at the end.
unfoldable pub group_policy : GroupPolicy → List String → String → Bool → IngressDecision
group_policy GroupPolicy.disabled group_allow_from sender_id mentions_bot = drop "group_disabled"
group_policy GroupPolicy.open_to_all group_allow_from sender_id mentions_bot = allow
group_policy GroupPolicy.mention_only group_allow_from sender_id mentions_bot =
    if mentions_bot then allow else drop "mention_required"
group_policy GroupPolicy.allowlist group_allow_from sender_id mentions_bot =
    if contains group_allow_from sender_id then allow else drop "sender_not_group_allowlisted"

-- The entry that overrides the group policy: that of the channel, or else that of "*".
unfoldable pub channel_override :
    Map PerChannelAccessConfig → Option String → Option PerChannelAccessConfig
channel_override channels channel_id =
    if not (is_empty channels)
    then elim channel_id [
      | none ↦ none
      | some cid ↦ or_else (Maps.get channels cid) (Maps.get channels "*")
    ]
    else none

abbrev is_some_true : Option Bool → Bool
is_some_true none = false
is_some_true (some b) = b

unfoldable pub override_policy : PerChannelAccessConfig → Bool → IngressDecision
override_policy pc mentions_bot =
    if not pc.allow
    then drop "channel_not_allowed"
    else if is_some_true pc.require_mention && not mentions_bot
    then drop "mention_required"
    else allow

-- The branch `ChatType::Group | ChatType::Thread`.
unfoldable pub shared_policy : ChannelAccessConfig → String → Bool → Option String → IngressDecision
unfolding override_policy group_policy channel_override
shared_policy access sender_id mentions_bot channel_id =
    elim (channel_override access.channels channel_id) [
      | some pc ↦ override_policy pc mentions_bot
      | none ↦ group_policy access.group_policy access.group_allow_from sender_id mentions_bot
    ]

-- `evaluate_ingress_policy`.
unfoldable pub evaluate_ingress_policy :
    ChannelAccessConfig → ChatType → String → Bool → Bool → Option String → IngressDecision
unfolding direct_policy shared_policy
evaluate_ingress_policy access direct sender_id mentions_bot is_pairing_approved channel_id =
    direct_policy access.dm_policy access.allow_from sender_id is_pairing_approved
evaluate_ingress_policy access group sender_id mentions_bot is_pairing_approved channel_id =
    shared_policy access sender_id mentions_bot channel_id
evaluate_ingress_policy access thread sender_id mentions_bot is_pairing_approved channel_id =
    shared_policy access sender_id mentions_bot channel_id
