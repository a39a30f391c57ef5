-- ===== src/Session.antt =====
-- crates/session/src/lib.rs: the key of the session that a message belongs to.
pub mod Keys
mod Tests
use clawpod.Base.{String, [], ◌∷◌, format, unwrap_or}
use clawpod.Domain.Core.{ChatType, direct, group, thread, DmScope, InboundEvent}

-- `build_direct_session_key`.
unfoldable pub build_direct_session_key : String → InboundEvent → DmScope → String → String
build_direct_session_key agent_id event DmScope.main main_key =
    format ("agent:" ∷ agent_id ∷ ":" ∷ main_key ∷ [])
build_direct_session_key agent_id event DmScope.per_peer main_key =
    format ("agent:" ∷ agent_id ∷ ":direct:" ∷ event.sender_id ∷ [])
build_direct_session_key agent_id event DmScope.per_channel_peer main_key =
    format ("agent:" ∷ agent_id ∷ ":" ∷ event.channel ∷ ":direct:" ∷ event.sender_id ∷ [])
build_direct_session_key agent_id event DmScope.per_account_channel_peer main_key =
    let account_id = unwrap_or event.account_id "default" in
    format (
      "agent:" ∷ agent_id ∷ ":" ∷ event.channel ∷ ":" ∷ account_id ∷ ":direct:" ∷ event.sender_id
      ∷ [])

unfoldable pub session_key_of : ChatType → String → InboundEvent → DmScope → String → String
unfolding build_direct_session_key
session_key_of direct agent_id event dm_scope main_key =
    build_direct_session_key agent_id event dm_scope main_key
session_key_of group agent_id event dm_scope main_key =
    format ("agent:" ∷ agent_id ∷ ":" ∷ event.channel ∷ ":group:" ∷ event.peer_id ∷ [])
session_key_of thread agent_id event dm_scope main_key =
    format ("agent:" ∷ agent_id ∷ ":" ∷ event.channel ∷ ":thread:" ∷ event.peer_id ∷ [])

-- `build_session_key`.
unfoldable pub build_session_key : String → InboundEvent → DmScope → String → String
unfolding session_key_of
build_session_key agent_id event dm_scope main_key =
    session_key_of event.chat_type agent_id event dm_scope main_key
