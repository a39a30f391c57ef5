-- ===== src/Session/Tests.antt =====
-- Two direct messages on one channel.
use clawpod.Base.{◌≡◌, refl, ◌↔◌}
use clawpod.Domain.Core.{DmScope, InboundEvent}
use clawpod.Samples.{hello}
use clawpod.Session.{build_session_key}
use clawpod.Session.Keys.{participant, build_session_key_iff}

abbrev from_bob : InboundEvent
from_bob = record hello { sender_id = "bob_2" }

build_session_key_iff_example :
    (build_session_key "default" hello DmScope.per_peer "main"
      ≡ build_session_key "default" from_bob DmScope.per_peer "main")
    ↔ (participant hello.chat_type hello ≡ participant hello.chat_type from_bob)
build_session_key_iff_example =
    build_session_key_iff "default" "main" hello from_bob refl refl DmScope.per_peer (λ e. cc) refl

key :
    build_session_key "default" hello DmScope.per_channel_peer "main"
    ≡ "agent:default:telegram:direct:alice_1"
unfolding build_session_key
key = refl
