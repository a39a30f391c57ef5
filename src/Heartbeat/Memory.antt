-- ===== src/Heartbeat/Memory.antt =====
-- crates/heartbeat/src/lib.rs and dedup.rs with crates/store/src/lib.rs: what a run writes into its
-- session, and what the next run makes of it.
use clawpod.Base.{String, some}
use clawpod.Base.Maps
use clawpod.Store.Records.{StoreSnapshot, SessionRecord}

abbrev remembered : SessionRecord → String → String → SessionRecord
remembered session text sent_at = record session {
  last_heartbeat_text = some text;
  last_heartbeat_sent_at = some sent_at;
}

abbrev with_heartbeat : String → String → String → StoreSnapshot → StoreSnapshot
with_heartbeat key text sent_at s = record s {
  sessions = Maps.modify s.sessions key (λ session. remembered session text sent_at);
}
