-- ===== src/Heartbeat/Decisions.antt =====
-- crates/heartbeat/src/lib.rs: when the output of a heartbeat goes out, and what is left unsaid.
use clawpod.Base.Maps
