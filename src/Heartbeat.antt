-- ===== src/Heartbeat.antt =====
-- crates/heartbeat/src: the periodic runs of the agents. Policy (policy.rs, visibility.rs), Hours
-- (active_hours.rs), Dedup (dedup.rs), Normalize (normalize.rs), Delivery (delivery.rs) and
-- Indicator (indicator.rs) are its files; Outcome puts them together as `run_once` of lib.rs does.
pub mod Policy
pub mod Hours
pub mod Dedup
pub mod Normalize
pub mod Stripped
pub mod Quiet
pub mod Classified
pub mod Delivery
pub mod Indicator
pub mod Outcome
pub mod Told
pub mod Decisions
pub mod Ticks
pub mod Memory
mod Tests
