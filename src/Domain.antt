-- ===== src/Domain.antt =====
-- crates/domain/src/lib.rs: the types that the crates share. Agents, teams, messages and runs are in
-- Domain/Core, the heartbeat's in Domain/Beat. A `DateTime<Utc>` is the number of nanoseconds since
-- the least time that chrono represents, a JSON `Value` is its serialised text, and a `Uuid` its text.
pub mod Core
pub mod Beat
pub mod Models
