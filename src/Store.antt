-- ===== src/Store.antt =====
-- crates/store/src/lib.rs: the state that every process of the program keeps in one file. Records
-- declares what the file holds, State how an operation reads and replaces it, Sessions, Messages,
-- Runs, Senders and Codes are the operations, and the other modules prove things of them.
pub mod Records
pub mod State
pub mod Sessions
pub mod Messages
pub mod Runs
pub mod Senders
pub mod Steps
pub mod Codes
pub mod Ids
pub mod Affinity
pub mod Pairings
pub mod Approved
pub mod Approvals
mod Tests
