-- ===== src/Lib.antt =====
-- ClawPod runs teams of coding agents behind chat channels. A message from a channel is checked
-- against the ingress policy and put into a queue of files; the queue decides which agent gets it,
-- runs the agent or a chain of teammates, and records what happened in a state file that all
-- processes share. Agents also run on their own, as heartbeats.
--
-- The parts and their files here (paths from the root of the repository):
--   * Domain (Core, Beat, Models): the types of crates/domain/src/lib.rs, the catalogue of models and
--     the words for levels and outcomes.
--   * Routing: crates/routing/src/lib.rs. Routing has `parse_agent_routing`, `find_team_for_agent`,
--     the posts and the tags; Binding has `resolve_binding`; Mentions has
--     `extract_teammate_mentions`. Prefix, Best, Tagged and Handoffs hold the proofs.
--   * Team: crates/team/src/lib.rs, `execute_team_chain`. The runner and the source of identifiers
--     are the record World; `chain_loop` is the loop over the steps, on the number of steps left,
--     and `after_response` the rest of its body after the agent's answer.
--   * RunEvents: crates/store/src/run_events.rs, the buffer of the events of runs.
--   * Config: crates/config/src/lib.rs. Access is `evaluate_ingress_policy` with the defaults of the
--     channels, Durations is `parse_duration_str`. Runtime has the records of a configuration,
--     Secrets the tokens and keys with `masked_for_display` and `restore_masked_secrets`, Validate
--     `validate`, and Browser the folders, addresses and browser profiles that are read off a
--     configuration; Checks has the forms of its tests. Restored, Ports, Served and Valid hold proofs.
--   * Pairing: crates/pairing/src/lib.rs, the comparison and the shape of pairing codes.
--   * Store: crates/store/src/lib.rs. State is the file and how an operation reads and replaces it:
--     `transact` takes the lock, reads the file again, works on the snapshot and writes, or returns
--     before the write as some operations do. Sessions, Messages, Runs, Senders and Codes are the
--     operations; Steps, Affinity, Ids, Approvals, Pairings and Approved hold proofs. Another
--     process is another StateStore with the same file.
--   * Heartbeat: crates/heartbeat/src. Policy (policy.rs, visibility.rs), Hours (active_hours.rs),
--     Dedup (dedup.rs), Normalize (normalize.rs), Delivery (delivery.rs), Indicator (indicator.rs),
--     Outcome (the decisions of `run_once` in lib.rs) and Ticks (`resolve_tick_interval`). Stripped,
--     Quiet, Classified, Told, Decisions and Memory hold proofs.
--   * Session: crates/session/src/lib.rs, the keys of sessions; Keys holds the proofs.
--   * Queue: crates/queue/src/lib.rs. Queue has the envelope and the event made of it, Route the
--     routing stage of `process_claimed_file`, Retry `requeue_or_dead_letter`, and Context
--     `record_session_context`; Routed, Retries and Contexts hold the proofs. Names has the files'
--     names with their due times, Files the folders with `recover_processing_files` and
--     `scan_incoming_files`, and Handling `handle_file`; Files/Recovery, Files/Keeping and Files/Scans
--     hold proofs, and so do Handling/Outcomes, Handling/Trace (every history of the folders as steps
--     of a relation) and Handling/Conserved. Runs is `run_single_task`, Answer what follows the agent's
--     answer (handoffs, chatroom posts, the affinity it asks for), Outgoing the replies, and Metadata
--     `build_run_metadata_for_agent`; Ended, Depths, Rooms, Delivered, Entries and Runnable hold
--     the proofs.
--   * Plugins: crates/plugins/src/lib.rs, `run_transform_hooks`; Hooks holds the proof.
--   * Server: crates/server/src/lib.rs, the requests that change agents and teams: `mutate` is what the
--     handlers give to `mutate_config`. Staffed and Sound hold the proofs.
-- Base holds what these share: tests on numbers, results with a panic as a third case, hash maps as
-- the list of their entries in an arbitrary order, text, decimal digits and i64 (Decimal, Signed), maps with
-- different keys (Keys), and paths. Extern has the parameters for code of
-- other packages: the regex crate with the Unicode case tables, and chrono's RFC 3339 times with the
-- round trip that chrono documents. Samples and the modules called Tests apply the theorems.
--
-- Numbers are natural numbers. A u32 counter and a u64 product wrap as in a release build; the time
-- of a retry is the bits of an i64; identifiers in the store are integers, and one more than the
-- largest i64 is the smallest; durations there are i64 in the source and taken below 2^63. A time is
-- a number of nanoseconds (milliseconds in the queue) since an instant before all of them, and a call
-- reads the clock once. Texts of times are read back up to the year 9999, and the end of a lock is
-- chrono's sum of the time and the seconds as an i64, which may panic. Loops are recursive on the list they walk, on
-- the number of chain steps left, or on fuel: `failures` needs more fuel than retries are left, and
-- the digits of a number need no more rounds than the number.
--
-- Not modelled: the clients of the chat services, the processes of the model
-- providers and of plugins, and workspaces with the preamble made of their files, which are input and
-- output; of the HTTP server all but the requests on agents and teams; in the modelled parts the JSON
-- encoding (what serde writes it reads back), the lists made for display, poisoned locks, the
-- broadcast of events, the locks and limits under which the queue runs agents, and the log of its
-- events.
pub mod Base
pub mod Extern
pub mod Domain
mod Samples
pub mod Routing
pub mod Team
pub mod RunEvents
pub mod Config
pub mod Pairing
pub mod Store
pub mod Heartbeat
pub mod Session
pub mod Plugins
pub mod Queue
pub mod Server
