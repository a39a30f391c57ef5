-- ===== src/Queue/Ended.antt =====
-- crates/queue/src/lib.rs: the record of a run says how it ended.
use mathlib.Core.Path.{subst}
use clawpod.Base.{
  ◌%◌, ◌^◌, String, true, Option, none, some, List, Map, length, Result, ok, err, panic, ◌≡◌, refl,
  ap, sym, ◌∙◌, eq_refl,
}
use clawpod.Base.Maps
use clawpod.Base.Maps.{get-insert, get-modify}
use clawpod.Domain.Core.{AgentConfig, RunEvent, RunResult}
use clawpod.Extern.{TextLib}
use clawpod.RunEvents
use clawpod.RunEvents.{mark_completed}
use clawpod.Store.Records.{StoreSnapshot, RunRecord}
use clawpod.Store.State.{StateStore, StateFile, refresh_locked, normalize_ids}
use clawpod.Store.Steps.{updating-saves, reading-ok, refresh_locked-holds}
use clawpod.Store.Runs.{
  RunStart, RunEnd, pending_run, ended, record_run_start, get_run, status_to_str,
}
use clawpod.Team.{response_of}
use clawpod.Queue.Runs.{
  Task, RunWorld, Memory, task_request, run_start, forward, run_succeeded, run_failed, after_end,
  finish_run, started_run, run_single_task,
}

-- The store after both records, and what it holds of the run.
module _ (start : RunStart) (begun : String) (s : StoreSnapshot) where
  abbrev first : StoreSnapshot
  first = record s { runs = Maps.insert s.runs start.run_id (pending_run start begun) }

  abbrev first_store : StateStore
  first_store = record { file = StateFile.holds first; snapshot = first }

  start_saved :
      (st : StateStore)
      → refresh_locked st ≡ ok s
      → record_run_start start begun true st ≡ (ok tt, first_store)
  unfolding record_run_start
  start_saved st read =
      updating-saves st s read
        (λ t. (tt, record t { runs = Maps.insert t.runs start.run_id (pending_run start begun) }))

  module _ (e : RunEnd) (finished : String) where
    abbrev second : StoreSnapshot
    second = record (normalize_ids first) {
      runs = Maps.modify (normalize_ids first).runs start.run_id (ended e finished);
    }

    abbrev second_store : StateStore
    second_store = record { file = StateFile.holds second; snapshot = second }

    held :
        (get_run start.run_id second_store).0
        ≡ ok (some (ended e finished (pending_run start begun)))
    unfolding get_run normalize_ids
    held =
        reading-ok second_store (normalize_ids second)
          (refresh_locked-holds second_store second refl) (λ t. Maps.get t.runs start.run_id)
        ∙ rw
            (
              get-modify (Maps.insert s.runs start.run_id (pending_run start begun)) start.run_id
                  (ended e finished) start.run_id,
              get-insert s.runs start.run_id (pending_run start begun) start.run_id,
              eq_refl start.run_id,
            )
            refl

-- How the record and the answer show the runner's result.
abbrev pub status_of : Result RunResult → String
status_of (ok run) = "succeeded"
status_of (err e) = "failed"
status_of (panic e) = "pending"

abbrev pub output_of : Result RunResult → Option String
output_of (ok run) = some run.text
output_of (err e) = none
output_of (panic e) = none

abbrev pub error_of : Result RunResult → Option String
error_of (ok run) = none
error_of (err e) = some e
error_of (panic e) = none

abbrev pub answer_of : Result RunResult → Result String
answer_of (ok run) = ok (response_of run)
answer_of (err e) = err e
answer_of (panic e) = panic e

abbrev pub HasAnswered : Result RunResult → Type 0
HasAnswered (ok run) = Unit
HasAnswered (err e) = Unit
HasAnswered (panic e) = ⊥

-- The record that a run leaves in the file.
pub record Tells (r : RunRecord) (events : List RunEvent) (out : Result RunResult) (now : String)
    : Type 0 where
  pub status : r.status ≡ status_of out
  pub output : r.output ≡ output_of out
  pub error : r.error ≡ error_of out
  pub event_count : r.event_count ≡ some (length events % 2 ^ 32)
  pub ended_at : r.ended_at ≡ some now

-- What run_single_task leaves after the runner's events and answer.
abbrev pub IsRecorded :
    RunWorld
    → RunEvents.RunEventBuffer
    → List RunEvent
    → Result RunResult
    → Result String × Memory
    → Type 0
IsRecorded w buffer events out (result, after) =
    (result ≡ answer_of out)
    × ((r : RunRecord) × ((get_run w.run_id after.store).0 ≡ ok (some r))
        × Tells r events out w.ended)
    × (after.events ≡ mark_completed w.run_id (forward events buffer))

module _ (lib : TextLib) (w : RunWorld) (task : Task) (agent : AgentConfig) (m : Memory)
    (s : StoreSnapshot) (events : List RunEvent) where
  abbrev begin_record : RunStart
  begin_record = run_start lib task.message_id (task_request w.run_id task agent)

  finish_run-IsRecorded :
      (out : Result RunResult)
      → HasAnswered out
      → w.end_writes ≡ true
      → IsRecorded w m.events events out (
          finish_run w events out
            (record { store = first_store begin_record w.started s; events = m.events }))
  unfolding finish_run after_end run_succeeded run_failed ended status_to_str run_start task_request
  finish_run-IsRecorded (ok run) h writes =
      rw (finish_run, writes)
        (
          refl,
          (
            _,
            held begin_record w.started s (run_succeeded events run) w.ended,
            record {
              status = refl;
              output = refl;
              error = refl;
              event_count = refl;
              ended_at = refl;
            },
          ),
          refl,
        )
  finish_run-IsRecorded (err e) h writes =
      rw (finish_run, writes)
        (
          refl,
          (
            _,
            held begin_record w.started s (run_failed events e) w.ended,
            record {
              status = refl;
              output = refl;
              error = refl;
              event_count = refl;
              ended_at = refl;
            },
          ),
          refl,
        )
  finish_run-IsRecorded (panic e) h writes = elim h [ ]

runs_agent :
    (lib : TextLib) (agents : Map AgentConfig) (w : RunWorld) (task : Task) (agent : AgentConfig)
    (m : Memory)
    → Maps.get agents task.agent_id ≡ some agent
    → run_single_task lib agents w task m
      ≡ started_run w (task_request w.run_id task agent) m.events (
          record_run_start
            (run_start lib task.message_id (task_request w.run_id task agent))
            w.started
            w.start_writes
            m.store)
unfolding run_single_task
runs_agent lib agents w task agent m known = rw (run_single_task, known) refl

runs_on :
    (lib : TextLib) (w : RunWorld) (task : Task) (agent : AgentConfig) (m : Memory)
    (s : StoreSnapshot) (events : List RunEvent) (out : Result RunResult)
    → w.run_streamed (task_request w.run_id task agent) ≡ (events, out)
    → let store = first_store (begin_record lib w task agent m s events) w.started s in
      started_run w (task_request w.run_id task agent) m.events (ok tt, store)
      ≡ finish_run w events out (record { store = store; events = m.events })
unfolding started_run
runs_on lib w task agent m s events out answers = rw (started_run, answers) refl

-- A run whose runner answers, with a result or with an error, leaves no open record where the state
-- file can be read and written: every process that reads the file finds the run as succeeded or
-- failed, with the output or the error, the number of its events and its end, and the run's events
-- count as complete. The caller gets the response or the error.
pub run_single_task-IsRecorded :
    (lib : TextLib) (agents : Map AgentConfig) (w : RunWorld) (task : Task) (agent : AgentConfig)
    (m : Memory) (s : StoreSnapshot) (events : List RunEvent) (out : Result RunResult)
    → Maps.get agents task.agent_id ≡ some agent
    → refresh_locked m.store ≡ ok s
    → w.start_writes ≡ true
    → w.end_writes ≡ true
    → w.run_streamed (task_request w.run_id task agent) ≡ (events, out)
    → HasAnswered out
    → IsRecorded w m.events events out (run_single_task lib agents w task m)
run_single_task-IsRecorded lib agents w task agent m s events out known read begins ends answers h =
    subst (IsRecorded w m.events events out)
      (sym (
        runs_agent lib agents w task agent m known
        ∙ ap (started_run w (task_request w.run_id task agent) m.events) (
            rw begins
              (start_saved (begin_record lib w task agent m s events) w.started s m.store read))
        ∙ runs_on lib w task agent m s events out answers))
      (finish_run-IsRecorded lib w task agent m s events out h ends)
