-- ===== src/Store/State.antt =====
-- crates/store/src/lib.rs: the snapshot in memory, the file, and how an operation uses both: it
-- takes the lock, reads the file again, works on the snapshot, and replaces the file. What serde
-- writes it reads back, so a file of the program's own holds a snapshot.
use clawpod.Base.{Bool, true, false, not, [], map, if◌then◌else◌, Result, ok, err, panic}
use clawpod.Base.Decimal.{pos}
use clawpod.Base.Maps
use clawpod.Base.Signed.{largest}
use clawpod.Base.Text
use clawpod.Store.Records.{StoreSnapshot}

-- What reading the path gives.
pub data StateFile : Type 0 where
  missing : StateFile
  unreadable : StateFile
  unparsable : StateFile
  blank : StateFile
  holds : StoreSnapshot → StateFile

-- A process's store: the file, which the processes share, and this process's snapshot.
pub record StateStore : Type 0 where
  pub file : StateFile
  pub snapshot : StoreSnapshot

-- `StoreSnapshot::default`.
abbrev pub default_snapshot : StoreSnapshot
default_snapshot = record {
  runs = [];
  chain_steps = [];
  chatroom_messages = [];
  heartbeat_runs = [];
  events = [];
  sessions = [];
  sender_access = [];
  routing_affinity = [];
  next_event_id = pos 0;
  next_chatroom_message_id = pos 0;
  next_heartbeat_run_id = pos 0;
}

-- `normalize_ids`.
unfoldable pub normalize_ids : StoreSnapshot → StoreSnapshot
normalize_ids s = record s {
  next_event_id = largest (map (λ r. r.id) s.events);
  next_chatroom_message_id = largest (map (λ r. r.id) s.chatroom_messages);
  next_heartbeat_run_id = largest (map (λ r. r.id) s.heartbeat_runs);
}

-- `remove_orphaned_runs`.
unfoldable pub remove_orphaned_runs : StoreSnapshot → StoreSnapshot
unfolding Maps.retain
remove_orphaned_runs s = record s {
  runs = Maps.retain (λ key run. not (Text.is_empty run.session_key)) s.runs;
}

-- `refresh_locked`, the snapshot in memory after it.
unfoldable pub refreshed : StateFile → StoreSnapshot → Result StoreSnapshot
unfolding normalize_ids
refreshed missing snapshot = ok snapshot
refreshed unreadable snapshot = err "failed to read state file"
refreshed unparsable snapshot = err "failed to parse state file"
refreshed blank snapshot = ok default_snapshot
refreshed (holds s) snapshot = ok (normalize_ids s)

unfoldable pub refresh_locked : StateStore → Result StoreSnapshot
unfolding refreshed
refresh_locked st = refreshed st.file st.snapshot

-- `persist_locked`; `writes` says whether writing the temporary file and renaming it succeed. The
-- rename replaces the file at once, so a failure leaves the old one.
unfoldable pub persist_locked : Bool → StateStore → Result (Unit {0}) × StateStore
persist_locked true st = (ok tt, record st { file = holds st.snapshot })
persist_locked false st = (err "failed to write state file", st)

module _ {ℓ} {A : Type ℓ} where
  abbrev answer : Result (Unit {0}) → A → Result A
  answer (ok u) a = ok a
  answer (err e) a = err e
  answer (panic e) a = panic e

  -- An operation that only reads.
  unfoldable pub reading : (StoreSnapshot → A) → StateStore → Result A × StateStore
  unfolding refresh_locked
  reading f st = elim (refresh_locked st) [
    | ok s ↦ (ok (f s), record st { snapshot = s })
    | err e ↦ (err e, st)
    | panic e ↦ (panic e, st)
  ]

  -- An operation that works on the snapshot and then replaces the file, or returns before that.
  unfoldable pub transact :
      (StoreSnapshot → A × StoreSnapshot × Bool) → Bool → StateStore → Result A × StateStore
  unfolding refresh_locked persist_locked
  transact f writes st = elim (refresh_locked st) [
    | err e ↦ (err e, st)
    | panic e ↦ (panic e, st)
    | ok s ↦
        let (a, after, persists) = f s in
        let done = record st { snapshot = after } in
        if persists
        then (let saved = persist_locked writes done in (answer saved.0 a, saved.1))
        else (ok a, done)
  ]

  -- A work on the snapshot may itself panic.
  abbrev pub flatten : Result (Result A) → Result A
  flatten (ok r) = r
  flatten (err e) = err e
  flatten (panic e) = panic e

  -- An operation that always replaces the file.
  unfoldable pub updating :
      (StoreSnapshot → A × StoreSnapshot) → Bool → StateStore → Result A × StateStore
  unfolding transact
  updating f = transact (λ s. let (a, after) = f s in (a, after, true))

-- `StateStore::new`, with what it found at the path.
unfoldable pub new : Bool → StateFile → Result StateStore
unfolding normalize_ids remove_orphaned_runs refresh_locked persist_locked
new writes file = elim (refresh_locked (record { file = file; snapshot = default_snapshot })) [
  | err e ↦ err e
  | panic e ↦ panic e
  | ok s ↦
      let saved =
        persist_locked writes
          (record { file = file; snapshot = remove_orphaned_runs (normalize_ids s) }) in
      answer saved.0 saved.1
]
