-- ===== src/Queue/Handling/Tests.antt =====
-- The queue's folders at concrete inputs.
use clawpod.Base.{String, true, ◌&&◌, none, some, [], ◌∷◌, Map, contains, ok, err, ◌≡◌, refl, arith}
use clawpod.Base.Maps
use clawpod.Base.Decimal.{ℤ, pos, leb_int, i64_of}
use clawpod.Domain.Models.{QueueMode}
use clawpod.Domain.Core.{ChatType}
use clawpod.Queue.{EnqueueMessage, enqueued}
use clawpod.Queue.Names.{
  is_json, queued_file_name, parse_due_from_filename, parse_due_from_filename-queued_file_name,
}
use clawpod.Queue.Files.{
  Payload, readable, invalid, Folders, enqueue_message, scan_incoming_files, is_due,
  recover_processing_files,
}
use clawpod.Queue.Files.Scans.{IsOrdered, scan_incoming_files-IsOrdered}
use clawpod.Queue.Files.Recovery.{always, recover_processing_files_waits}
use clawpod.Queue.Handling.{Failing, claim, complete, handle_file}
use clawpod.Queue.Handling.Outcomes.{next_due, next_name, next_envelope, complete-waits}
use clawpod.Queue.Handling.Trace.{
  no_files, enqueues, claims, completes, Reach, start, later, entered,
}

abbrev hello_message : EnqueueMessage
hello_message = record {
  channel = "telegram";
  sender = "alice";
  sender_id = "alice_1";
  message = "hello";
  message_id = "m1";
  timestamp_ms = 1700000000000;
  chat_type = ChatType.direct;
  peer_id = "p";
  account_id = none;
  pre_routed_agent = none;
  from_agent = none;
  files = [];
  chain_depth = 0;
}

abbrev failing : Failing
failing = record {
  config = record {
    mode = QueueMode.collect;
    max_retries = 2;
    dead_letter_enabled = true;
    backoff_base_ms = 500;
  };
  disk = record { torn = none; moves = true };
  now = 1700000000100;
  simple = "bb";
  emitted = ok tt;
}

abbrev one_file : Folders
one_file = record {
  incoming = ("1700000000000_aa.json", readable (enqueued hello_message)) ∷ [];
  processing = [];
  dead_letters = [];
}

abbrev working : Folders
working = record {
  incoming = ("1700000009000_cc.json", invalid) ∷ [];
  processing = ("1700000000000_aa.json", readable (enqueued hello_message)) ∷ [];
  dead_letters = [];
}

names_agree : queued_file_name (pos 1700000000000) "aa" ≡ "1700000000000_aa.json"
unfolding queued_file_name
names_agree = refl

short_numbers_padded : queued_file_name (pos 5) "aa" ≡ "0000000000005_aa.json"
unfolding queued_file_name
short_numbers_padded = refl

-- A payload that is no envelope stays in processing.
invalid_stays : handle_file (λ e fs. (ok tt, fs)) failing "1700000009000_cc.json" working ≡ (
  err "invalid queue payload",
  record {
    incoming = [];
    processing =
        ("1700000000000_aa.json", readable (enqueued hello_message))
        ∷ ("1700000009000_cc.json", invalid)
        ∷ [];
    dead_letters = [];
  },
)
unfolding handle_file Maps.get Maps.remove Maps.insert
invalid_stays = refl

parse_due_from_filename-queued_file_name_example :
    (parse_due_from_filename (queued_file_name (pos 1700000000000) "aa") ≡ some (pos 1700000000000))
    × (is_json (queued_file_name (pos 1700000000000) "aa") ≡ true)
parse_due_from_filename-queued_file_name_example =
    parse_due_from_filename-queued_file_name (pos 1700000000000) "aa" (omega arith)

abbrev three_files : Map Payload
three_files =
    ("1700000009000_cc.json", invalid)
    ∷ ("notes.txt", invalid)
    ∷ ("1700000000000_aa.json", invalid)
    ∷ ("1700000001000_bb.json", invalid)
    ∷ []

scan_incoming_files-IsOrdered_example :
    ((name : String)
      → contains (scan_incoming_files (pos 1700000005000) three_files) name
        ≡ (Maps.contains_key three_files name && is_due (pos 1700000005000) name))
    × IsOrdered (scan_incoming_files (pos 1700000005000) three_files)
scan_incoming_files-IsOrdered_example =
    scan_incoming_files-IsOrdered (pos 1700000005000) three_files

scanned :
    scan_incoming_files (pos 1700000005000) three_files
    ≡ "1700000000000_aa.json" ∷ "1700000001000_bb.json" ∷ []
unfolding scan_incoming_files
scanned = refl

recover_processing_files_waits_example :
    let (result, after) = recover_processing_files always working in
    (result ≡ ok tt)
    × (Maps.get after.incoming "1700000000000_aa.json" ≡ some (readable (enqueued hello_message)))
    × (Maps.get after.processing "1700000000000_aa.json" ≡ none)
    × (contains (scan_incoming_files (pos 1700000000000) after.incoming) "1700000000000_aa.json"
        ≡ true)
    × ((other : String)
        → Maps.contains_key working.incoming other ≡ true
        → Maps.contains_key after.incoming other ≡ true)
unfolding is_due Maps.get
recover_processing_files_waits_example =
    recover_processing_files_waits working (pos 1700000000000) "1700000000000_aa.json"
      (readable (enqueued hello_message)) (tt, tt) refl refl

complete-waits_example :
    let after =
      (complete failing "1700000000000_aa.json" (enqueued hello_message) (err "boom") working).1 in
    (Maps.get after.incoming (next_name failing (enqueued hello_message))
      ≡ some (readable (next_envelope failing "boom" (enqueued hello_message))))
    × (Maps.get after.processing "1700000000000_aa.json" ≡ none)
    × ((t : ℤ)
        → contains
            (scan_incoming_files t after.incoming)
            (next_name failing (enqueued hello_message))
          ≡ leb_int (i64_of (next_due failing (enqueued hello_message))) t)
unfolding enqueued
complete-waits_example =
    complete-waits failing "1700000000000_aa.json" (enqueued hello_message) "boom" working refl refl
      refl

history : Reach one_file
unfolding enqueue_message queued_file_name Maps.insert Maps.get
history = later (start {fs = no_files} refl) (enqueues hello_message "aa" (refl, refl, refl) refl)

abbrev claimed : Folders
claimed = record {
  incoming = [];
  processing = ("1700000000000_aa.json", readable (enqueued hello_message)) ∷ [];
  dead_letters = [];
}

worked_on : Reach claimed
unfolding claim Maps.insert Maps.get Maps.remove
worked_on = later history (claims "1700000000000_aa.json" refl)

retried :
    Reach (complete failing "1700000000000_aa.json" (enqueued hello_message) (err "boom") claimed).1
unfolding Maps.get complete enqueued
retried = later worked_on (
    completes failing "1700000000000_aa.json" (enqueued hello_message) (err "boom") refl refl
      (refl, refl, refl) refl)

in_one_place : entered "m1" retried ≡ 1
unfolding entered retried worked_on history enqueued
in_one_place = refl
