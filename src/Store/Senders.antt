-- ===== src/Store/Senders.antt =====
-- crates/store/src/lib.rs: who may write to the agents, and the pairing that lets a sender in. A
-- clock gives the call's time `now`, in nanoseconds; its text is `lib.to_rfc3339 now`.
use clawpod.Base.{
  ℕ, ◌+◌, ◌%◌, ◌^◌, String, Bool, true, false, Option, none, some, [], ◌∷◌, ◌==◌, if◌then◌else◌,
  leb, ltb, and_then, option_map, format, Result, ok, panic,
}
use clawpod.Base.Decimal.{i64_of}
use clawpod.Base.Maps
use clawpod.Base.Text
use clawpod.Extern.{TextLib, TimeLib}
use clawpod.Pairing.{VerifyResult, verify_code, is_code_expired}
use clawpod.Store.Records.{StoreSnapshot, SenderAccessRecord, SenderAccessRegistration}
use clawpod.Store.State.{StateStore, transact, flatten, reading, updating}

-- `sender_access_key`.
unfoldable pub sender_access_key : String → String → String
sender_access_key channel sender_id = format (channel ∷ ":" ∷ sender_id ∷ [])

-- `normalize_optional_str`.
unfoldable pub normalize_optional_str : Option String → Option String
unfolding Text.trim
normalize_optional_str none = none
normalize_optional_str (some raw) =
    let trimmed = Text.trim raw in if Text.is_empty trimmed then none else some trimmed

abbrev pub is_approved_entry : Option SenderAccessRecord → Bool
is_approved_entry none = false
is_approved_entry (some entry) = entry.status == "approved"

-- `is_sender_approved`.
unfoldable pub is_sender_approved : String → String → StateStore → Result Bool × StateStore
unfolding reading sender_access_key
is_sender_approved channel sender_id =
    reading
      (λ s. is_approved_entry (Maps.get s.sender_access (sender_access_key channel sender_id)))

-- The arguments of `register_sender_access_request`.
pub record AccessRequest : Type 0 where
  pub channel : String
  pub sender_id : String
  pub sender_label : Option String
  pub peer_id : String
  pub account_id : Option String
  pub last_message_preview : Option String
  pub last_message_id : Option String

-- The entry of a sender who is new, and that of one who is known.
unfoldable pub new_entry : AccessRequest → String → SenderAccessRecord
unfolding sender_access_key normalize_optional_str
new_entry r now = record {
  key = sender_access_key r.channel r.sender_id;
  channel = r.channel;
  sender_id = r.sender_id;
  sender_label = normalize_optional_str r.sender_label;
  status = "pending";
  peer_id = r.peer_id;
  account_id = normalize_optional_str r.account_id;
  requested_at = now;
  updated_at = now;
  last_message_preview = normalize_optional_str r.last_message_preview;
  last_message_id = normalize_optional_str r.last_message_id;
  pairing_code = none;
  pairing_code_expires_at = none;
  failed_pairing_attempts = 0;
  locked_until = none;
}

unfoldable pub known_entry : AccessRequest → String → SenderAccessRecord → SenderAccessRecord
unfolding normalize_optional_str
known_entry r now entry = record entry {
  sender_label = normalize_optional_str r.sender_label;
  peer_id = r.peer_id;
  account_id = normalize_optional_str r.account_id;
  updated_at = now;
  last_message_preview = normalize_optional_str r.last_message_preview;
  last_message_id = normalize_optional_str r.last_message_id;
  status = if entry.status == "approved" then entry.status else "pending";
}

unfoldable pub registered :
    AccessRequest
    → String
    → Option SenderAccessRecord
    → SenderAccessRegistration × SenderAccessRecord
unfolding new_entry known_entry
registered r now none = (SenderAccessRegistration.pending_created, new_entry r now)
registered r now (some entry) = (
  if entry.status == "approved"
      then SenderAccessRegistration.approved
      else SenderAccessRegistration.pending_existing,
  known_entry r now entry,
)

-- `register_sender_access_request`.
unfoldable pub register_sender_access_request :
    AccessRequest → String → Bool → StateStore → Result SenderAccessRegistration × StateStore
unfolding updating registered sender_access_key
register_sender_access_request r now = updating (λ s.
    let key = sender_access_key r.channel r.sender_id in
    let done = registered r now (Maps.get s.sender_access key) in
    (done.0, record s { sender_access = Maps.insert s.sender_access key done.1 }))

-- What a verification does to the entry; `persisted` tells the returns after `persist_locked` from
-- those before it and from a panic, which leaves the file as it is.
pub record VerifyStep : Type 0 where
  pub result : Result VerifyResult
  pub entry : SenderAccessRecord
  pub persisted : Bool

module _ (time : TimeLib) where
  -- A time in a record, where it is one.
  abbrev pub time_of : Option String → Option ℕ
  time_of text = and_then text time.parse_from_rfc3339

  -- The first part of `verify_pairing_code`: an entry still locked, or the entry once the lock that
  -- has passed is taken off.
  unfoldable pub unlock : ℕ → SenderAccessRecord → Option SenderAccessRecord
  unlock now entry = elim (time_of entry.locked_until) [
    | none ↦ some entry
    | some locked_until ↦
        if ltb now locked_until
        then none
        else some (record entry { locked_until = none; failed_pairing_attempts = 0 })
  ]

  unfoldable pub is_expired : ℕ → SenderAccessRecord → Bool
  unfolding is_code_expired
  is_expired now entry = elim (time_of entry.pairing_code_expires_at) [
    | none ↦ false
    | some expires ↦ is_code_expired now expires
  ]

  unfoldable pub approve : ℕ → SenderAccessRecord → SenderAccessRecord
  approve now entry = record entry {
    status = "approved";
    pairing_code = none;
    pairing_code_expires_at = none;
    failed_pairing_attempts = 0;
    locked_until = none;
    updated_at = time.to_rfc3339 now;
  }

  -- A wrong code: the counter is a u32, and the lock ends `lockout_secs as i64` later, unless chrono
  -- panics.
  unfoldable pub counted : SenderAccessRecord → SenderAccessRecord
  counted entry = record entry {
    failed_pairing_attempts = (entry.failed_pairing_attempts + 1) % 2 ^ 32;
  }

  unfoldable pub count_failure : ℕ → ℕ → ℕ → SenderAccessRecord → Option SenderAccessRecord
  unfolding counted i64_of
  count_failure max_failed_attempts lockout_secs now entry =
      let failed = counted entry in
      if leb max_failed_attempts failed.failed_pairing_attempts
      then option_map
          (λ lockout_end. record failed {
            locked_until = some (time.to_rfc3339 lockout_end);
            updated_at = time.to_rfc3339 now;
          })
          (time.add_seconds now (i64_of lockout_secs))
      else some (record failed { updated_at = time.to_rfc3339 now })

  abbrev pub failed_step : SenderAccessRecord → Option SenderAccessRecord → VerifyStep
  failed_step entry none = record {
    result = panic "`DateTime + TimeDelta` overflowed";
    entry = counted entry;
    persisted = false;
  }
  failed_step entry (some failed) = record {
    result = ok VerifyResult.invalid_code;
    entry = failed;
    persisted = true;
  }

  module _ (lib : TextLib) (max_failed_attempts lockout_secs now : ℕ) (provided_code : String) where
    -- The part after the lock: the code is there, has not expired, and is the one provided.
    unfoldable pub check_code : SenderAccessRecord → VerifyStep
    unfolding is_expired approve count_failure verify_code
    check_code entry = elim entry.pairing_code [
      | none ↦ record { result = ok VerifyResult.invalid_code; entry = entry; persisted = false }
      | some stored_code ↦
          if is_expired now entry
          then record { result = ok VerifyResult.expired; entry = entry; persisted = false }
          else if verify_code lib provided_code stored_code
          then record {
            result = ok VerifyResult.approved;
            entry = approve now entry;
            persisted = true;
          }
          else failed_step entry (count_failure max_failed_attempts lockout_secs now entry)
    ]

    unfoldable pub verify_entry : SenderAccessRecord → VerifyStep
    unfolding unlock check_code
    verify_entry entry = elim (unlock now entry) [
      | none ↦ record { result = ok VerifyResult.locked_out; entry = entry; persisted = false }
      | some free ↦ check_code free
    ]

    -- `verify_pairing_code`, on the snapshot that it read.
    unfoldable pub verify_in :
        String → String → StoreSnapshot → Result VerifyResult × StoreSnapshot × Bool
    unfolding verify_entry sender_access_key
    verify_in channel sender_id s =
        let key = sender_access_key channel sender_id in
        elim (Maps.get s.sender_access key) [
          | none ↦ (ok VerifyResult.invalid_code, s, false)
          | some entry ↦
              let step = verify_entry entry in
              (
                step.result,
                record s { sender_access = Maps.insert s.sender_access key step.entry },
                step.persisted,
              )
        ]

    unfoldable pub verify_pairing_code :
        String → String → Bool → StateStore → Result VerifyResult × StateStore
    unfolding transact verify_in
    verify_pairing_code channel sender_id writes st =
        let done = transact (verify_in channel sender_id) writes st in (flatten done.0, done.1)

-- `update_sender_access_status`, with the record whose view it returns.
unfoldable pub update_sender_access_status :
    String
    → String
    → String
    → String
    → Bool
    → StateStore
    → Result (Option SenderAccessRecord) × StateStore
unfolding transact sender_access_key
update_sender_access_status channel sender_id status now = transact (λ s.
    let key = sender_access_key channel sender_id in
    elim (Maps.get s.sender_access key) [
      | none ↦ (none, s, false)
      | some entry ↦
          let updated = record entry { status = status; updated_at = now } in
          (some updated, record s { sender_access = Maps.insert s.sender_access key updated }, true)
    ])
