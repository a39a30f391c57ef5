-- ===== src/Heartbeat/Dedup.antt =====
-- crates/heartbeat/src/dedup.rs: an alert that the session was sent within a day is not sent again.
use clawpod.Base.{
  ℕ, ◌+◌, ◌-◌, ◌*◌, ◌/◌, String, Bool, false, Option, none, some, ◌==◌, ltb, if◌then◌else◌,
}
use clawpod.Extern.{TimeLib}
use clawpod.Store.Records.{SessionSummary}

abbrev pub dedup_window_secs : ℕ
dedup_window_secs = 24 * 60 * 60

-- `signed_duration_since(..).num_seconds().abs()` of times in nanoseconds.
unfoldable pub elapsed_secs : ℕ → ℕ → ℕ
elapsed_secs now prev = ((now - prev) + (prev - now)) / 1000000000

module _ (time : TimeLib) where
  unfoldable pub within_window : String → String → Bool
  unfolding elapsed_secs
  within_window prev_sent_at now_rfc3339 = elim (time.parse_from_rfc3339 prev_sent_at) [
    | none ↦ false
    | some prev ↦ elim (time.parse_from_rfc3339 now_rfc3339) [
      | none ↦ false
      | some now ↦ ltb (elapsed_secs now prev) dedup_window_secs
    ]
  ]

  -- `is_duplicate_heartbeat`.
  unfoldable pub is_duplicate_heartbeat : Option SessionSummary → String → String → Bool
  unfolding within_window
  is_duplicate_heartbeat none current_text now_rfc3339 = false
  is_duplicate_heartbeat (some session) current_text now_rfc3339 =
      elim session.last_heartbeat_text [
        | none ↦ false
        | some prev_text ↦ elim session.last_heartbeat_sent_at [
          | none ↦ false
          | some prev_sent_at ↦
              if prev_text == current_text then within_window prev_sent_at now_rfc3339 else false
        ]
      ]
