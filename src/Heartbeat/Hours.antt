-- ===== src/Heartbeat/Hours.antt =====
-- crates/heartbeat/src/active_hours.rs: the window of the day in which scheduled runs happen. A time
-- of day is the number of its seconds; the reading of "%H:%M" texts is chrono's and a parameter.
use clawpod.Base.{
  ℕ, ◌+◌, ◌*◌, ◌<◌, ◌%◌, ◌-◌, String, Bool, true, false, ◌&&◌, ◌||◌, Option, none, some, ltb, leb,
  nat_eq, ◌≡◌, ◌↔◌, ◌⊎◌, if◌then◌else◌, arith,
}
use clawpod.Domain.Beat.{ActiveHoursConfig}

-- `NaiveTime::from_hms_opt(hour, minute, 0)`, or midnight where that is none.
abbrev pub time_of_day : ℕ → ℕ → ℕ
time_of_day hour minute = if ltb hour 24 && ltb minute 60 then hour * 3600 + minute * 60 else 0

unfoldable pub in_window : ℕ → ℕ → ℕ → Bool
in_window start end current =
    if nat_eq start end
    then false
    else if ltb start end
    then leb start current && ltb current end
    else leb start current || ltb current end

module _ (parse : String → Option ℕ) where
  -- `is_within_active_hours_at`.
  unfoldable pub is_within_active_hours_at : Option ActiveHoursConfig → ℕ → ℕ → Bool
  is_within_active_hours_at none hour minute = true
  is_within_active_hours_at (some cfg) hour minute = elim (parse cfg.start) [
    | none ↦ true
    | some start ↦ elim (parse cfg.end) [
      | none ↦ true
      | some end ↦ in_window start end (time_of_day hour minute)
    ]
  ]

-- The seconds of a day.
abbrev pub day : ℕ
day = 86400

-- Between two different times of day the window is the half-open interval on the circle of the day,
-- over midnight too: a time is inside exactly when it comes after `start` by less than `end` does.
pub in_window_iff :
    (start end current : ℕ)
    → start < day
    → end < day
    → current < day
    → (in_window start end current ≡ true)
      ↔ ((current + day - start) % day < (end + day - start) % day)
unfolding in_window
in_window_iff start end current s e c = ground arith

-- The windows from `a` to `b` and from `b` to `a` split the day: outside one is inside the other.
pub in_window_swap :
    (a b current : ℕ)
    → (a < b) ⊎ (b < a)
    → (in_window a b current ≡ true) ↔ (in_window b a current ≡ false)
unfolding in_window
in_window_swap a b current h = ground arith
