-- ===== src/Calendar.antt =====
-- Instants, days and weekly rules: packages/types/src/time.ts,
-- apps/api/src/common/availability-window.ts, and the interval functions of
-- apps/api/src/bookings/bookings.service.ts. An instant is its milliseconds since 1970-01-01T00:00Z.
-- The process runs in UTC, so `setHours`, `getDay`, `setMinutes` and `setDate` count UTC days.
pub mod Tomorrow
pub mod Rules
mod Tests
use pee_rahat.Prelude.{
  ℕ, zero, suc, ◌+◌, ◌-◌, ◌*◌, ◌/◌, ◌%◌, Bool, true, false, ◌&&◌, ltb, leb, ◌==◌, if◌then◌else◌,
  Option, none, some, List, [], ◌∷◌, ◌++◌, Result, ok, err, bad_request, ◌>>=◌, ◌>>◌, or_throw,
  throw_if,
}
use pee_rahat.Store.{TutorUnavailability}

abbrev pub minute_ms : ℕ
minute_ms = 60000

abbrev pub hour_ms : ℕ
hour_ms = 3600000

abbrev pub day_ms : ℕ
day_ms = 86400000

abbrev pub bangkok_offset_ms : ℕ
bangkok_offset_ms = 7 * hour_ms

-- Midnight that begins the next day of Bangkok: the offset is added, the time of the day is cleared,
-- the day is advanced, and the offset is taken off again.
unfoldable pub start_of_tomorrow_bangkok : ℕ → ℕ
start_of_tomorrow_bangkok now =
    let bkk_day = (now + bangkok_offset_ms) / day_ms in (bkk_day + 1) * day_ms - bangkok_offset_ms

abbrev pub max_window_ms : ℕ
max_window_ms = 31 * day_ms

-- `from` and `to` as `new Date` reads them; `none` is an invalid date.
unfoldable pub parse_availability_window : Option ℕ → Option ℕ → Result (ℕ × ℕ)
parse_availability_window from to = do
  from_date ← or_throw from bad_request
  to_date ← or_throw to bad_request
  throw_if (leb to_date from_date) bad_request
  throw_if (ltb max_window_ms (to_date - from_date)) bad_request
  ok (from_date, to_date)

-- Half-open intervals; touching edges do not overlap.
unfoldable pub intervals_overlap : ℕ → ℕ → ℕ → ℕ → Bool
intervals_overlap a_start a_end b_start b_end = ltb a_start b_end && ltb b_start a_end

pub record BusySlot : Type 0 where
  pub start : ℕ
  pub end : ℕ

-- `getDay` of the day with this number: 1970-01-01 was a Thursday.
abbrev pub weekday_of : ℕ → ℕ
weekday_of day = (day + 4) % 7

-- The interval that a rule implies on a day.
abbrev pub slot_on : ℕ → TutorUnavailability → BusySlot
slot_on day r = record {
  start = day * day_ms + r.start_minute * minute_ms;
  end = day * day_ms + r.end_minute * minute_ms;
}

-- The test `start < to && end > from`.
abbrev pub meets_window : ℕ → ℕ → BusySlot → Bool
meets_window from to s = ltb s.start to && ltb from s.end

-- The loop over the rules on one day.
day_slots : List TutorUnavailability → ℕ → ℕ → ℕ → List BusySlot
day_slots [] day from to = []
day_slots (r ∷ rs) day from to =
    let rest = day_slots rs day from to in
    if r.weekday == weekday_of day && meets_window from to (slot_on day r)
    then slot_on day r ∷ rest
    else rest

-- The loop over the days, on a bound for the days left.
expand_days : ℕ → List TutorUnavailability → ℕ → ℕ → ℕ → List BusySlot
expand_days zero rules day from to = []
expand_days (suc left) rules day from to =
    let rest = expand_days left rules (day + 1) from to in
    if ltb (day * day_ms) to then day_slots rules day from to ++ rest else []

unfoldable pub expand_weekly_rules : List TutorUnavailability → ℕ → ℕ → List BusySlot
unfolding expand_days day_slots
expand_weekly_rules [] from to = []
expand_weekly_rules (r ∷ rs) from to =
    let first = from / day_ms in expand_days (to / day_ms + 1 - first) (r ∷ rs) first from to
