-- ===== src/Calendar/Tomorrow.antt =====
-- `startOfTomorrowBangkok` of packages/types/src/time.ts against the midnights of Bangkok.
use pee_rahat.Prelude.{ℕ, ◌+◌, ◌%◌, ◌≤◌, ◌<◌, ◌≡◌, arith}
use pee_rahat.Calendar.{start_of_tomorrow_bangkok, bangkok_offset_ms, day_ms}

-- A midnight of Bangkok, as an instant.
abbrev pub IsBangkokMidnight : ℕ → Type 0
IsBangkokMidnight t = (t + bangkok_offset_ms) % day_ms ≡ 0

-- The result is a midnight of Bangkok after `now`, by at most 24 hours, and every other midnight of
-- Bangkok after `now` is not earlier.
start_of_tomorrow_bangkok_least :
    (now : ℕ)
    → IsBangkokMidnight (start_of_tomorrow_bangkok now)
      × (now < start_of_tomorrow_bangkok now)
      × (start_of_tomorrow_bangkok now ≤ now + day_ms)
      × ((t : ℕ) → now < t → IsBangkokMidnight t → start_of_tomorrow_bangkok now ≤ t)
unfolding start_of_tomorrow_bangkok
start_of_tomorrow_bangkok_least now =
    (omega arith, omega arith, omega arith, λ t after midnight. omega arith)
