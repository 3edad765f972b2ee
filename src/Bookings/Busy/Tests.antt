-- ===== src/Bookings/Busy/Tests.antt =====
-- Runs of the listing of busy intervals on the sample database.
use mathlib.Core.List.{Memᴰ}
use pee_rahat.Prelude.{◌≡◌, ◌≤◌, refl, false, none, [], ◌∷◌, find_where, arith}
use pee_rahat.Store.{TutorUnavailability}
use pee_rahat.Calendar.{expand_weekly_rules, intervals_overlap}
use pee_rahat.Samples.{moving_db}
use pee_rahat.Bookings.Overlap.{is_booking_hit, is_found, is_rule_hit, rules_of}
use pee_rahat.Bookings.Busy.{
  is_queried, busy_of, busy_of_all, collect_busy_for_user_id, list_busy_for_user,
}
use pee_rahat.Bookings.Busy.Covers.{collect_busy_covers}

-- The class itself; the slot that is proposed for it lies after this window.
busy_of_student :
    list_busy_for_user moving_db 101 1779753600000 1779840000000
    ≡ record { start = 1779764400000; end = 1779768000000 } ∷ []
unfolding list_busy_for_user collect_busy_for_user_id is_queried busy_of busy_of_all rules_of
    expand_weekly_rules
busy_of_student = refl

no_rules : (r : TutorUnavailability) → Memᴰ r (rules_of moving_db 1) → r.end_minute ≤ 1440
unfolding rules_of
no_rules r m = elim m [ ]

collect_busy_covers_example :
    (is_found (
        find_where (is_booking_hit moving_db 1 1779768000000 1779771600000 none) moving_db.bookings)
      ≡ false)
    × (is_rule_hit moving_db 1 1779768000000 1779771600000 ≡ false)
unfolding collect_busy_for_user_id is_queried busy_of busy_of_all rules_of expand_weekly_rules
    intervals_overlap
collect_busy_covers_example =
    collect_busy_covers moving_db 1 1779753600000 1779840000000 1779768000000 1779771600000
      (omega arith) (omega arith) no_rules refl
