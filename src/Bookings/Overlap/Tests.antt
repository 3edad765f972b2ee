-- ===== src/Bookings/Overlap/Tests.antt =====
-- Runs of the overlap check on the sample database.
use pee_rahat.Prelude.{◌≡◌, refl, none, some, ok, err, conflict}
use pee_rahat.Calendar.{expand_weekly_rules}
use pee_rahat.Samples.{base_db, moving_db}
use pee_rahat.Bookings.Overlap.{
  assert_no_overlap, is_booking_hit, is_proposal_hit, rules_of, is_rule_hit,
}
use pee_rahat.Bookings.Overlap.Soundness.{IsFree, assert_no_overlap-IsFree}

base_db_free : assert_no_overlap base_db 1 1779764400000 60 none ≡ ok tt
unfolding assert_no_overlap rules_of is_rule_hit expand_weekly_rules
base_db_free = refl

-- The tutor's class at the same time is in the way, unless it is the one that moves.
moving_db_taken : assert_no_overlap moving_db 2 1779766200000 60 none ≡ err conflict
unfolding assert_no_overlap is_booking_hit
moving_db_taken = refl

moving_db_excluded : assert_no_overlap moving_db 2 1779766200000 60 (some 10) ≡ ok tt
unfolding assert_no_overlap is_booking_hit is_proposal_hit rules_of is_rule_hit expand_weekly_rules
moving_db_excluded = refl

assert_no_overlap-IsFree_example : IsFree moving_db 2 1779766200000 1779769800000 (some 10)
assert_no_overlap-IsFree_example =
    assert_no_overlap-IsFree moving_db 2 1779766200000 60 (some 10) moving_db_excluded
