-- ===== src/Postpone/Tests.antt =====
-- Runs of the negotiation about the sample class.
use pee_rahat.Prelude.{ℕ, ◌≡◌, refl, true, false, some, none, find, ok, Error, ◌⊎◌, err}
use pee_rahat.Calendar.{expand_weekly_rules}
use pee_rahat.Store.{
  BookingStatus, Booking, RefundLedger, PaymentIntent, PaymentStatus, Db, fanout_booking_change,
}
use pee_rahat.Samples.{
  base_db, base_db-NoDoubleBooking, moving_db, moving_class, open_request, intent_with,
  default_policy, monday,
}
use pee_rahat.Bookings.Overlap.{
  assert_no_overlap, is_booking_hit, is_proposal_hit, rules_of, is_rule_hit,
}
use pee_rahat.Bookings.Exclusive.{NoDoubleBooking, NoDoubleBooking-insert}
use pee_rahat.Bookings.Lifecycle.{is_window_shut}
use pee_rahat.Payments.Release.{is_releasable}
use pee_rahat.Postpone.Requests.{load_participant, load_active_request}
use pee_rahat.Postpone.Confirm.{confirm, confirm_checks}
use pee_rahat.Postpone.Resolve.{
  not_answered, apply_resolution, resolve_timeout, resolve_open, is_engaged,
}
use pee_rahat.Postpone.Settlement.{IsSettled, apply_resolution-IsSettled}
use pee_rahat.Postpone.Moved.{IsMoved, confirm-IsMoved, confirm-NoDoubleBooking}
use pee_rahat.Money.RefundPolicy.{compute_split}
use pee_rahat.Postpone.Once.{resolve_timeout_twice}
use pee_rahat.Postpone.Stranded.{confirm_strands}

moving_db-NoDoubleBooking : NoDoubleBooking moving_db
moving_db-NoDoubleBooking =
    NoDoubleBooking-insert base_db moving_db refl 10 moving_class refl
      (λ u j c ne found live i i'. absurd (cc)) base_db-NoDoubleBooking

abbrev moved_db : Db
moved_db = (confirm monday 102 10 moving_db).1

confirm_moves : confirm monday 102 10 moving_db ≡ (ok 11, moved_db)
unfolding confirm confirm_checks load_active_request load_participant assert_no_overlap
    is_booking_hit is_proposal_hit rules_of is_rule_hit expand_weekly_rules fanout_booking_change
confirm_moves = refl

confirm-NoDoubleBooking_example : NoDoubleBooking moved_db
confirm-NoDoubleBooking_example =
    confirm-NoDoubleBooking monday 102 10 moving_db moving_db-NoDoubleBooking

confirm-IsMoved_example :
    ((id : ℕ) × (db' : Db) × (confirm monday 102 10 moving_db ≡ (ok id, db'))
      × IsMoved monday 102 10 moving_db db' id)
    ⊎ ((e : Error) × (confirm monday 102 10 moving_db ≡ (err e, moving_db)))
confirm-IsMoved_example = confirm-IsMoved monday 102 10 moving_db

confirm_strands_example :
    (c : Booking) × (find 11 moved_db.bookings ≡ some c)
    × (c.status ≡ BookingStatus.paid)
    × (is_releasable 1789764400000 moved_db 11 c ≡ false)
    × (is_window_shut 1789764400000 c.report_window_ends_at ≡ true)
confirm_strands_example =
    confirm_strands monday 102 10 11 1789764400000 moving_db moved_db moved_db confirm_moves

apply_resolution-IsSettled_example :
    (db' : Db) × (left : PaymentIntent) × (l : RefundLedger) × (apply_resolution default_policy
        monday 10 moving_class 20 open_request not_answered 1 moving_db
      ≡ (ok tt, db'))
    × IsSettled 10 20 40 not_answered
        (intent_with PaymentStatus.held_in_escrow none none)
        moving_db
        db'
        left
        l
apply_resolution-IsSettled_example =
    apply_resolution-IsSettled default_policy monday 10 moving_class 20 open_request not_answered 1
      40 (intent_with PaymentStatus.held_in_escrow none none) moving_db refl refl

-- The tutor has not answered within two hours: the student's request is resolved, and 300 baht go back.
abbrev timed_out_db : Db
timed_out_db = (resolve_timeout default_policy 1779685200000 20 moving_db).1

first_timeout : resolve_timeout default_policy 1779685200000 20 moving_db ≡ (ok tt, timed_out_db)
unfolding resolve_timeout resolve_open is_engaged apply_resolution compute_split
    fanout_booking_change
first_timeout = refl

resolve_timeout_twice_example :
    resolve_timeout default_policy 1779685300000 20 timed_out_db ≡ (ok tt, timed_out_db)
resolve_timeout_twice_example =
    resolve_timeout_twice default_policy 1779685200000 1779685300000 20 moving_db timed_out_db
      first_timeout
