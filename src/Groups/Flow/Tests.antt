-- ===== src/Groups/Flow/Tests.antt =====
-- Runs of the calls on a group.
use pee_rahat.Prelude.{◌+◌, ◌*◌, false, some, ◌≡◌, refl, find, none, List, [], ◌∷◌}
use pee_rahat.Store.{
  BookingStatus, fanout_booking_change, GroupStatus, ParticipantStatus, PaymentStatus, Booking,
}
use pee_rahat.Calendar.{hour_ms, expand_weekly_rules}
use pee_rahat.Bookings.Overlap.{
  assert_no_overlap, is_booking_hit, is_proposal_hit, is_rule_hit, rules_of,
}
use pee_rahat.Groups.Invite.{accept_invite, accept_open, accept_rows, should_move_to_tutor_review}
use pee_rahat.Groups.Review.{
  approve_group, approve_checks, on_participant_paid, confirm_if_approved, confirm_group,
}
use pee_rahat.Groups.Failure.{run_invite_expiry_sweep, is_invite_expired, fail_each}
use pee_rahat.Samples.{group_db, group_class, intent_with, monday}
use pee_rahat.Groups.Flow.Stranded.{paid_before_approval}
use pee_rahat.Groups.Flow.Calls.{GroupCall, accepting, approving, paying, expiry_sweep, run_calls}

-- The invited user accepts, the tutor approves and the host's payment is verified.
abbrev to_the_end : List GroupCall
to_the_end =
    accepting monday false 103 (b'G' ∷ b'1' ∷ [])
    ∷ approving monday 102 10
    ∷ paying monday false 40
    ∷ expiry_sweep monday
    ∷ []

-- That run confirms the group.
to_the_end-confirms :
    (run_calls to_the_end (group_db GroupStatus.forming ParticipantStatus.invited)).bookings
    ≡ (
      10,
      record (group_class GroupStatus.confirmed) {
        status = BookingStatus.paid;
        tutor_approved_at = some monday;
        report_window_ends_at = some (monday + 24 * hour_ms);
      },
    )
      ∷ []
unfolding run_calls accept_invite accept_open accept_rows fanout_booking_change approve_group
    approve_checks on_participant_paid confirm_if_approved confirm_group run_invite_expiry_sweep
    is_invite_expired fail_each should_move_to_tutor_review assert_no_overlap is_booking_hit
    is_proposal_hit is_rule_hit expand_weekly_rules rules_of
to_the_end-confirms = refl

paid_before_approval_example :
    let db = group_db GroupStatus.tutor_review ParticipantStatus.accepted in
    let db1 = (on_participant_paid monday false 40 db).1 in
    let db2 = (approve_group monday 102 10 db1).1 in
    (b' : Booking) × (find 10 db2.bookings ≡ some b')
    × (b'.group_status ≡ some GroupStatus.tutor_review)
    × (b'.status ≡ BookingStatus.requested)
paid_before_approval_example =
    paid_before_approval monday monday false 102 40 10
      (intent_with PaymentStatus.held_in_escrow none none) (group_class GroupStatus.tutor_review)
      (group_db GroupStatus.tutor_review ParticipantStatus.accepted) refl refl refl refl
