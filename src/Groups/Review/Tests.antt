-- ===== src/Groups/Review/Tests.antt =====
-- Runs of the review of a group.
use pee_rahat.Prelude.{[], ◌∷◌}
use pee_rahat.Store.{GroupStatus, ParticipantStatus, Booking, Db}
use pee_rahat.Samples.{group_db, group_class, monday}
use pee_rahat.Groups.Review.{stamp_approval}

abbrev approved_class : Booking
approved_class = stamp_approval monday (group_class GroupStatus.tutor_review)

abbrev approved_db : Db
approved_db = record (group_db GroupStatus.tutor_review ParticipantStatus.accepted) {
  bookings = (10, approved_class) ∷ [];
}
