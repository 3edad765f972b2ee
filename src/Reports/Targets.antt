-- ===== src/Reports/Targets.antt =====
-- What a report is about: apps/api/src/reports/target-resolver.service.ts. Of the context, what the
-- filing of a report reads.
use pee_rahat.Prelude.{ℕ, Bool, true, false, Option, none, some, List, [], ◌∷◌, find}
use pee_rahat.Store.{
  BookingStatus, ReportTarget, TutorProfile, Booking, ChatThread, ChatMessage, Db,
}

pub data ReportTargetContext : Type 0 where
  missing : ReportTargetContext
  booking : BookingStatus → ℕ → ReportTargetContext
  chat_message : Bool → ReportTargetContext
  other_content : ReportTargetContext

pub record TargetResolution : Type 0 where
  pub exists : Bool
  pub owner_user_ids : List ℕ
  pub context : ReportTargetContext
  pub booking_id : Option ℕ

abbrev pub missing_target : TargetResolution
missing_target = record {
  exists = false;
  owner_user_ids = [];
  context = ReportTargetContext.missing;
  booking_id = none;
}

-- A required relation has its row; without one the client library throws, and here nothing is found.
abbrev of_booking : ℕ → Booking → Option TutorProfile → TargetResolution
of_booking k b none = missing_target
of_booking k b (some t) = record {
  exists = true;
  owner_user_ids = b.student_id ∷ t.user_id ∷ [];
  context = ReportTargetContext.booking b.status b.scheduled_at;
  booking_id = some k;
}

abbrev of_message : ChatMessage → Option ChatThread → TargetResolution
of_message m none = missing_target
of_message m (some thread) = record {
  exists = true;
  owner_user_ids = m.author_id ∷ [];
  context = ReportTargetContext.chat_message m.redacted;
  booking_id = thread.booking_id;
}

abbrev of_content : ℕ → Option ℕ → TargetResolution
of_content owner booking_id = record {
  exists = true;
  owner_user_ids = owner ∷ [];
  context = ReportTargetContext.other_content;
  booking_id = booking_id;
}

abbrev of_sheet : Option TutorProfile → TargetResolution
of_sheet none = missing_target
of_sheet (some seller) = of_content seller.user_id none

unfoldable pub resolve : ReportTarget → ℕ → Db → TargetResolution
resolve ReportTarget.booking id db = elim (find id db.bookings) [
  | none ↦ missing_target
  | some b ↦ of_booking id b (find b.tutor_id db.tutors)
]
resolve ReportTarget.chat_message id db = elim (find id db.messages) [
  | none ↦ missing_target
  | some m ↦ of_message m (find m.thread_id db.threads)
]
resolve ReportTarget.sheet id db = elim (find id db.sheets) [
  | none ↦ missing_target
  | some s ↦ of_sheet (find s.seller_id db.tutors)
]
resolve ReportTarget.review id db = elim (find id db.reviews) [
  | none ↦ missing_target
  | some v ↦ of_content v.student_id (some v.booking_id)
]
resolve ReportTarget.community_post id db = elim (find id db.posts) [
  | none ↦ missing_target
  | some p ↦ of_content p.author_id none
]
