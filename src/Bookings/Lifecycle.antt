-- ===== src/Bookings/Lifecycle.antt =====
-- The calls of `BookingsService` (apps/api/src/bookings/bookings.service.ts) that move one booking:
-- `cancelByStudent`, `rejectByTutor`, `accept`, `endSession` and `report`. Each is its checks, which
-- only read, followed by its writes and announcements.
pub mod Outcome
mod Tests
use pee_rahat.Prelude.{
  ℕ, ◌+◌, ◌*◌, Bool, true, false, not, ltb, ◌==◌, if◌then◌else◌, is_some, Option, none, some, List,
  [], ◌∷◌, ◌++◌, find, find_first, fresh_id, update, forbidden, not_found, bad_request, missing_row,
}
use pee_rahat.Store.{
  BookingStatus, PaymentStatus, ReportTarget, ReportCategory, ReportStatus, ReportPriority,
  NotificationType, is_group, TutorProfile, Booking, PaymentIntent, Db, Effect, notify, Action,
  ◌>>=◌, ◌>>◌, pure, gets, or_raise, raise_if, modify, transaction, update_booking, update_intent,
  require_user, fanout_booking_change,
}
use pee_rahat.Calendar.{hour_ms}
use pee_rahat.Bookings.Overlap.{end_of}

abbrev pub load_booking : ℕ → Action Booking
load_booking k = do or_raise (← gets (λ db. find k db.bookings)) not_found

-- The tutor's profile that a query includes with the booking.
abbrev pub load_tutor : Booking → Action TutorProfile
load_tutor b = do or_raise (← gets (λ db. find b.tutor_id db.tutors)) missing_row

abbrev pub is_unpaid : BookingStatus → Bool
is_unpaid BookingStatus.requested = true
is_unpaid BookingStatus.accepted = true
is_unpaid _ = false

abbrev pub is_requested : BookingStatus → Bool
is_requested BookingStatus.requested = true
is_requested _ = false

abbrev pub is_paid_or_completed : BookingStatus → Bool
is_paid_or_completed BookingStatus.paid = true
is_paid_or_completed BookingStatus.completed = true
is_paid_or_completed _ = false

-- A change of the booking, the notifications, and the news to everyone concerned.
unfoldable pub commit : ℕ → (Booking → Booking) → List Effect → Action (Unit {0})
commit k f notes = do
  update_booking k f
  modify (λ db. record db { effects = notes ++ db.effects })
  fanout_booking_change k

abbrev pub set_status : BookingStatus → Booking → Booking
set_status s b = record b { status = s }

unfoldable pub cancel_checks : ℕ → ℕ → Action Booking
cancel_checks supabase_id k = do
  user ← require_user supabase_id
  b ← load_booking k
  raise_if (not (b.student_id == user.0)) forbidden
  raise_if (is_group b.session_type) bad_request
  raise_if (not (is_unpaid b.status)) bad_request
  pure b

unfoldable pub cancel_by_student : ℕ → ℕ → Action (Unit {0})
cancel_by_student supabase_id k = do
  b ← cancel_checks supabase_id k
  commit k (set_status BookingStatus.cancelled_by_student) []

unfoldable pub reject_checks : ℕ → ℕ → Action Booking
reject_checks supabase_id k = do
  user ← require_user supabase_id
  b ← load_booking k
  t ← load_tutor b
  raise_if (not (t.user_id == user.0)) forbidden
  raise_if (is_group b.session_type) bad_request
  raise_if (not (is_requested b.status)) bad_request
  pure b

unfoldable pub reject_by_tutor : ℕ → ℕ → Action (Unit {0})
reject_by_tutor supabase_id k = do
  b ← reject_checks supabase_id k
  commit k (set_status BookingStatus.rejected)
      (notify b.student_id NotificationType.booking_rejected ∷ [])

unfoldable pub accept_checks : ℕ → ℕ → Action Booking
accept_checks supabase_id k = do
  user ← require_user supabase_id
  b ← load_booking k
  t ← load_tutor b
  raise_if (not (t.user_id == user.0)) forbidden
  raise_if (not (is_requested b.status)) bad_request
  raise_if (is_group b.session_type) bad_request
  pure b

unfoldable pub accept : ℕ → ℕ → Action (Unit {0})
accept supabase_id k = do
  b ← accept_checks supabase_id k
  commit k (set_status BookingStatus.accepted)
      (notify b.student_id NotificationType.booking_accepted ∷ [])

unfoldable pub end_checks : ℕ → ℕ → ℕ → Action Booking
end_checks now supabase_id k = do
  user ← require_user supabase_id
  b ← load_booking k
  t ← load_tutor b
  raise_if (not (t.user_id == user.0)) forbidden
  raise_if (not (is_paid_or_completed b.status)) bad_request
  raise_if (ltb now (end_of b)) bad_request
  pure b

abbrev pub set_session_ended : ℕ → Booking → Booking
set_session_ended now b = record b { session_ended_at = some now }

-- Idempotent: a class that is closed keeps its first timestamp.
unfoldable pub close_class : ℕ → ℕ → Booking → Action (Unit {0})
close_class now k b = elim b.session_ended_at [
  | some first ↦ pure tt
  | none ↦
      commit k (set_session_ended now)
        (notify b.student_id NotificationType.booking_meeting_ready ∷ [])
]

unfoldable pub end_session : ℕ → ℕ → ℕ → Action (Unit {0})
end_session now supabase_id k = do b ← end_checks now supabase_id k; close_class now k b

-- `!reportWindowEndsAt || reportWindowEndsAt.getTime() < Date.now()`
abbrev pub is_window_shut : ℕ → Option ℕ → Bool
is_window_shut now none = true
is_window_shut now (some t) = ltb t now

unfoldable pub report_checks : ℕ → ℕ → ℕ → Action ℕ
report_checks now supabase_id k = do
  user ← require_user supabase_id
  b ← load_booking k
  raise_if (not (b.student_id == user.0)) forbidden
  raise_if (is_window_shut now b.report_window_ends_at) bad_request
  pure user.0

abbrev pub belongs_to : ℕ → PaymentIntent → Bool
belongs_to k i = elim i.booking_id [ none ↦ false | some j ↦ j == k ]

-- `booking.paymentIntent`: the intent whose `bookingId` is the booking's.
abbrev pub intent_of : Db → ℕ → Option (ℕ × PaymentIntent)
intent_of db k = find_first (λ _ i. belongs_to k i) db.intents

abbrev pub is_held : PaymentStatus → Bool
is_held PaymentStatus.held_in_escrow = true
is_held _ = false

abbrev pub set_intent_status : PaymentStatus → PaymentIntent → PaymentIntent
set_intent_status s i = record i { status = s }

-- Only an escrow that still holds is frozen.
unfoldable pub freeze_held : Option (ℕ × PaymentIntent) → Action (Unit {0})
freeze_held none = pure tt
freeze_held (some (id, i)) =
    if is_held i.status
    then update_intent id (set_intent_status PaymentStatus.disputed)
    else pure tt

unfoldable pub report : ℕ → ℕ → ℕ → Action (Unit {0})
report now supabase_id k = do
  user_id ← report_checks now supabase_id k
  intent ← gets (λ db. intent_of db k)
  modify (λ db. record db {
    reports =
        (
          fresh_id db.reports,
          record {
            reporter_id = user_id;
            target_type = ReportTarget.booking;
            target_id = k;
            target_user_id = none;
            category = ReportCategory.other;
            status = ReportStatus.pending;
            priority = ReportPriority.normal;
            sla_deadline = now + 48 * hour_ms;
            assigned_to_id = none;
            resolved_at = none;
            resolution = none;
            linked_booking_id = some k;
            parent_report_id = none;
            evidence_keys = [];
            created_at = now;
          },
        )
        ∷ db.reports;
  })
  freeze_held intent
  update_booking k (set_status BookingStatus.reported)
