-- ===== src/Bookings/Create.antt =====
-- `BookingsService.create` (apps/api/src/bookings/bookings.service.ts). One call reads the clock
-- once. The isolation level is the database's: `aborted` says that it aborted the transaction on a
-- conflict with a concurrent one (P2034), which leaves nothing written.
pub mod Guards
pub mod Reservation
mod Tests
use pee_rahat.Prelude.{
  ℕ, ◌+◌, ◌*◌, ◌/◌, Bool, true, false, ◌&&◌, ◌||◌, not, ltb, ◌==◌, if◌then◌else◌, or_default,
  Option, none, some, List, [], ◌∷◌, find, fresh_id, Error, Result, ok, err, forbidden, not_found,
  bad_request, conflict,
}
use pee_rahat.Store.{
  BookingStatus, SessionType, GroupStatus, ParticipantRole, ParticipantStatus, NotificationType,
  is_group, User, TutorProfile, Booking, BookingParticipant, Db, Effect, notify, Action, ◌>>=◌,
  ◌>>◌, pure, raise, gets, reads, or_raise, raise_if, modify, transaction, emit, require_user,
  fanout_booking_change,
}
use pee_rahat.Calendar.{minute_ms, hour_ms, start_of_tomorrow_bangkok}
use pee_rahat.Bookings.Overlap.{assert_no_overlap}
use pee_rahat.Bookings.InviteCode.{generate_invite_code, clamp_invite_expiry}

pub record CreateBookingDto : Type 0 where
  pub tutor_id : ℕ
  pub subject : ℕ
  pub scheduled_at : ℕ
  pub duration_minutes : ℕ
  pub session_type : Option SessionType
  pub capacity : Option ℕ

abbrev pub group_min_capacity : ℕ
group_min_capacity = 2

abbrev pub group_max_capacity : ℕ
group_max_capacity = 10

abbrev pub manual_accept_deadline_hours : ℕ
manual_accept_deadline_hours = 24

abbrev pub min_booking_lead_minutes : ℕ
min_booking_lead_minutes = 0

abbrev pub session_type_of : CreateBookingDto → SessionType
session_type_of input = or_default input.session_type SessionType.one_on_one

abbrev pub capacity_of : CreateBookingDto → ℕ
capacity_of input =
    if is_group (session_type_of input) then or_default input.capacity group_min_capacity else 1

-- `Math.round(hourlyRate * (durationMinutes / 60) * capacity)`
unfoldable pub class_cost : ℕ → ℕ → ℕ → ℕ
class_cost hourly_rate duration_minutes capacity =
    (2 * (hourly_rate * duration_minutes * capacity) + 60) / 120

-- `suspendedUntil && suspendedUntil.getTime() > Date.now()`
abbrev pub is_suspended : ℕ → Option User → Bool
is_suspended now none = false
is_suspended now (some u) = elim u.suspended_until [ none ↦ false | some t ↦ ltb now t ]

-- The row that is inserted; the columns that it does not name have the schema's defaults.
unfoldable pub new_booking : ℕ → List ℕ → ℕ → TutorProfile → CreateBookingDto → Booking
new_booking now bytes user_id tutor input =
    let grouped = is_group (session_type_of input) in
    record {
      student_id = user_id;
      tutor_id = input.tutor_id;
      subject = input.subject;
      status = BookingStatus.requested;
      scheduled_at = input.scheduled_at;
      duration_minutes = input.duration_minutes;
      amount_thb = class_cost tutor.hourly_rate input.duration_minutes (capacity_of input);
      accept_deadline_at = now + manual_accept_deadline_hours * hour_ms;
      report_window_ends_at = none;
      session_ended_at = none;
      postpone_request_id = none;
      meeting_url = none;
      google_calendar_event_id = none;
      session_type = session_type_of input;
      capacity = capacity_of input;
      group_status = if grouped then some GroupStatus.forming else none;
      invite_code = if grouped then some (generate_invite_code bytes) else none;
      invite_expires_at =
          if grouped then some (clamp_invite_expiry now input.scheduled_at) else none;
      tutor_approved_at = none;
    }

unfoldable pub host_participant : ℕ → ℕ → ℕ → BookingParticipant
host_participant now booking_id user_id = record {
  booking_id = booking_id;
  student_id = user_id;
  role = ParticipantRole.host;
  status = ParticipantStatus.accepted;
  payment_intent_id = none;
  accepted_at = some now;
  paid_at = none;
}

-- The checks before the transaction; the result is the caller and the tutor.
unfoldable pub create_checks : ℕ → ℕ → CreateBookingDto → Action (ℕ × TutorProfile)
create_checks now supabase_id input = do
  user ← require_user supabase_id
  tutor ← or_raise (← gets (λ db. find input.tutor_id db.tutors)) not_found
  raise_if (tutor.user_id == user.0) forbidden
  raise_if (← gets (λ db. is_suspended now (find tutor.user_id db.users))) forbidden
  raise_if (ltb input.scheduled_at (now + min_booking_lead_minutes * minute_ms)) bad_request
  raise_if
      (is_group (session_type_of input)
        && (ltb (capacity_of input) group_min_capacity
            || ltb group_max_capacity (capacity_of input)))
      bad_request
  raise_if
      (is_group (session_type_of input) && ltb input.scheduled_at (start_of_tomorrow_bangkok now))
      bad_request
  pure (user.0, tutor)

-- The body of the transaction.
unfoldable pub create_rows : ℕ → List ℕ → ℕ → TutorProfile → CreateBookingDto → Action ℕ
create_rows now bytes user_id tutor input = do
  reads (λ db. assert_no_overlap db user_id input.scheduled_at input.duration_minutes none)
  reads (λ db. assert_no_overlap db tutor.user_id input.scheduled_at input.duration_minutes none)
  id ← gets (λ db. fresh_id db.bookings)
  modify (λ db. record db {
    bookings = (id, new_booking now bytes user_id tutor input) ∷ db.bookings;
    participants = (fresh_id db.participants, host_participant now id user_id) ∷ db.participants;
  })
  pure id

-- Group bookings have their own notifications.
abbrev pub notify_tutor : Bool → ℕ → Action (Unit {0})
notify_tutor true user = pure tt
notify_tutor false user = emit (notify user NotificationType.booking_requested)

unfoldable pub create : ℕ → List ℕ → Bool → ℕ → CreateBookingDto → Action ℕ
create now bytes aborted supabase_id input = do
  (user_id, tutor) ← create_checks now supabase_id input
  id ← transaction (raise_if aborted conflict >> create_rows now bytes user_id tutor input)
  notify_tutor (is_group (session_type_of input)) tutor.user_id
  fanout_booking_change id
  pure id
