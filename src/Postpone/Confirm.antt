-- ===== src/Postpone/Confirm.antt =====
-- `PostponeService.confirm` (apps/api/src/bookings/postpone.service.ts): the class moves to the proposed
-- slot, as a new booking that takes over the escrow.
use pee_rahat.Prelude.{
  ℕ, ◌==◌, if◌then◌else◌, Option, none, some, List, [], ◌∷◌, ◌++◌, fresh_id, update, forbidden,
  bad_request,
}
use pee_rahat.Money.RefundPolicy.{agreed}
use pee_rahat.Store.{
  BookingStatus, SessionType, PostponeStatus, Booking, Db, Effect, system_message, close_thread,
  cancel_timeout, delete_event, attach_to_booking, Action, ◌>>=◌, ◌>>◌, pure, gets, reads, or_raise,
  raise_if, modify, fanout_booking_change,
}
use pee_rahat.Bookings.Overlap.{assert_no_overlap}
use pee_rahat.Bookings.Lifecycle.{intent_of}
use pee_rahat.Postpone.Requests.{ActiveRequest, load_active_request}

-- A slot as it was proposed: `!request.proposedAt || !request.proposedDuration` is no slot, a duration
-- of 0 included.
pub record Proposal : Type 0 where
  pub at : ℕ
  pub minutes : ℕ

abbrev pub proposal_of : Option ℕ → Option ℕ → Option Proposal
proposal_of (some at) (some minutes) =
    if minutes == 0 then none else some (record { at = at; minutes = minutes })
proposal_of _ _ = none

-- The clone; what it does not name has the schema's default, `reportWindowEndsAt` and the session type
-- included.
unfoldable pub moved_booking : Booking → Proposal → Booking
moved_booking b s = record {
  student_id = b.student_id;
  tutor_id = b.tutor_id;
  subject = b.subject;
  status = BookingStatus.paid;
  scheduled_at = s.at;
  duration_minutes = s.minutes;
  amount_thb = b.amount_thb;
  accept_deadline_at = s.at;
  report_window_ends_at = none;
  session_ended_at = none;
  postpone_request_id = none;
  meeting_url = none;
  google_calendar_event_id = none;
  session_type = SessionType.one_on_one;
  capacity = 1;
  group_status = none;
  invite_code = none;
  invite_expires_at = none;
  tutor_approved_at = none;
}

abbrev pub mark_postponed : Booking → Booking
mark_postponed b = record b {
  status = BookingStatus.postponed;
  meeting_url = none;
  google_calendar_event_id = none;
}

-- The writes of the transaction, with the id of the intent that it moves.
unfoldable pub move_rows : ℕ → ℕ → ActiveRequest → Proposal → ℕ → Db → Db
move_rows now k a s intent_id db =
    let id = fresh_id db.bookings in
    record db {
      requests =
          update a.request_id
            (λ r. record r {
              status = PostponeStatus.agreed;
              resolved_as = some agreed;
              resolved_at = some now;
            })
            db.requests;
      intents = update intent_id (λ i. record i { booking_id = some id }) db.intents;
      bookings = update k mark_postponed ((id, moved_booking a.booking s) ∷ db.bookings);
    }

abbrev pub calendar_effects : ℕ → Option ℕ → List Effect
calendar_effects tutor_id none = []
calendar_effects tutor_id (some event) = delete_event tutor_id event ∷ []

-- The checks before the transaction.
unfoldable pub confirm_checks : ℕ → ℕ → Action (ActiveRequest × Proposal)
confirm_checks supabase_id k = do
  a ← load_active_request supabase_id k
  s ← or_raise (proposal_of a.request.proposed_at a.request.proposed_duration) bad_request
  raise_if (a.request.initiator_id == a.user_id) forbidden
  reads (λ db. assert_no_overlap db a.booking.student_id s.at s.minutes (some k))
  reads (λ db. assert_no_overlap db a.tutor.user_id s.at s.minutes (some k))
  pure (a, s)

-- The transaction throws, and writes nothing, if the booking has no intent.
unfoldable pub confirm : ℕ → ℕ → ℕ → Action ℕ
confirm now supabase_id k = do
  (a, s) ← confirm_checks supabase_id k
  id ← gets (λ db. fresh_id db.bookings)
  intent ← or_raise (← gets (λ db. intent_of db k)) bad_request
  modify (move_rows now k a s intent.0)
  modify (λ db. record db {
    effects =
        (attach_to_booking id
          ∷ calendar_effects a.booking.tutor_id a.booking.google_calendar_event_id)
        ++ cancel_timeout a.request_id ∷ close_thread k ∷ system_message k a.user_id ∷ db.effects;
  })
  fanout_booking_change k
  fanout_booking_change id
  pure id
