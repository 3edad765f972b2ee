-- ===== src/Postpone/Requests.antt =====
-- Opening a negotiation and proposing a slot: `initiate`, `propose`, `loadParticipant` and
-- `loadActiveRequest` of apps/api/src/bookings/postpone.service.ts.
use pee_rahat.Prelude.{
  ℕ, ◌+◌, ◌*◌, Bool, true, false, ◌||◌, not, ltb, leb, ◌==◌, if◌then◌else◌, is_some, Option, none,
  some, List, ◌∷◌, find, fresh_id, length, forbidden, bad_request, missing_row,
}
use pee_rahat.Money.RefundPolicy.{PostponeInitiator, student, tutor}
use pee_rahat.Store.{
  BookingStatus, PostponeStatus, TutorProfile, Booking, PostponeRequest, system_message,
  enqueue_timeout, Action, ◌>>=◌, ◌>>◌, pure, gets, reads, or_raise, raise_if, modify,
  update_booking, update_request, emit, require_user, fanout_booking_change,
}
use pee_rahat.Calendar.{hour_ms, start_of_tomorrow_bangkok}
use pee_rahat.Bookings.Overlap.{assert_no_overlap, is_negotiating}
use pee_rahat.Bookings.Lifecycle.{load_booking, load_tutor}

abbrev pub chat_window_hours : ℕ
chat_window_hours = 2

abbrev pub short_notice_hours : ℕ
short_notice_hours = 12

-- `ALLOWED_DURATIONS`
abbrev pub is_allowed_duration : ℕ → Bool
is_allowed_duration m = m == 30 || m == 60 || m == 90 || m == 120

pub record Participant : Type 0 where
  pub user_id : ℕ
  pub booking : Booking
  pub tutor : TutorProfile

pub record ActiveRequest : Type 0 where
  pub user_id : ℕ
  pub booking : Booking
  pub tutor : TutorProfile
  pub request_id : ℕ
  pub request : PostponeRequest

unfoldable pub load_participant : ℕ → ℕ → Action Participant
load_participant supabase_id k = do
  user ← require_user supabase_id
  b ← load_booking k
  t ← load_tutor b
  raise_if (not (b.student_id == user.0 || t.user_id == user.0)) forbidden
  pure (record { user_id = user.0; booking = b; tutor = t })

unfoldable pub load_active_request : ℕ → ℕ → Action ActiveRequest
load_active_request supabase_id k = do
  p ← load_participant supabase_id k
  id ← or_raise p.booking.postpone_request_id bad_request
  r ← or_raise (← gets (λ db. find id db.requests)) missing_row
  raise_if (not (is_negotiating r.status)) bad_request
  pure (record {
    user_id = p.user_id;
    booking = p.booking;
    tutor = p.tutor;
    request_id = id;
    request = r;
  })

abbrev pub is_paid : BookingStatus → Bool
is_paid BookingStatus.paid = true
is_paid _ = false

abbrev pub role_of : Participant → PostponeInitiator
role_of p = if p.booking.student_id == p.user_id then student else tutor

unfoldable pub new_request : ℕ → Participant → List ℕ → PostponeRequest
new_request now p reason = record {
  initiator_id = p.user_id;
  initiator_role = role_of p;
  reason = reason;
  chat_expires_at = now + chat_window_hours * hour_ms;
  status = PostponeStatus.negotiating;
  proposed_at = none;
  proposed_duration = none;
  resolved_at = none;
  resolved_as = none;
  was_short_notice = ltb p.booking.scheduled_at (now + short_notice_hours * hour_ms);
  created_at = now;
}

-- The result is the id of the request.
unfoldable pub initiate : ℕ → ℕ → ℕ → List ℕ → Action ℕ
initiate now supabase_id k reason = do
  raise_if (ltb (length reason) 5 || ltb 500 (length reason)) bad_request
  p ← load_participant supabase_id k
  raise_if (not (is_paid p.booking.status)) bad_request
  raise_if (leb p.booking.scheduled_at now) bad_request
  raise_if (is_some p.booking.postpone_request_id) bad_request
  id ← gets (λ db. fresh_id db.requests)
  modify (λ db. record db { requests = (id, new_request now p reason) ∷ db.requests })
  update_booking k
      (λ b. record b { status = BookingStatus.postpone_pending; postpone_request_id = some id })
  emit (system_message k p.user_id)
  emit (enqueue_timeout id (now + chat_window_hours * hour_ms))
  fanout_booking_change k
  pure id

-- `scheduled_at` is the parsed text, or `none`.
unfoldable pub propose : ℕ → ℕ → ℕ → Option ℕ → ℕ → Action (Unit {0})
propose now supabase_id k scheduled_at minutes = do
  raise_if (not (is_allowed_duration minutes)) bad_request
  proposed ← or_raise scheduled_at bad_request
  raise_if (ltb proposed (start_of_tomorrow_bangkok now)) bad_request
  a ← load_active_request supabase_id k
  raise_if (not (a.request.initiator_id == a.user_id)) forbidden
  reads (λ db. assert_no_overlap db a.booking.student_id proposed minutes (some k))
  reads (λ db. assert_no_overlap db a.tutor.user_id proposed minutes (some k))
  update_request a.request_id
      (λ r. record r { proposed_at = some proposed; proposed_duration = some minutes })
  emit (system_message k a.user_id)
  fanout_booking_change k
