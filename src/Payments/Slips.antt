-- ===== src/Payments/Slips.antt =====
-- The slips: `uploadSlip` of apps/api/src/payments/payments.service.ts, and `approveSlip`,
-- `rejectSlip`, `freezeBooking` and `regenerateMeet` of apps/api/src/admin/admin.service.ts.
mod Transfers
mod Unguarded
mod Tests
use pee_rahat.Prelude.{
  ℕ, ◌+◌, ◌*◌, Bool, true, false, not, ◌==◌, ◌||◌, if◌then◌else◌, Option, none, some, [], ◌∷◌, find,
  update, forbidden, bad_request, missing_row,
}
use pee_rahat.Store.{
  BookingStatus, PaymentStatus, NotificationType, is_group, Booking, PaymentIntent, Db, notify,
  invalidate, attach_to_booking, delete_event, Action, ◌>>=◌, ◌>>◌, pure, gets, reads, or_raise,
  raise_if, modify, emit, update_booking, update_intent, require_user, fanout_booking_change,
}
use pee_rahat.Calendar.{hour_ms}
use pee_rahat.Bookings.Lifecycle.{
  intent_of, load_booking, load_tutor, set_status, set_intent_status,
}
use pee_rahat.Groups.Review.{on_participant_paid}
use pee_rahat.Payments.Zercle.{Zercle, SlipFailure, Verdict, accepted, refused, reported, verify}
use pee_rahat.Payments.Intents.{load_intent}

-- The message of a refusal, as the number that stands for its text.
abbrev pub reason_text : SlipFailure → ℕ
reason_text SlipFailure.disabled = 1
reason_text SlipFailure.not_readable = 2
reason_text SlipFailure.request_failed = 3
reason_text SlipFailure.not_successful = 4
reason_text SlipFailure.amount_mismatch = 5
reason_text SlipFailure.recipient_mismatch = 6
reason_text SlipFailure.no_transaction_id = 7
reason_text SlipFailure.stale = 8
reason_text SlipFailure.duplicate = 9
reason_text (reported x) = x

abbrev pub store_slip : ℕ → ℕ → PaymentStatus → PaymentIntent → PaymentIntent
store_slip now slip_key s i = record i {
  slip_object_key = some slip_key;
  slip_uploaded_at = some now;
  status = s;
}

abbrev pub store_failure : ℕ → PaymentIntent → PaymentIntent
store_failure reason i = record i { status = PaymentStatus.failed; failure_reason = some reason }

abbrev pub store_verdict : ℕ → ℕ → ℕ → PaymentIntent → PaymentIntent
store_verdict now transaction amount i = record i {
  status = PaymentStatus.held_in_escrow;
  transaction_id = some transaction;
  verified_amount_thb = some amount;
  zercle_verified_at = some now;
}

abbrev pub mark_paid : ℕ → Booking → Booking
mark_paid now b = record b {
  status = BookingStatus.paid;
  report_window_ends_at = some (now + 24 * hour_ms);
}

-- The confirmation of a one-on-one class, with its two notifications and its Meet link.
unfoldable pub confirm_class : ℕ → ℕ → Booking → Action (Unit {0})
confirm_class now k b = do
  t ← load_tutor b
  update_booking k (mark_paid now)
  emit (notify b.student_id NotificationType.payment_verified)
  emit (notify t.user_id NotificationType.booking_paid)
  emit (attach_to_booking k)

unfoldable pub confirm_and_tell : ℕ → ℕ → Booking → Action (Unit {0})
confirm_and_tell now k b = do
  t ← load_tutor b
  confirm_class now k b
  emit (invalidate (b.student_id ∷ t.user_id ∷ []))

abbrev confirm_found : ℕ → Bool → ℕ → ℕ → Option Booking → Action (Unit {0})
confirm_found now aborted id k none = pure tt
confirm_found now aborted id k (some b) =
    if is_group b.session_type then on_participant_paid now aborted id else confirm_and_tell now k b

-- The branch on the class that was paid for.
unfoldable pub confirm_payment : ℕ → Bool → ℕ → PaymentIntent → Action (Unit {0})
confirm_payment now aborted id i = elim i.booking_id [
  | none ↦ on_participant_paid now aborted id
  | some k ↦ gets (λ db. find k db.bookings) >>= confirm_found now aborted id k
]

-- What follows the verdict; the result is the status that the caller is told.
unfoldable pub apply_verdict : ℕ → Bool → ℕ → PaymentIntent → Verdict → Action PaymentStatus
apply_verdict now aborted id i (refused why) = do
  update_intent id (store_failure (reason_text why))
  pure PaymentStatus.failed
apply_verdict now aborted id i (accepted transaction amount) = do
  update_intent id (store_verdict now transaction amount)
  confirm_payment now aborted id i
  pure PaymentStatus.held_in_escrow

unfoldable pub upload_checks : ℕ → ℕ → Action PaymentIntent
upload_checks supabase_id id = do
  user ← require_user supabase_id
  i ← load_intent id
  raise_if (not (i.payer_id == user.0)) forbidden
  pure i

abbrev pub verify_upload : Zercle → ℕ → Bool → ℕ → ℕ → PaymentIntent → Action PaymentStatus
verify_upload zercle now aborted id slip_key i = do
  update_intent id (store_slip now slip_key PaymentStatus.verifying)
  verdict ← gets (verify zercle now slip_key i.amount_thb)
  apply_verdict now aborted id i verdict

abbrev pub queue_upload : ℕ → ℕ → ℕ → Action PaymentStatus
queue_upload now id slip_key = do
  update_intent id (store_slip now slip_key PaymentStatus.slip_uploaded)
  pure PaymentStatus.slip_uploaded

unfoldable pub upload_slip : Zercle → ℕ → Bool → ℕ → ℕ → ℕ → Action PaymentStatus
upload_slip zercle now aborted supabase_id id slip_key = do
  i ← upload_checks supabase_id id
  if zercle.enabled
      then verify_upload zercle now aborted id slip_key i
      else queue_upload now id slip_key

abbrev pub is_reviewable : PaymentStatus → Bool
is_reviewable PaymentStatus.slip_uploaded = true
is_reviewable PaymentStatus.verifying = true
is_reviewable PaymentStatus.failed = true
is_reviewable _ = false

abbrev pub approve_intent : PaymentIntent → PaymentIntent
approve_intent i = record i { status = PaymentStatus.held_in_escrow; failure_reason = none }

abbrev approve_found : ℕ → Bool → ℕ → PaymentIntent → ℕ → Option Booking → Action (Unit {0})
approve_found now aborted id i k none = pure tt
approve_found now aborted id i k (some b) =
    if is_group b.session_type
    then on_participant_paid now aborted id
      >> emit (notify i.payer_id NotificationType.payment_verified)
    else confirm_class now k b >> fanout_booking_change k

abbrev confirm_approved : ℕ → Bool → ℕ → PaymentIntent → Action (Unit {0})
confirm_approved now aborted id i = elim i.booking_id [
  | none ↦ pure tt
  | some k ↦ gets (λ db. find k db.bookings) >>= approve_found now aborted id i k
]

unfoldable pub approve_slip : ℕ → Bool → ℕ → Action (Unit {0})
approve_slip now aborted id = do
  i ← load_intent id
  raise_if (not (is_reviewable i.status)) bad_request
  update_intent id approve_intent
  confirm_approved now aborted id i

unfoldable pub reject_slip : ℕ → ℕ → Action (Unit {0})
reject_slip id reason = do load_intent id; update_intent id (store_failure reason)

abbrev freeze_intent : Option (ℕ × PaymentIntent) → Action (Unit {0})
freeze_intent none = pure tt
freeze_intent (some (id, i)) = update_intent id (set_intent_status PaymentStatus.disputed)

unfoldable pub freeze_booking : ℕ → Action (Unit {0})
freeze_booking k = do
  load_booking k
  freeze_intent (← gets (λ db. intent_of db k))
  update_booking k (set_status BookingStatus.reported)

abbrev is_paid_class : BookingStatus → Bool
is_paid_class BookingStatus.paid = true
is_paid_class _ = false

abbrev delete_old_event : Booking → Action (Unit {0})
delete_old_event b = elim b.google_calendar_event_id [
  | none ↦ pure tt
  | some event ↦ emit (delete_event b.tutor_id event)
]

unfoldable pub regenerate_meet : ℕ → Action (Unit {0})
regenerate_meet k = do
  b ← load_booking k
  raise_if (not (is_paid_class b.status)) bad_request
  delete_old_event b
  update_booking k (λ b'. record b' { meeting_url = none; google_calendar_event_id = none })
  emit (attach_to_booking k)
