-- ===== src/Groups/Failure.antt =====
-- The failure of a group: `failGroup`, `runInviteExpirySweep` and `runPaymentDeadlineSweep` of
-- apps/api/src/bookings/group-session.service.ts.
mod Refund
mod Tests
use pee_rahat.Prelude.{
  ℕ, ◌+◌, ◌-◌, ◌*◌, Bool, true, false, ◌&&◌, ◌||◌, not, ltb, ◌==◌, if◌then◌else◌, or_default,
  Option, none, some, List, [], ◌∷◌, Table, find, find_where, fresh_id, update, pos, Result, ok,
  err, not_found,
}
use pee_rahat.Store.{
  BookingStatus, GroupStatus, ParticipantStatus, PaymentStatus, RefundReason, is_group, Booking,
  BookingParticipant, PaymentIntent, RefundLedger, Db, Action, ◌>>=◌, ◌>>◌, pure, gets, or_raise,
  modify, fanout_booking_change,
}
use pee_rahat.Calendar.{hour_ms}
use pee_rahat.Bookings.Lifecycle.{intent_of, is_held, set_intent_status, load_booking}
use pee_rahat.Groups.Invite.{participants_of, is_host, is_forming, is_expired}

abbrev pub is_failed : Option GroupStatus → Bool
is_failed (some GroupStatus.failed) = true
is_failed _ = false

abbrev pub is_in_review : Option GroupStatus → Bool
is_in_review (some GroupStatus.tutor_review) = true
is_in_review _ = false

abbrev pub is_awaiting_transfer : PaymentStatus → Bool
is_awaiting_transfer PaymentStatus.pending_transfer = true
is_awaiting_transfer PaymentStatus.slip_uploaded = true
is_awaiting_transfer PaymentStatus.verifying = true
is_awaiting_transfer _ = false

unfoldable pub refund_row : ℕ → ℕ → PaymentIntent → RefundReason → RefundLedger
refund_row intent_id k i reason = record {
  payment_intent_id = intent_id;
  booking_id = k;
  original_amount_thb = or_default i.original_amount_thb i.amount_thb;
  student_refund_thb = pos i.amount_thb;
  tutor_thb = pos 0;
  platform_thb = pos 0;
  reason_code = reason;
  report_id = none;
}

abbrev pub refund_intent : PaymentIntent → PaymentIntent
refund_intent i = record i { status = PaymentStatus.refunded; amount_thb = 0 }

-- What the transaction does with the host's intent.
unfoldable pub refund_host : ℕ → RefundReason → Option (ℕ × PaymentIntent) → Db → Db
refund_host k reason none db = db
refund_host k reason (some (id, i)) db =
    if is_held i.status
    then record db {
      ledgers = (fresh_id db.ledgers, refund_row id k i reason) ∷ db.ledgers;
      intents = update id refund_intent db.intents;
    }
    else if is_awaiting_transfer i.status
    then record db { intents = update id (set_intent_status PaymentStatus.failed) db.intents }
    else db

abbrev pub fail_booking : Booking → Booking
fail_booking b = record b {
  group_status = some GroupStatus.failed;
  status = BookingStatus.cancelled;
}

-- The transaction.
unfoldable pub fail_rows : ℕ → RefundReason → Option (ℕ × PaymentIntent) → Db → Db
fail_rows k reason intent db =
    let db1 = refund_host k reason intent db in
    record db1 { bookings = update k fail_booking db1.bookings }

unfoldable pub fail_unfailed : ℕ → RefundReason → Action (Unit {0})
fail_unfailed k reason = do
  intent ← gets (λ db. intent_of db k)
  modify (fail_rows k reason intent)
  fanout_booking_change k

-- Idempotent: a group that has failed is left alone.
unfoldable pub fail_group : ℕ → RefundReason → Action (Unit {0})
fail_group k reason = do
  b ← load_booking k
  if is_failed b.group_status then pure tt else fail_unfailed k reason

-- The `where` of the sweep over the invitations.
unfoldable pub is_invite_expired : ℕ → Booking → Bool
is_invite_expired now b =
    is_group b.session_type && is_forming b.group_status && is_expired now b.invite_expires_at

abbrev pub was_accepted_before : ℕ → Option ℕ → Bool
was_accepted_before cutoff none = false
was_accepted_before cutoff (some t) = ltb t cutoff

abbrev pub has_declined : ParticipantStatus → Bool
has_declined ParticipantStatus.declined = true
has_declined ParticipantStatus.expired = true
has_declined _ = false

abbrev pub is_stale_seat : ℕ → BookingParticipant → Bool
is_stale_seat cutoff p =
    is_host p.role || was_accepted_before cutoff p.accepted_at || has_declined p.status

abbrev pub every_stale : ℕ → Table BookingParticipant → Bool
every_stale cutoff [] = true
every_stale cutoff ((_, p) ∷ ps) = is_stale_seat cutoff p && every_stale cutoff ps

-- The `where` of the sweep over the reviews.
unfoldable pub is_payment_overdue : ℕ → Db → ℕ → Booking → Bool
is_payment_overdue now db k b =
    is_group b.session_type
    && is_in_review b.group_status
    && every_stale (now - 24 * hour_ms) (participants_of db k)

-- The loop of a sweep; a group whose failure throws is passed over. The result counts the others.
unfoldable pub fail_each : RefundReason → Table Booking → Db → ℕ × Db
fail_each reason [] db = (0, db)
fail_each reason ((k, _) ∷ rest) db =
    let (r, db1) = fail_group k reason db in
    let (n, db2) = fail_each reason rest db1 in (elim r [ ok _ ↦ n + 1 | err _ ↦ n ], db2)

unfoldable pub run_invite_expiry_sweep : ℕ → Db → Db
run_invite_expiry_sweep now db =
    (fail_each RefundReason.group_invite_expired
      (find_where (λ _ b. is_invite_expired now b) db.bookings) db).1

unfoldable pub run_payment_deadline_sweep : ℕ → Db → ℕ × Db
run_payment_deadline_sweep now db =
    fail_each RefundReason.group_payment_incomplete
      (find_where (is_payment_overdue now db) db.bookings) db
