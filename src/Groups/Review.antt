-- ===== src/Groups/Review.antt =====
-- The tutor's decision and the host's payment: `approveGroup`, `rejectGroup`, `onParticipantPaid` and
-- `confirmGroup` of apps/api/src/bookings/group-session.service.ts.
mod Order
mod Tests
use pee_rahat.Prelude.{
  ℕ, ◌+◌, ◌*◌, Bool, true, false, ◌&&◌, not, ◌==◌, if◌then◌else◌, is_some, Option, none, some, List,
  [], ◌∷◌, ◌++◌, Table, find, find_first, forbidden, bad_request, plain,
}
use pee_rahat.Store.{
  BookingStatus, GroupStatus, ParticipantStatus, RefundReason, NotificationType, is_group, Booking,
  BookingParticipant, PaymentIntent, Db, Effect, notify, create_group_thread, attach_to_booking,
  Action, ◌>>=◌, ◌>>◌, pure, gets, raise_if, modify, transaction, emit, update_booking,
  require_user, fanout_booking_change,
}
use pee_rahat.Calendar.{hour_ms}
use pee_rahat.Bookings.Lifecycle.{load_booking, load_tutor}
use pee_rahat.Groups.Invite.{participants_of, is_host, update_participant}
use pee_rahat.Groups.Failure.{is_in_review, fail_group}

unfoldable pub approve_checks : ℕ → ℕ → Action Booking
approve_checks supabase_id k = do
  user ← require_user supabase_id
  b ← load_booking k
  t ← load_tutor b
  raise_if (not (is_group b.session_type)) bad_request
  raise_if (not (t.user_id == user.0)) forbidden
  raise_if (not (is_in_review b.group_status)) bad_request
  pure b

abbrev pub stamp_approval : ℕ → Booking → Booking
stamp_approval now b = record b { tutor_approved_at = some now }

abbrev pub approve_once : ℕ → ℕ → Booking → Action (Unit {0})
approve_once now k b =
    if is_some b.tutor_approved_at
    then pure tt
    else update_booking k (stamp_approval now)
      >> emit (notify b.student_id NotificationType.group_decision)

unfoldable pub approve_group : ℕ → ℕ → ℕ → Action (Unit {0})
approve_group now supabase_id k = do
  b ← approve_checks supabase_id k
  approve_once now k b
  fanout_booking_change k

unfoldable pub reject_group_checks : ℕ → ℕ → Action Booking
reject_group_checks supabase_id k = do
  user ← require_user supabase_id
  b ← load_booking k
  t ← load_tutor b
  raise_if (not (t.user_id == user.0)) forbidden
  raise_if (not (is_in_review b.group_status)) bad_request
  pure b

unfoldable pub reject_group : ℕ → ℕ → Action (Unit {0})
reject_group supabase_id k = do
  b ← reject_group_checks supabase_id k
  fail_group k RefundReason.group_rejected_by_tutor
  emit (notify b.student_id NotificationType.group_decision)

abbrev pub confirm_booking : ℕ → Booking → Booking
confirm_booking now b = record b {
  group_status = some GroupStatus.confirmed;
  status = BookingStatus.paid;
  report_window_ends_at = some (now + 24 * hour_ms);
}

abbrev pub is_paid_seat : ParticipantStatus → Bool
is_paid_seat ParticipantStatus.paid = true
is_paid_seat _ = false

abbrev pub notify_paid : Table BookingParticipant → List Effect
notify_paid [] = []
notify_paid ((_, p) ∷ ps) =
    if is_paid_seat p.status
    then notify p.student_id NotificationType.group_status_changed ∷ notify_paid ps
    else notify_paid ps

-- `confirmGroup` and the effects that it starts.
unfoldable pub confirm_group : ℕ → ℕ → Action (Unit {0})
confirm_group now k = do
  update_booking k (confirm_booking now)
  modify (λ db. record db {
    effects =
        notify_paid (participants_of db k)
        ++ attach_to_booking k ∷ create_group_thread k ∷ db.effects;
  })

-- `groupStatus === "tutor_review" && tutorApprovedAt`
abbrev pub is_approved : Booking → Bool
is_approved b = is_in_review b.group_status && is_some b.tutor_approved_at

abbrev pub is_approved_row : Option Booking → Bool
is_approved_row none = false
is_approved_row (some b) = is_approved b

-- The transaction looks at the row again before it confirms.
unfoldable pub confirm_if_approved : ℕ → Bool → ℕ → Booking → Action (Unit {0})
confirm_if_approved now aborted k b =
    if is_approved b
    then transaction (do
      raise_if aborted plain
      fresh ← gets (λ db. is_approved_row (find k db.bookings))
      if fresh then confirm_group now k else pure tt)
    else pure tt

abbrev pub pay_seat : ℕ → ℕ → BookingParticipant → BookingParticipant
pay_seat now intent_id p = record p {
  status = ParticipantStatus.paid;
  paid_at = some now;
  payment_intent_id = some intent_id;
}

abbrev pub pay_host_seat : ℕ → ℕ → ℕ × BookingParticipant → Action (Unit {0})
pay_host_seat now intent_id (seat_id, p) =
    if is_paid_seat p.status then pure tt else update_participant seat_id (pay_seat now intent_id)

-- The host's own seat of the booking, if the payer is the host.
abbrev pub host_seat : Db → ℕ → ℕ → Option (ℕ × BookingParticipant)
host_seat db k payer =
    find_first (λ _ p. p.booking_id == k && is_host p.role && p.student_id == payer) db.participants

abbrev pub pay_by_host :
    ℕ → Bool → ℕ → ℕ → Booking → Option (ℕ × BookingParticipant) → Action (Unit {0})
pay_by_host now aborted intent_id k b none = pure tt
pay_by_host now aborted intent_id k b (some seat) = do
  pay_host_seat now intent_id seat
  confirm_if_approved now aborted k b
  fanout_booking_change k

abbrev pub pay_booking : ℕ → Bool → ℕ → PaymentIntent → ℕ → Option Booking → Action (Unit {0})
pay_booking now aborted intent_id i k none = pure tt
pay_booking now aborted intent_id i k (some b) =
    if is_group b.session_type
    then gets (λ db. host_seat db k i.payer_id) >>= pay_by_host now aborted intent_id k b
    else pure tt

abbrev pub pay_intent : ℕ → Bool → ℕ → Option PaymentIntent → Action (Unit {0})
pay_intent now aborted intent_id none = pure tt
pay_intent now aborted intent_id (some i) = elim i.booking_id [
  | none ↦ pure tt
  | some k ↦ gets (λ db. find k db.bookings) >>= pay_booking now aborted intent_id i k
]

-- `onParticipantPaid`
unfoldable pub on_participant_paid : ℕ → Bool → ℕ → Action (Unit {0})
on_participant_paid now aborted intent_id = do
  pay_intent now aborted intent_id (← gets (λ db. find intent_id db.intents))
