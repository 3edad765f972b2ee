-- ===== src/Groups/Flow/Stranded.antt =====
-- The host's payment before the tutor's approval: `onParticipantPaid` and `approveGroup` of
-- apps/api/src/bookings/group-session.service.ts.
use pee_rahat.Prelude.{
  ℕ, ◌≡◌, refl, Bool, false, Bool-cases, Option, none, some, inl, inr, find, find-update, arith,
}
use pee_rahat.Store.{is_group, Booking, BookingParticipant, PaymentIntent, Db}
use pee_rahat.Store.Effects.{fanout_booking_change-Announces}
use pee_rahat.Groups.Review.{
  stamp_approval, approve_group, is_approved, confirm_if_approved, pay_host_seat, pay_by_host,
  host_seat, on_participant_paid,
}
use pee_rahat.Groups.Flow.Steps.{ChangesOnly}
use pee_rahat.Groups.Flow.Reviewing.{approve_group-ChangesOnly}

pay_by_host-unapproved :
    (now : ℕ) (aborted : Bool) (id k : ℕ) (b : Booking) (seat : Option (ℕ × BookingParticipant))
    (db : Db)
    → is_approved b ≡ false
    → (pay_by_host now aborted id k b seat db).1.bookings ≡ db.bookings
unfolding confirm_if_approved
pay_by_host-unapproved now aborted id k b none db early = refl
pay_by_host-unapproved now aborted id k b (some seat) db early =
    let db1 = (pay_host_seat now id seat db).1 in
    let (es, told) = fanout_booking_change-Announces k db1 in ground arith

on_participant_paid-unapproved :
    (now : ℕ) (aborted : Bool) (id k : ℕ) (i : PaymentIntent) (b : Booking) (db : Db)
    → find id db.intents ≡ some i
    → i.booking_id ≡ some k
    → find k db.bookings ≡ some b
    → is_approved b ≡ false
    → (on_participant_paid now aborted id db).1.bookings ≡ db.bookings
unfolding on_participant_paid
on_participant_paid-unapproved now aborted id k i b db there linked found early =
    let paid = pay_by_host-unapproved now aborted id k b (host_seat db k i.payer_id) db early in
    elim (Bool-cases (is_group b.session_type)) [
      | inl grouped ↦ ground arith
      | inr alone ↦ ground arith
    ]

-- A host who pays before the tutor has approved is not confirmed by the approval: after the payment
-- and then the call of `approveGroup`, whoever makes it, the booking has the status and the state of
-- its group that it had before.
pub paid_before_approval :
    (paid_at approved_at : ℕ) (aborted : Bool) (supabase_id id k : ℕ) (i : PaymentIntent)
    (b : Booking) (db : Db)
    → find id db.intents ≡ some i
    → i.booking_id ≡ some k
    → find k db.bookings ≡ some b
    → is_approved b ≡ false
    → let db1 = (on_participant_paid paid_at aborted id db).1 in
      let db2 = (approve_group approved_at supabase_id k db1).1 in
      (b' : Booking) × (find k db2.bookings ≡ some b')
      × (b'.group_status ≡ b.group_status)
      × (b'.status ≡ b.status)
unfolding ChangesOnly
paid_before_approval paid_at approved_at aborted supabase_id id k i b db there linked found early =
    let db1 = (on_participant_paid paid_at aborted id db).1 in
    let kept =
      on_participant_paid-unapproved paid_at aborted id k i b db there linked found early in
    let u = find-update k k (stamp_approval approved_at) db.bookings in
    elim (approve_group-ChangesOnly approved_at supabase_id k db1) [
      | inl same ↦ (b, ground arith, refl, refl)
      | inr stamped ↦ (stamp_approval approved_at b, ground arith, refl, refl)
    ]
