-- ===== src/Groups/Flow/Reviewing.antt =====
-- Which bookings `approveGroup`, `rejectGroup` and `onParticipantPaid` change.
use pee_rahat.Prelude.{
  ℕ, ◌≡◌, refl, subst, Bool, true, Option, none, some, find, update, ok, arith, inl, inr, ◌⊎◌,
  Result-cases, Bool-cases, Option-cases,
}
use pee_rahat.Store.{is_group, RefundReason, BookingParticipant, Booking, Db}
use pee_rahat.Groups.Review.{
  approve_checks, approve_once, approve_group, stamp_approval, reject_group_checks, reject_group,
  confirm_booking, confirm_group, confirm_if_approved, pay_host_seat, pay_by_host,
  on_participant_paid, is_approved_row, host_seat,
}
use pee_rahat.Groups.Failure.{is_in_review, fail_group}
use pee_rahat.Groups.Flow.Failing.{fail_group-Touches}
use pee_rahat.Groups.Flow.Steps.{
  KeepsBookings, ChangesOnly, ChangesOnly-then, ChangesOnly-after, Touches, fanout-KeepsBookings,
}

approve_checks-KeepsBookings : (supabase_id k : ℕ) → KeepsBookings (approve_checks supabase_id k)
unfolding approve_checks KeepsBookings
approve_checks-KeepsBookings supabase_id k db = ground arith

approve_once-ChangesOnly :
    (now k : ℕ) (b : Booking) → ChangesOnly k (stamp_approval now) (approve_once now k b)
unfolding ChangesOnly
approve_once-ChangesOnly now k b db = ground arith

pub approve_group-ChangesOnly :
    (now supabase_id k : ℕ) → ChangesOnly k (stamp_approval now) (approve_group now supabase_id k)
unfolding approve_group
approve_group-ChangesOnly now supabase_id k =
    ChangesOnly-after (approve_checks supabase_id k) _ k (stamp_approval now)
      (approve_checks-KeepsBookings supabase_id k)
      (λ b.
        ChangesOnly-then (approve_once now k b) _ k (stamp_approval now)
          (approve_once-ChangesOnly now k b) (λ _. fanout-KeepsBookings k))

pub approve_group-Touches :
    (now supabase_id k : ℕ) (db : Db)
    → Touches db.bookings (approve_group now supabase_id k db).1.bookings
unfolding ChangesOnly
approve_group-Touches now supabase_id k db = elim (approve_group-ChangesOnly now supabase_id k db) [
  | inl same ↦ inl same
  | inr e ↦ inr (k, stamp_approval now, e, λ b found. inl refl)
]

reject_group_checks_lem :
    (supabase_id k : ℕ) (db : Db)
    → ((reject_group_checks supabase_id k db).1 ≡ db)
      × ((b : Booking)
          → (reject_group_checks supabase_id k db).0 ≡ ok b
          → (find k db.bookings ≡ some b) × (is_in_review b.group_status ≡ true))
unfolding reject_group_checks
reject_group_checks_lem supabase_id k db = (ground arith, λ b h. ground arith)

pub reject_group-Touches :
    (supabase_id k : ℕ) (db : Db) → Touches db.bookings (reject_group supabase_id k db).1.bookings
unfolding reject_group
reject_group-Touches supabase_id k db =
    let (same, inside) = reject_group_checks_lem supabase_id k db in
    elim (Result-cases (reject_group_checks supabase_id k db).0) [
      | inr (e, stop) ↦ inl (ground arith)
      | inl (b, go) ↦
          let (found, reviewed) = inside b go in
          let touched =
            fail_group-Touches k RefundReason.group_rejected_by_tutor db
              (λ x f. inr (ground arith)) in
          let ended : (fail_group k RefundReason.group_rejected_by_tutor db).1.bookings
              ≡ (reject_group supabase_id k db).1.bookings =
            ground arith in
          subst (λ t. Touches db.bookings t) ended touched
    ]

confirm_if_approved_lem :
    (now : ℕ) (aborted : Bool) (k : ℕ) (b : Booking) (db : Db)
    → let t' = (confirm_if_approved now aborted k b db).1.bookings in
      (t' ≡ db.bookings)
      ⊎ (t' ≡ update k (confirm_booking now) db.bookings)
        × (is_approved_row (find k db.bookings) ≡ true)
unfolding confirm_if_approved confirm_group
confirm_if_approved_lem now aborted k b db = ground arith

pay_by_host-Touches :
    (now : ℕ) (aborted : Bool) (intent_id k : ℕ) (b : Booking)
    (seat : Option (ℕ × BookingParticipant)) (db : Db)
    → Touches db.bookings (pay_by_host now aborted intent_id k b seat db).1.bookings
unfolding KeepsBookings
pay_by_host-Touches now aborted intent_id k b none db = inl refl
pay_by_host-Touches now aborted intent_id k b (some seat) db =
    let db1 = (pay_host_seat now intent_id seat db).1 in
    let kept : db1.bookings ≡ db.bookings = ground arith in
    let told = fanout-KeepsBookings k (confirm_if_approved now aborted k b db1).1 in
    let either : ((pay_by_host now aborted intent_id k b (some seat) db).1.bookings ≡ db.bookings)
        ⊎ ((pay_by_host now aborted intent_id k b (some seat) db).1.bookings
            ≡ update k (confirm_booking now) db.bookings)
          × (is_approved_row (find k db.bookings) ≡ true) =
      let c = confirm_if_approved_lem now aborted k b db1 in ground arith in
    elim either [
      | inl same ↦ inl same
      | inr (e, approved) ↦ inr (k, confirm_booking now, e, λ x found. inr (ground arith))
    ]

pub on_participant_paid-Touches :
    (now : ℕ) (aborted : Bool) (intent_id : ℕ) (db : Db)
    → Touches db.bookings (on_participant_paid now aborted intent_id db).1.bookings
unfolding on_participant_paid
on_participant_paid-Touches now aborted intent_id db =
    elim (Option-cases (find intent_id db.intents)) [
      | inl missing ↦ inl (ground arith)
      | inr (i, there) ↦ elim (Option-cases i.booking_id) [
        | inl sheet ↦ inl (ground arith)
        | inr (k, of_class) ↦ elim (Option-cases (find k db.bookings)) [
          | inl gone ↦ inl (ground arith)
          | inr (b, found) ↦ elim (Bool-cases (is_group b.session_type)) [
            | inr alone ↦ inl (ground arith)
            | inl grouped ↦
                let paid : (pay_by_host now aborted intent_id k b (host_seat db k i.payer_id)
                      db).1.bookings
                    ≡ (on_participant_paid now aborted intent_id db).1.bookings =
                  ground arith in
                subst (λ t. Touches db.bookings t) paid
                  (pay_by_host-Touches now aborted intent_id k b (host_seat db k i.payer_id) db)
          ]
        ]
      ]
    ]
