-- ===== src/Groups/Failure/Refund.antt =====
-- What `failGroup` does with the escrow of the host.
use pee_rahat.Prelude.{
  ℕ, ◌≡◌, ◌≢◌, refl, sym, ◌∙◌, if◌then◌else◌, true, false, none, some, ◌∷◌, Bool-cases,
  Option-cases, find, fresh_id, find-update, ok, arith, pos, inl, inr,
}
use pee_rahat.Store.{PaymentStatus, RefundReason, Booking, PaymentIntent, RefundLedger, Db}
use pee_rahat.Store.Effects.{pair_eq, fanout_booking_change-Announces}
use pee_rahat.Bookings.Lifecycle.{intent_of, is_held}
use pee_rahat.Groups.Failure.{
  is_failed, is_awaiting_transfer, refund_host, fail_booking, fail_rows, fail_unfailed, fail_group,
}

-- A group that has failed is left alone.
fail_group-failed :
    (k : ℕ) (reason : RefundReason) (b : Booking) (db : Db)
    → find k db.bookings ≡ some b
    → is_failed b.group_status ≡ true
    → fail_group k reason db ≡ (ok tt, db)
unfolding fail_group
fail_group-failed k reason b db found failed = ground arith

-- A call on a group that has not failed: its end, and the row of the booking.
fail_group-fresh :
    (k : ℕ) (reason : RefundReason) (b : Booking) (db : Db)
    → find k db.bookings ≡ some b
    → is_failed b.group_status ≡ false
    → ((fail_group k reason db).0 ≡ ok tt)
      × (find k (fail_group k reason db).1.bookings ≡ some (fail_booking b))
      × ((fail_group k reason db).1.intents ≡ (refund_host k reason (intent_of db k) db).intents)
      × ((fail_group k reason db).1.ledgers ≡ (refund_host k reason (intent_of db k) db).ledgers)
unfolding fail_group fail_unfailed fail_rows refund_host
fail_group-fresh k reason b db found fresh =
    let (es, told) = fanout_booking_change-Announces k (fail_rows k reason (intent_of db k) db) in
    let u = find-update k k fail_booking db.bookings in
    (ground arith, ground arith, ground arith, ground arith)

fail_group_twice_missing :
    (k : ℕ) (reason again : RefundReason) (db : Db)
    → find k db.bookings ≡ none
    → fail_group k again (fail_group k reason db).1 ≡ fail_group k reason db
unfolding fail_group
fail_group_twice_missing k reason again db missing = ground arith

-- `failGroup` is idempotent: a second call, for whatever reason, ends as the first did and changes
-- nothing, so the host is refunded once.
fail_group_twice :
    (k : ℕ) (reason again : RefundReason) (db : Db)
    → fail_group k again (fail_group k reason db).1 ≡ fail_group k reason db
fail_group_twice k reason again db = elim (Option-cases (find k db.bookings)) [
  | inl missing ↦ fail_group_twice_missing k reason again db missing
  | inr (b, found) ↦ elim (Bool-cases (is_failed b.group_status)) [
    | inl failed ↦
        let first = fail_group-failed k reason b db found failed in
        rw first (fail_group-failed k again b db found failed)
    | inr fresh ↦
        let (ends, row, _, _) = fail_group-fresh k reason b db found fresh in
        let x = fail_group k reason db in
        fail_group-failed k again (fail_booking b) x.1 row refl ∙ sym (pair_eq x ends refl)
  ]
]

-- The part of the host's intent, and the row `l` of the ledger, if one is written.
pub record IsRefunded (k id : ℕ) (b : Booking) (x : PaymentIntent) (l : RefundLedger) (db db' : Db)
    : Type 0 where
  pub booking : find k db'.bookings ≡ some (fail_booking b)
  pub ledgers :
      db'.ledgers ≡ (if is_held x.status then (fresh_id db.ledgers, l) ∷ db.ledgers else db.ledgers)
  pub refund : l.student_refund_thb ≡ pos x.amount_thb
  pub to_nobody_else : (l.tutor_thb ≡ pos 0) × (l.platform_thb ≡ pos 0)
  pub intent :
      find id db'.intents
      ≡ some (
          if is_held x.status
          then record x { status = PaymentStatus.refunded; amount_thb = 0 }
          else if is_awaiting_transfer x.status
          then record x { status = PaymentStatus.failed }
          else x)
  pub others : (j : ℕ) → j ≢ id → find j db'.intents ≡ find j db.intents
