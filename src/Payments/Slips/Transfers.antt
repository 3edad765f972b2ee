-- ===== src/Payments/Slips/Transfers.antt =====
-- The bank transfers and the intents that they pay.
use pee_rahat.Prelude.{
  ℕ, ◌≡◌, ◌≢◌, refl, sym, subst, Bool, true, false, Option, none, some, Option-cases, Result-cases,
  inl, inr, Table, find, update, find-update_cases, arith, if◌then◌else◌,
}
use pee_rahat.Store.{PaymentStatus, Booking, BookingParticipant, PaymentIntent, Db, Action}
use pee_rahat.Store.Effects.{fanout_booking_change-Announces}
use pee_rahat.Groups.Review.{
  confirm_if_approved, confirm_group, pay_host_seat, pay_by_host, host_seat, on_participant_paid,
}
use pee_rahat.Payments.Zercle.{Zercle, Verdict, accepted, refused, verify}
use pee_rahat.Payments.Zercle.Genuine.{verify-IsGenuine}
use pee_rahat.Payments.Slips.{
  store_slip, store_failure, store_verdict, reason_text, confirm_class, confirm_and_tell,
  confirm_payment, apply_verdict, upload_checks, verify_upload, queue_upload, upload_slip,
}

confirm_if_approved-intents :
    (now : ℕ) (aborted : Bool) (k : ℕ) (b : Booking) (db : Db)
    → (confirm_if_approved now aborted k b db).1.intents ≡ db.intents
unfolding confirm_if_approved confirm_group
confirm_if_approved-intents now aborted k b db = ground arith

pay_by_host-intents :
    (now : ℕ) (aborted : Bool) (id k : ℕ) (b : Booking) (seat : Option (ℕ × BookingParticipant))
    (db : Db)
    → (pay_by_host now aborted id k b seat db).1.intents ≡ db.intents
pay_by_host-intents now aborted id k b none db = refl
pay_by_host-intents now aborted id k b (some seat) db =
    let db1 = (pay_host_seat now id seat db).1 in
    let kept : db1.intents ≡ db.intents = ground arith in
    let confirmed = confirm_if_approved-intents now aborted k b db1 in
    let (es, told) =
      fanout_booking_change-Announces k (confirm_if_approved now aborted k b db1).1 in
    ground arith

on_participant_paid-intents :
    (now : ℕ) (aborted : Bool) (id : ℕ) (db : Db)
    → (on_participant_paid now aborted id db).1.intents ≡ db.intents
unfolding on_participant_paid
on_participant_paid-intents now aborted id db = elim (Option-cases (find id db.intents)) [
  | inl missing ↦ ground arith
  | inr (i, there) ↦ elim (Option-cases i.booking_id) [
    | inl sheet ↦ ground arith
    | inr (k, of_class) ↦ elim (Option-cases (find k db.bookings)) [
      | inl gone ↦ ground arith
      | inr (b, found) ↦
          let paid = pay_by_host-intents now aborted id k b (host_seat db k i.payer_id) db in
          ground arith
    ]
  ]
]

confirm_and_tell-intents :
    (now k : ℕ) (b : Booking) (db : Db) → (confirm_and_tell now k b db).1.intents ≡ db.intents
unfolding confirm_and_tell confirm_class
confirm_and_tell-intents now k b db = ground arith

confirm_payment-intents :
    (now : ℕ) (aborted : Bool) (id : ℕ) (i : PaymentIntent) (db : Db)
    → (confirm_payment now aborted id i db).1.intents ≡ db.intents
unfolding confirm_payment
confirm_payment-intents now aborted id i db =
    let paid = on_participant_paid-intents now aborted id db in
    elim (Option-cases i.booking_id) [
      | inl sheet ↦ ground arith
      | inr (k, of_class) ↦ elim (Option-cases (find k db.bookings)) [
        | inl gone ↦ ground arith
        | inr (b, found) ↦ let told = confirm_and_tell-intents now k b db in ground arith
      ]
    ]

-- What the verdict leaves in the table of intents.
abbrev verdict_rows : ℕ → ℕ → Verdict → Table PaymentIntent → Table PaymentIntent
verdict_rows now id (refused why) t = update id (store_failure (reason_text why)) t
verdict_rows now id (accepted transaction amount) t =
    update id (store_verdict now transaction amount) t

apply_verdict-intents :
    (now : ℕ) (aborted : Bool) (id : ℕ) (i : PaymentIntent) (v : Verdict) (db : Db)
    → (apply_verdict now aborted id i v db).1.intents ≡ verdict_rows now id v db.intents
unfolding apply_verdict
apply_verdict-intents now aborted id i (refused why) db = refl
apply_verdict-intents now aborted id i (accepted transaction amount) db =
    let kept =
      confirm_payment-intents now aborted id i
        (record db { intents = update id (store_verdict now transaction amount) db.intents }) in
    ground arith

-- No two intents have the same bank transaction.
abbrev pub PaysOnce : Table PaymentIntent → Type 0
PaysOnce t =
    (i j transaction : ℕ) (a b : PaymentIntent)
    → find i t ≡ some a
    → find j t ≡ some b
    → a.transaction_id ≡ some transaction
    → b.transaction_id ≡ some transaction
    → i ≡ j

PaysOnce-update :
    (k : ℕ) (f : PaymentIntent → PaymentIntent) (t : Table PaymentIntent)
    → ((a : PaymentIntent) → (f a).transaction_id ≡ a.transaction_id)
    → PaysOnce t
    → PaysOnce (update k f t)
PaysOnce-update k f t same h i j transaction a b fa fb ea eb =
    let (a', ia, wa) = find-update_cases k i f t fa in
    let (b', ib, wb) = find-update_cases k j f t fb in
    let sa = same a' in
    let sb = same b' in h i j transaction a' b' ia ib (ground arith) (ground arith)

PaysOnce-verdict :
    (now id transaction amount : ℕ) (db : Db)
    → ((j : ℕ) (i : PaymentIntent)
        → find j db.intents ≡ some i
        → i.transaction_id ≢ some transaction)
    → PaysOnce db.intents
    → PaysOnce (update id (store_verdict now transaction amount) db.intents)
PaysOnce-verdict now id transaction amount db unseen h i j u a b fa fb ea eb =
    let f = store_verdict now transaction amount in
    let (a', ia, wa) = find-update_cases id i f db.intents fa in
    let (b', ib, wb) = find-update_cases id j f db.intents fb in
    let na = unseen i a' ia in
    let nb = unseen j b' ib in
    let old = h i j u a' b' ia ib in
    elim wa [
      | inl (at_i, made_a) ↦ elim wb [
        | inl (at_j, made_b) ↦ ground arith
        | inr (off_j, kept_b) ↦ absurd (ground arith)
      ]
      | inr (off_i, kept_a) ↦ elim wb [
        | inl (at_j, made_b) ↦ absurd (ground arith)
        | inr (off_j, kept_b) ↦ old (ground arith) (ground arith)
      ]
    ]

PaysOnce-verdict_rows :
    (zercle : Zercle) (now id slip_key expected : ℕ) (v : Verdict) (db : Db)
    → verify zercle now slip_key expected db ≡ v
    → PaysOnce db.intents
    → PaysOnce (verdict_rows now id v db.intents)
PaysOnce-verdict_rows zercle now id slip_key expected (refused why) db e h =
    PaysOnce-update id (store_failure (reason_text why)) db.intents (λ a. refl) h
PaysOnce-verdict_rows zercle now id slip_key expected (accepted transaction amount) db e h =
    let (_, _, r, _, genuine) =
      verify-IsGenuine zercle now slip_key expected transaction amount db e in
    PaysOnce-verdict now id transaction amount db genuine.unused h

PaysOnce-verify :
    (zercle : Zercle) (now : ℕ) (aborted : Bool) (id slip_key : ℕ) (i : PaymentIntent) (db : Db)
    → PaysOnce db.intents
    → PaysOnce (verify_upload zercle now aborted id slip_key i db).1.intents
PaysOnce-verify zercle now aborted id slip_key i db h =
    let store = store_slip now slip_key PaymentStatus.verifying in
    let db1 : Db = record db { intents = update id store db.intents } in
    let v = verify zercle now slip_key i.amount_thb db1 in
    subst (λ t. PaysOnce t) (sym (apply_verdict-intents now aborted id i v db1))
      (PaysOnce-verdict_rows zercle now id slip_key i.amount_thb v db1 refl
        (PaysOnce-update id store db.intents (λ a. refl) h))

PaysOnce-branch :
    (c : Bool) (x y : Action PaymentStatus) (db : Db)
    → PaysOnce (x db).1.intents
    → PaysOnce (y db).1.intents
    → PaysOnce ((if c then x else y) db).1.intents
PaysOnce-branch true x y db hx hy = hx
PaysOnce-branch false x y db hx hy = hy

PaysOnce-upload :
    (zercle : Zercle) (now : ℕ) (aborted : Bool) (id slip_key : ℕ) (i : PaymentIntent) (db : Db)
    → PaysOnce db.intents
    → PaysOnce
        ((if zercle.enabled
            then verify_upload zercle now aborted id slip_key i
            else queue_upload now id slip_key)
          db).1.intents
PaysOnce-upload zercle now aborted id slip_key i db h =
    PaysOnce-branch zercle.enabled (verify_upload zercle now aborted id slip_key i)
      (queue_upload now id slip_key) db (PaysOnce-verify zercle now aborted id slip_key i db h)
      (PaysOnce-update id (store_slip now slip_key PaymentStatus.slip_uploaded) db.intents
        (λ a. refl) h)

-- If no two payments have the same bank transaction, none have after `uploadSlip`, whatever the slip
-- and the answer about it: one transfer pays for one thing.
pub upload_slip-PaysOnce :
    (zercle : Zercle) (now : ℕ) (aborted : Bool) (supabase_id id slip_key : ℕ) (db : Db)
    → PaysOnce db.intents
    → PaysOnce (upload_slip zercle now aborted supabase_id id slip_key db).1.intents
unfolding upload_slip upload_checks
upload_slip-PaysOnce zercle now aborted supabase_id id slip_key db h =
    elim (Result-cases (upload_checks supabase_id id db).0) [
      | inr (e, stop) ↦
          let same : (upload_slip zercle now aborted supabase_id id slip_key db).1.intents
              ≡ db.intents =
            ground arith in
          subst (λ t. PaysOnce t) (sym same) h
      | inl (i, go) ↦
          let read : (upload_checks supabase_id id db).1 ≡ db = ground arith in
          let same : (upload_slip zercle now aborted supabase_id id slip_key db).1.intents
              ≡ ((if zercle.enabled
                    then verify_upload zercle now aborted id slip_key i
                    else queue_upload now id slip_key)
                  db).1.intents =
            ground arith in
          subst (λ t. PaysOnce t) (sym same) (PaysOnce-upload zercle now aborted id slip_key i db h)
    ]
