-- ===== src/Payments/Slips/Unguarded.antt =====
-- `requestSlipUpload` and `uploadSlip` on a payment that is past its transfer.
use pee_rahat.Prelude.{
  ℕ, ◌≡◌, Bool, false, some, find, find_first, find-update, ◌==◌, err, ok, bad_request, arith,
}
use pee_rahat.Store.{PaymentStatus, User, PaymentIntent, Db}
use pee_rahat.Payments.Zercle.{Zercle}
use pee_rahat.Payments.Intents.{is_uploadable, request_slip_upload}
use pee_rahat.Payments.Slips.{store_slip, upload_checks, upload_slip}

-- While slips are reviewed by hand: the payer of an intent whose state admits no slip is refused a
-- place for the file, and can still call `uploadSlip`, which succeeds and leaves the intent with the
-- new slip and in the state `slip_uploaded`, whatever its state was.
pub upload_slip_unguarded :
    (zercle : Zercle) (now : ℕ) (aborted : Bool) (supabase_id id slip_key user_id : ℕ)
    (caller : User) (i : PaymentIntent) (db : Db)
    → zercle.enabled ≡ false
    → find_first (λ k u. u.supabase_id == supabase_id) db.users ≡ some (user_id, caller)
    → find id db.intents ≡ some i
    → i.payer_id ≡ user_id
    → is_uploadable i.status ≡ false
    → (request_slip_upload supabase_id id db ≡ (err bad_request, db))
      × ((upload_slip zercle now aborted supabase_id id slip_key db).0
          ≡ ok PaymentStatus.slip_uploaded)
      × (find id (upload_slip zercle now aborted supabase_id id slip_key db).1.intents
          ≡ some (record i {
            slip_object_key = some slip_key;
            slip_uploaded_at = some now;
            status = PaymentStatus.slip_uploaded;
          }))
unfolding request_slip_upload upload_slip upload_checks
upload_slip_unguarded zercle now aborted supabase_id id slip_key user_id caller i db off known found
      own late =
    let u = find-update id id (store_slip now slip_key PaymentStatus.slip_uploaded) db.intents in
    (ground arith, ground arith, ground arith)
