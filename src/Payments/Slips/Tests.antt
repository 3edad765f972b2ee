-- ===== src/Payments/Slips/Tests.antt =====
-- Runs of `uploadSlip` and of the check of a slip.
use pee_rahat.Prelude.{
  ℕ, ◌≡◌, refl, true, false, [], ◌∷◌, none, some, find, err, ok, bad_request, arith,
}
use pee_rahat.Store.{BookingStatus, PaymentStatus, Db}
use pee_rahat.Samples.{student_row, base_db, class_with, intent_with, monday}
use pee_rahat.Payments.Zercle.{SlipResponse, answered, no_answer, Zercle, verify}
use pee_rahat.Payments.Zercle.Genuine.{IsGenuine, verify-IsGenuine}
use pee_rahat.Payments.Slips.{upload_slip}
use pee_rahat.Payments.Intents.{request_slip_upload}
use pee_rahat.Payments.Slips.Unguarded.{upload_slip_unguarded}
use pee_rahat.Payments.Slips.Transfers.{PaysOnce, upload_slip-PaysOnce}

-- Class 10 waits for its transfer of 300 baht, and the slip 8 shows that transfer, number 77.
abbrev waiting_db : Db
waiting_db = record base_db {
  bookings = (10, class_with BookingStatus.accepted none) ∷ [];
  intents = (40, intent_with PaymentStatus.pending_transfer none none) ∷ [];
}

abbrev good_slip : SlipResponse
good_slip = record {
  success = true;
  amount = some 300;
  recipient_account = some (b'9' ∷ []);
  transfer_date = some monday;
  transaction_id = some 77;
  failure_reason = none;
}

abbrev good_answer : Zercle
good_answer = record {
  enabled = true;
  platform_account = b'9' ∷ [];
  answer = λ slip_key. answered good_slip;
}

verify-IsGenuine_example :
    (good_answer.enabled ≡ true)
    × (◌≡◌ {A = ℕ} 300 300)
    × (r : SlipResponse) × (good_answer.answer 8 ≡ answered r)
    × IsGenuine good_answer monday 300 77 waiting_db r
unfolding verify
verify-IsGenuine_example = verify-IsGenuine good_answer monday 8 300 77 300 waiting_db refl

upload_slip-PaysOnce_example :
    PaysOnce (upload_slip good_answer monday false 101 40 8 waiting_db).1.intents
upload_slip-PaysOnce_example =
    upload_slip-PaysOnce good_answer monday false 101 40 8 waiting_db
      (λ i j transaction a b fa fb ea eb. ground arith)

-- The payment of class 10 is held, and slips are reviewed by hand.
abbrev held_db : Db
held_db = record base_db { intents = (40, intent_with PaymentStatus.held_in_escrow none none) ∷ [] }

abbrev by_hand : Zercle
by_hand = record { enabled = false; platform_account = []; answer = λ slip_key. no_answer }

upload_slip_unguarded_example :
    (request_slip_upload 101 40 held_db ≡ (err bad_request, held_db))
    × ((upload_slip by_hand monday false 101 40 8 held_db).0 ≡ ok PaymentStatus.slip_uploaded)
    × (find 40 (upload_slip by_hand monday false 101 40 8 held_db).1.intents
        ≡ some (record (intent_with PaymentStatus.held_in_escrow none none) {
          slip_object_key = some 8;
          slip_uploaded_at = some monday;
          status = PaymentStatus.slip_uploaded;
        }))
upload_slip_unguarded_example =
    upload_slip_unguarded by_hand monday false 101 40 8 1 student_row
      (intent_with PaymentStatus.held_in_escrow none none) held_db refl refl refl refl refl
