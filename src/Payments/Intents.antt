-- ===== src/Payments/Intents.antt =====
-- `requestSlipUpload` and `createIntent` of apps/api/src/payments/payments.service.ts. The kind of item
-- and its id are arguments, with the clock and the merchant's id.
mod OnePerBooking
mod Tests
use pee_rahat.Prelude.{
  ℕ, ◌+◌, ◌*◌, Bool, true, false, not, ◌==◌, ◌||◌, if◌then◌else◌, Option, none, some, [], ◌∷◌, Text,
  find, fresh_id, forbidden, not_found, bad_request,
}
use pee_rahat.Store.{
  BookingStatus, PaymentItemType, PaymentStatus, is_group, Booking, PaymentIntent, StudySheet, Db,
  Action, ◌>>=◌, ◌>>◌, pure, raise, gets, reads, or_raise, raise_if, modify, require_user,
}
use pee_rahat.Calendar.{hour_ms}
use pee_rahat.Bookings.Lifecycle.{intent_of, load_booking}
use pee_rahat.Groups.Invite.{is_forming}
use pee_rahat.Groups.Failure.{is_in_review}
use pee_rahat.Payments.PromptPay.{build_prompt_pay_payload}

abbrev pub load_intent : ℕ → Action PaymentIntent
load_intent id = do or_raise (← gets (λ db. find id db.intents)) not_found

-- `uploadable`
abbrev pub is_uploadable : PaymentStatus → Bool
is_uploadable PaymentStatus.pending_transfer = true
is_uploadable PaymentStatus.slip_uploaded = true
is_uploadable PaymentStatus.verifying = true
is_uploadable PaymentStatus.failed = true
is_uploadable _ = false

-- The checks; what is signed is the intent's id.
unfoldable pub request_slip_upload : ℕ → ℕ → Action ℕ
request_slip_upload supabase_id id = do
  user ← require_user supabase_id
  i ← load_intent id
  raise_if (not (i.payer_id == user.0)) forbidden
  raise_if (not (is_uploadable i.status)) bad_request
  pure id

abbrev is_accepted : BookingStatus → Bool
is_accepted BookingStatus.accepted = true
is_accepted _ = false

abbrev pub is_payable : Booking → Bool
is_payable b =
    if is_group b.session_type
    then is_forming b.group_status || is_in_review b.group_status
    else is_accepted b.status

-- A row as it is returned: the deprecated `verified` shows as held in escrow.
abbrev pub shown : PaymentIntent → PaymentIntent
shown i = record i {
  status = elim i.status [ PaymentStatus.verified ↦ PaymentStatus.held_in_escrow | s ↦ s ];
}

abbrev pub new_intent : ℕ → ℕ → PaymentItemType → Option ℕ → Option ℕ → ℕ → Text → PaymentIntent
new_intent now payer item booking_id sheet_id amount payload = record {
  payer_id = payer;
  item_type = item;
  booking_id = booking_id;
  sheet_id = sheet_id;
  amount_thb = amount;
  prompt_pay_qr_payload = payload;
  original_amount_thb = none;
  status = PaymentStatus.pending_transfer;
  slip_object_key = none;
  slip_uploaded_at = none;
  transaction_id = none;
  verified_amount_thb = none;
  zercle_verified_at = none;
  failure_reason = none;
  expires_at = now + 1 * hour_ms;
  released_at = none;
  payout_id = none;
}

unfoldable pub insert_intent : PaymentIntent → Action (ℕ × PaymentIntent)
insert_intent i = do
  id ← gets (λ db. fresh_id db.intents)
  modify (λ db. record db { intents = (id, i) ∷ db.intents })
  pure (id, shown i)

abbrev pub insert_for :
    ℕ → Text → ℕ → PaymentItemType → Option ℕ → Option ℕ → ℕ → Action (ℕ × PaymentIntent)
insert_for now merchant payer item booking_id sheet_id amount = do
  payload ← reads (λ _. build_prompt_pay_payload merchant amount)
  insert_intent (new_intent now payer item booking_id sheet_id amount payload)

abbrev pub existing_or_new :
    ℕ → Text → ℕ → ℕ → Booking → Option (ℕ × PaymentIntent) → Action (ℕ × PaymentIntent)
existing_or_new now merchant payer k b (some (id, i)) = pure (id, shown i)
existing_or_new now merchant payer k b none =
    insert_for now merchant payer PaymentItemType.booking (some k) none b.amount_thb

abbrev load_sheet : ℕ → Action StudySheet
load_sheet id = do or_raise (← gets (λ db. find id db.sheets)) not_found

unfoldable pub create_for_item : ℕ → Text → ℕ → PaymentItemType → ℕ → Action (ℕ × PaymentIntent)
create_for_item now merchant payer PaymentItemType.booking k = do
  b ← load_booking k
  raise_if (not (b.student_id == payer)) forbidden
  raise_if (not (is_payable b)) bad_request
  existing ← gets (λ db. intent_of db k)
  existing_or_new now merchant payer k b existing
create_for_item now merchant payer PaymentItemType.sheet id = do
  s ← load_sheet id
  raise_if s.is_suspended bad_request
  insert_for now merchant payer PaymentItemType.sheet none (some id) s.price_thb

unfoldable pub create_intent : ℕ → Text → ℕ → PaymentItemType → ℕ → Action (ℕ × PaymentIntent)
create_intent now merchant supabase_id item item_id = do
  user ← require_user supabase_id
  create_for_item now merchant user.0 item item_id
