-- ===== src/Payments/Zercle/Genuine.antt =====
-- The slips that `ZercleSlipService.verify` accepts.
use pee_rahat.Prelude.{
  ℕ, ◌+◌, ◌*◌, ◌≤◌, ◌≡◌, ◌≢◌, refl, true, false, none, some, find, find_first, find-find_first-none,
  Text, [], ◌⊎◌, arith, text_eq_iff,
}
use pee_rahat.Store.{PaymentIntent, Db}
use pee_rahat.Calendar.{hour_ms}
use pee_rahat.Payments.Zercle.{
  SlipResponse, Answer, unreadable, no_answer, answered, Zercle, accepted, verify, was_seen,
  has_transaction, check_response, check_answer,
}

-- The answer of the outside service for a slip that may count: a success, of exactly the amount that
-- is due, with a transaction that no intent has; to the platform's account if both that and the account
-- of the answer are known; and not made longer than 24 hours ago if its date is known (a date in the
-- future passes).
pub record IsGenuine (zercle : Zercle) (now expected transaction : ℕ) (db : Db) (r : SlipResponse)
    : Type 0 where
  pub success : r.success ≡ true
  pub amount : r.amount ≡ some expected
  pub recipient :
      (account : Text)
      → r.recipient_account ≡ some account
      → (zercle.platform_account ≡ []) ⊎ (account ≡ zercle.platform_account)
  pub transaction_id : r.transaction_id ≡ some transaction
  pub recent : (t : ℕ) → r.transfer_date ≡ some t → now ≤ t + 24 * hour_ms
  pub unused :
      (j : ℕ) (i : PaymentIntent) → find j db.intents ≡ some i → i.transaction_id ≢ some transaction

not-was_seen :
    (t : ℕ) (db : Db)
    → was_seen db t ≡ false
    → (j : ℕ) (i : PaymentIntent) → find j db.intents ≡ some i
    → i.transaction_id ≢ some t
not-was_seen t db unseen j i there same =
    let free : find_first (λ _ x. has_transaction t x) db.intents ≡ none = ground arith in
    let other = find-find_first-none (λ _ x. has_transaction t x) j db.intents free there in
    absurd (ground (arith, same, other))

check_response-IsGenuine :
    (zercle : Zercle) (now expected transaction amount : ℕ) (db : Db) (r : SlipResponse)
    → check_response zercle now expected db r ≡ accepted transaction amount
    → (amount ≡ expected) × IsGenuine zercle now expected transaction db r
check_response-IsGenuine zercle now expected transaction amount db r h = (
  ground arith,
  record {
    success = ground arith;
    amount = ground arith;
    recipient = λ account e. let same = text_eq_iff account zercle.platform_account in ground arith;
    transaction_id = ground arith;
    recent = λ t e. ground arith;
    unused = not-was_seen transaction db (ground arith);
  },
)

answered_of :
    (zercle : Zercle) (now expected transaction amount : ℕ) (db : Db) (a : Answer)
    → check_answer zercle now expected db a ≡ accepted transaction amount
    → (r : SlipResponse) × (a ≡ answered r)
answered_of zercle now expected transaction amount db unreadable h = cc
answered_of zercle now expected transaction amount db no_answer h = cc
answered_of zercle now expected transaction amount db (answered r) h = (r, refl)

-- A slip is accepted only if the service is enabled and its answer for this slip is a success of exactly
-- the amount that is due, with a transaction that no intent has. If the platform's account and that of
-- the answer are both known, they are the same, and if the date of the answer is known, it is not longer
-- than 24 hours ago; an answer without an account or a date is not refused for that, and neither is one
-- with a date in the future.
pub verify-IsGenuine :
    (zercle : Zercle) (now slip_key expected transaction amount : ℕ) (db : Db)
    → verify zercle now slip_key expected db ≡ accepted transaction amount
    → (zercle.enabled ≡ true)
      × (amount ≡ expected)
      × (r : SlipResponse) × (zercle.answer slip_key ≡ answered r)
      × IsGenuine zercle now expected transaction db r
unfolding verify
verify-IsGenuine zercle now slip_key expected transaction amount db h =
    let enabled : zercle.enabled ≡ true = ground arith in
    let checked : check_answer zercle now expected db (zercle.answer slip_key)
        ≡ accepted transaction amount =
      ground arith in
    let (r, e) =
      answered_of zercle now expected transaction amount db (zercle.answer slip_key) checked in
    let (same, genuine) =
      check_response-IsGenuine zercle now expected transaction amount db r (rw e at checked) in
    (enabled, same, r, e, genuine)
