-- ===== src/Payments/Payouts.antt =====
-- `PayoutsService` (apps/api/src/payments/payouts.service.ts): released escrows are gathered into one
-- payout for each tutor. The environment's percentages are arguments; `Date.now()` is `now`.
pub mod Gathering
pub mod Failure
mod Tests
use pee_rahat.Prelude.{
  ℕ, ◌+◌, ◌-◌, ◌*◌, Bool, true, false, ◌&&◌, not, ltb, leb, ◌==◌, if◌then◌else◌, any, is_some,
  Option, none, some, List, [], ◌∷◌, ◌++◌, map, Table, find, find_where, find_first, update,
  update_where, fresh_id, ℤ, pos, Result, ok, err, not_found, bad_request, or_default,
}
use pee_rahat.Store.{
  PaymentStatus, PaymentItemType, PayoutStatus, Booking, PaymentIntent, Payout, Db, Action, ◌>>=◌,
  ◌>>◌, pure, gets, reads, or_raise, raise_if, modify, transaction,
}
use pee_rahat.Calendar.{day_ms}
use pee_rahat.Money.Rounding.{EnvValue}
use pee_rahat.Money.Pricing.{PayoutPricing, price_payout}

abbrev pub is_released : PaymentStatus → Bool
is_released PaymentStatus.released_for_payout = true
is_released _ = false

abbrev pub is_booking_item : PaymentItemType → Bool
is_booking_item PaymentItemType.booking = true
is_booking_item PaymentItemType.sheet = false

-- `releasedAt: { gte: periodStart, lt: periodEnd }`; a null matches neither.
abbrev pub is_in_period : ℕ → ℕ → Option ℕ → Bool
is_in_period start end none = false
is_in_period start end (some t) = leb start t && ltb t end

-- The `where` of `computeForPeriod`
unfoldable pub is_due : ℕ → ℕ → PaymentIntent → Bool
is_due start end i =
    is_released i.status
    && is_booking_item i.item_type
    && is_in_period start end i.released_at
    && is_some i.booking_id
    && not (is_some i.payout_id)

-- `{ gross, intentIds }`
pub record Bucket : Type 0 where
  pub gross : ℕ
  pub intent_ids : List ℕ

-- `byTutor`: a `Map` in the order in which its keys came.
abbrev pub Buckets : Type 0
Buckets = List (ℕ × Bucket)

unfoldable pub add_to_bucket : ℕ → ℕ → PaymentIntent → Buckets → Buckets
add_to_bucket tutor id i [] = (tutor, record { gross = i.amount_thb; intent_ids = id ∷ [] }) ∷ []
add_to_bucket tutor id i ((t, b) ∷ rest) =
    if tutor == t
    then (t, record { gross = b.gross + i.amount_thb; intent_ids = b.intent_ids ++ id ∷ [] }) ∷ rest
    else (t, b) ∷ add_to_bucket tutor id i rest

-- The booking of the intent that the query includes.
abbrev pub booking_of : Db → PaymentIntent → Option Booking
booking_of db i = elim i.booking_id [ none ↦ none | some k ↦ find k db.bookings ]

abbrev pub add_if_booked : Option Booking → ℕ → PaymentIntent → Buckets → Buckets
add_if_booked none id i buckets = buckets
add_if_booked (some b) id i buckets = add_to_bucket b.tutor_id id i buckets

-- The loop over the intents.
unfoldable pub gather : Db → Table PaymentIntent → Buckets → Buckets
gather db [] buckets = buckets
gather db ((id, i) ∷ rest) buckets = gather db rest (add_if_booked (booking_of db i) id i buckets)

unfoldable pub new_payout : ℕ → ℕ → ℕ → PayoutPricing → Payout
new_payout tutor start end pricing = record {
  tutor_id = tutor;
  period_start = start;
  period_end = end;
  gross_thb = pricing.gross_thb;
  commission_thb = pricing.commission_thb;
  withholding_tax_thb = pricing.withholding_tax_thb;
  net_thb = pricing.net_thb;
  scheduled_at = end;
  status = PayoutStatus.pending;
  transferred_at = none;
  transferred_by = none;
  transfer_slip_key = none;
  notes = none;
  paid_at = none;
}

abbrev pub is_listed : List ℕ → ℕ → Bool
is_listed ids id = any (λ x. x == id) ids

abbrev pub link_to : ℕ → PaymentIntent → PaymentIntent
link_to payout i = record i { payout_id = some payout }

-- The transaction of one tutor: the payout is created and its intents are linked to it.
unfoldable pub pay_bucket : ℕ → ℕ → ℕ → Bucket → PayoutPricing → Db → Db
pay_bucket start end tutor bucket pricing db =
    let id = fresh_id db.payouts in
    record db {
      payouts = (id, new_payout tutor start end pricing) ∷ db.payouts;
      intents = update_where (λ k _. is_listed bucket.intent_ids k) (link_to id) db.intents;
    }

-- The loop over the tutors; the result counts the payouts. A price that cannot be computed stops it,
-- and the payouts before it stay.
unfoldable pub pay_buckets : EnvValue → EnvValue → ℕ → ℕ → Buckets → Action ℕ
pay_buckets commission withholding start end [] = pure 0
pay_buckets commission withholding start end ((tutor, bucket) ∷ rest) = do
  pricing ← reads (λ _. price_payout commission withholding (pos bucket.gross))
  modify (pay_bucket start end tutor bucket pricing)
  count ← pay_buckets commission withholding start end rest
  pure (count + 1)

unfoldable pub compute_for_period : EnvValue → EnvValue → ℕ → ℕ → Action ℕ
compute_for_period commission withholding start end = do
  raise_if (leb end start) bad_request
  buckets ← gets (λ db. gather db (find_where (λ _ i. is_due start end i) db.intents) [])
  pay_buckets commission withholding start end buckets

-- `findFirst` by `periodEnd` descending
abbrev pub last_period_end : Table Payout → Option ℕ
last_period_end [] = none
last_period_end ((_, p) ∷ rest) = elim (last_period_end rest) [
  | none ↦ some p.period_end
  | some t ↦ some (if ltb t p.period_end then p.period_end else t)
]

abbrev pub period_start_at : ℕ → Db → ℕ
period_start_at now db = or_default (last_period_end db.payouts) (now - 60 * day_ms)

unfoldable pub run_scheduled_payout : EnvValue → EnvValue → ℕ → Action ℕ
run_scheduled_payout commission withholding now = do
  start ← gets (period_start_at now)
  compute_for_period commission withholding start now

unfoldable pub generate_batch : EnvValue → EnvValue → ℕ → ℕ → Action ℕ
generate_batch commission withholding now batch_date = do
  start ← gets (period_start_at now)
  compute_for_period commission withholding start batch_date

abbrev pub load_payout : ℕ → Action Payout
load_payout k = do or_raise (← gets (λ db. find k db.payouts)) not_found

abbrev pub is_completed : PayoutStatus → Bool
is_completed PayoutStatus.completed = true
is_completed _ = false

abbrev pub is_linked_to : ℕ → PaymentIntent → Bool
is_linked_to k i = elim i.payout_id [ none ↦ false | some j ↦ j == k ]

unfoldable pub mark_transferred : ℕ → ℕ → ℕ → ℕ → Option ℕ → Action (Unit {0})
mark_transferred now k admin slip note = do
  existing ← load_payout k
  raise_if (is_completed existing.status) bad_request
  modify (λ db. record db {
    payouts =
        update k
          (λ p. record p {
            status = PayoutStatus.completed;
            transferred_at = some now;
            transferred_by = some admin;
            transfer_slip_key = some slip;
            notes = if is_some note then note else p.notes;
            paid_at = some now;
          })
          db.payouts;
    intents =
        update_where (λ _ i. is_linked_to k i) (λ i. record i { status = PaymentStatus.paid_out })
          db.intents;
  })

unfoldable pub mark_failed : ℕ → ℕ → Action (Unit {0})
mark_failed k reason = do
  existing ← load_payout k
  raise_if (is_completed existing.status) bad_request
  modify (λ db. record db {
    payouts =
        update k (λ p. record p { status = PayoutStatus.failed; notes = some reason }) db.payouts;
    intents =
        update_where (λ _ i. is_linked_to k i) (λ i. record i { payout_id = none }) db.intents;
  })
