-- ===== src/Payments/Payouts/Gathering.antt =====
-- `computeForPeriod` of apps/api/src/payments/payouts.service.ts: the buckets and the runs of one period.
use mathlib.Core.Bool.{false≢true}
use pee_rahat.Prelude.{
  ℕ, ◌+◌, ◌≡◌, refl, sym, ap, subst, ◌∙◌, Bool, true, false, ◌||◌, leb, ◌==◌, any, is_some, sum_by,
  Option, none, some, List, [], ◌∷◌, ◌++◌, Table, find_where, fresh_id, Each, Each-update_where,
  pos, ok, arith, inl, inr, Bool-cases, Option-cases, Result-cases,
}
use pee_rahat.Store.{Booking, PaymentIntent, Db}
use pee_rahat.Store.Effects.{pair_eq}
use pee_rahat.Money.Rounding.{EnvValue}
use pee_rahat.Money.Pricing.{PayoutPricing, price_payout}
use pee_rahat.Payments.Payouts.{
  is_due, Bucket, Buckets, add_to_bucket, booking_of, add_if_booked, gather, is_listed, link_to,
  pay_bucket, pay_buckets, compute_for_period,
}

abbrev pub total_gross : Buckets → ℕ
total_gross = sum_by (λ e. e.1.gross)

abbrev pub amount_if : Option Booking → PaymentIntent → ℕ
amount_if none i = 0
amount_if (some b) i = i.amount_thb

-- What an intent counts for: its amount, if its booking is there.
abbrev pub booked_amount : Db → ℕ × PaymentIntent → ℕ
booked_amount db e = amount_if (booking_of db e.1) e.1

add_to_bucket-total :
    (tutor id : ℕ) (i : PaymentIntent) (bs : Buckets)
    → total_gross (add_to_bucket tutor id i bs) ≡ total_gross bs + i.amount_thb
unfolding add_to_bucket
add_to_bucket-total tutor id i [] = omega arith
add_to_bucket-total tutor id i ((t, b) ∷ rest) = elim (Bool-cases (tutor == t)) [
  | inl same ↦ rw same (omega arith)
  | inr other ↦ rw other (omega (arith, add_to_bucket-total tutor id i rest))
]

add_if_booked-total :
    (o : Option Booking) (id : ℕ) (i : PaymentIntent) (bs : Buckets)
    → total_gross (add_if_booked o id i bs) ≡ total_gross bs + amount_if o i
add_if_booked-total none id i bs = omega arith
add_if_booked-total (some b) id i bs = add_to_bucket-total b.tutor_id id i bs

gather-total_from :
    (db : Db) (t : Table PaymentIntent) (bs : Buckets)
    → total_gross (gather db t bs) ≡ total_gross bs + sum_by (booked_amount db) t
unfolding gather
gather-total_from db [] bs = omega arith
gather-total_from db ((id, i) ∷ rest) bs = omega (
  arith,
  gather-total_from db rest (add_if_booked (booking_of db i) id i bs),
  add_if_booked-total (booking_of db i) id i bs,
)

-- The gross amounts of the tutors sum to the amounts of the intents that have a booking: none is lost,
-- none is counted twice.
pub gather-total :
    (db : Db) (t : Table PaymentIntent)
    → sum_by (λ e. e.1.gross) (gather db t []) ≡ sum_by (booked_amount db) t
gather-total db t = gather-total_from db t [] ∙ (omega arith)

abbrev listed_in : Buckets → ℕ → Bool
listed_in bs id = any (λ e. is_listed e.1.intent_ids id) bs

is_listed-append : (xs : List ℕ) (x y : ℕ) → is_listed (xs ++ x ∷ []) y ≡ (is_listed xs y || x == y)
is_listed-append [] x y = ground arith
is_listed-append (z ∷ zs) x y = ground (arith, is_listed-append zs x y)

add_to_bucket-listed :
    (tutor id : ℕ) (i : PaymentIntent) (bs : Buckets) (k : ℕ)
    → listed_in (add_to_bucket tutor id i bs) k ≡ (listed_in bs k || id == k)
unfolding add_to_bucket
add_to_bucket-listed tutor id i [] k = ground arith
add_to_bucket-listed tutor id i ((t, b) ∷ rest) k =
    ground (arith, is_listed-append b.intent_ids id k, add_to_bucket-listed tutor id i rest k)

add_if_booked-listed :
    (o : Option Booking) (id : ℕ) (i : PaymentIntent) (bs : Buckets) (k : ℕ)
    → listed_in bs k ≡ true
    → listed_in (add_if_booked o id i bs) k ≡ true
add_if_booked-listed none id i bs k h = h
add_if_booked-listed (some b) id i bs k h =
    ground (arith, add_to_bucket-listed b.tutor_id id i bs k)

-- What is listed stays listed.
gather-listed :
    (db : Db) (t : Table PaymentIntent) (bs : Buckets) (k : ℕ)
    → listed_in bs k ≡ true
    → listed_in (gather db t bs) k ≡ true
unfolding gather
gather-listed db [] bs k h = h
gather-listed db ((id, i) ∷ rest) bs k h =
    gather-listed db rest _ k (add_if_booked-listed (booking_of db i) id i bs k h)

abbrev is_booked : Db → PaymentIntent → Bool
is_booked db i = is_some (booking_of db i)

add_if_booked-lists :
    (o : Option Booking) (id : ℕ) (i : PaymentIntent) (bs : Buckets)
    → is_some o ≡ true
    → listed_in (add_if_booked o id i bs) id ≡ true
add_if_booked-lists none id i bs h = cc
add_if_booked-lists (some b) id i bs h = ground (arith, add_to_bucket-listed b.tutor_id id i bs id)

module _ (db : Db) (p : ℕ → PaymentIntent → Bool) (final : Buckets) where
  -- Every selected intent that has a booking ends up in a bucket.
  gather-lists :
      (t : Table PaymentIntent) (bs : Buckets)
      → ((k : ℕ) → listed_in (gather db (find_where p t) bs) k ≡ true → listed_in final k ≡ true)
      → Each (λ k i. p k i ≡ true → is_booked db i ≡ true → listed_in final k ≡ true) t
  unfolding gather
  gather-lists [] bs h = tt
  gather-lists ((id, i) ∷ rest) bs h = elim (Bool-cases (p id i)) [
    | inr miss ↦
        ((λ hit booked. absurd (false≢true (sym miss ∙ hit))), gather-lists rest bs (rw miss at h))
    | inl hit ↦
        let h' : (k : ℕ)
            → listed_in (gather db ((id, i) ∷ find_where p rest) bs) k ≡ true
            → listed_in final k ≡ true =
          rw hit at h in
        (
          (λ _ booked. h' id (
              gather-listed db (find_where p rest) _ id
                (add_if_booked-lists (booking_of db i) id i bs booked))),
          gather-lists rest (add_if_booked (booking_of db i) id i bs) h',
        )
  ]

-- The intents of a period that have a booking and are not paid out stand in the buckets.
abbrev AreListed : Db → ℕ → ℕ → Buckets → Table PaymentIntent → Type 0
AreListed db start end bs =
    Each (λ k i. is_due start end i ≡ true → is_booked db i ≡ true → listed_in bs k ≡ true)

linked_not_due : (start end id : ℕ) (i : PaymentIntent) → is_due start end (link_to id i) ≡ false
unfolding is_due
linked_not_due start end id i = ground arith

module _ (commission withholding : EnvValue) (start end : ℕ) (db0 : Db) where
  after :
      (tutor : ℕ) (b : Bucket) (rest : Buckets) (pricing : PayoutPricing) (db : Db)
      → AreListed db0 start end ((tutor, b) ∷ rest) db.intents
      → AreListed db0 start end rest (pay_bucket start end tutor b pricing db).intents
  unfolding pay_bucket
  after tutor b rest pricing db =
      Each-update_where (λ k _. is_listed b.intent_ids k) (link_to (fresh_id db.payouts)) db.intents
        (λ k i _ hit due.
          absurd (false≢true (sym (linked_not_due start end (fresh_id db.payouts) i) ∙ due)))
        (λ k i listed miss due booked. rw miss at (listed due booked))

  pay_buckets-AreListed :
      (bs : Buckets) (db db' : Db) (n : ℕ)
      → db.bookings ≡ db0.bookings
      → AreListed db0 start end bs db.intents
      → pay_buckets commission withholding start end bs db ≡ (ok n, db')
      → (db'.bookings ≡ db0.bookings) × AreListed db0 start end [] db'.intents
  unfolding pay_buckets pay_bucket
  pay_buckets-AreListed [] db db' n same h e =
      let kept = ap (λ x. x.1) e in
      subst (λ d. (d.bookings ≡ db0.bookings) × AreListed db0 start end [] d.intents) kept (same, h)
  pay_buckets-AreListed ((tutor, b) ∷ rest) db db' n same h e =
      elim (Result-cases (price_payout commission withholding (pos b.gross))) [
        | inr (x, bad) ↦ absurd (ground arith)
        | inl (pricing, good) ↦
            let db1 = pay_bucket start end tutor b pricing db in
            elim (Result-cases (pay_buckets commission withholding start end rest db1).0) [
              | inr (x, bad) ↦ absurd (ground arith)
              | inl (m, more) ↦
                  let ends : (pay_buckets commission withholding start end rest db1).1 ≡ db' =
                    ground arith in
                  pay_buckets-AreListed rest db1 db' m same (after tutor b rest pricing db h)
                    (pair_eq _ more ends)
            ]
      ]

booking_of_same :
    (db db' : Db) (i : PaymentIntent)
    → db'.bookings ≡ db.bookings
    → booking_of db' i ≡ booking_of db i
booking_of_same db db' i same = rw same

gather_nothing :
    (db db' : Db) (start end : ℕ) (t : Table PaymentIntent)
    → db'.bookings ≡ db.bookings
    → AreListed db start end [] t
    → gather db' (find_where (λ _ i. is_due start end i) t) [] ≡ []
unfolding gather
gather_nothing db db' start end [] same h = refl
gather_nothing db db' start end ((id, i) ∷ rest) same h = elim (Bool-cases (is_due start end i)) [
  | inr miss ↦ rw miss (gather_nothing db db' start end rest same h.1)
  | inl hit ↦ elim (Option-cases (booking_of db i)) [
    | inr (b, booked) ↦ absurd (false≢true (h.0 hit (rw booked)))
    | inl unbooked ↦
        let gone = booking_of_same db db' i same ∙ unbooked in
        rw hit (rw (gone, gather) (gather_nothing db db' start end rest same h.1))
  ]
]

-- A payout run is idempotent: after one that ended well, a second one over the same period creates
-- no payout and changes nothing, so no escrow is paid out twice.
pub compute_for_period_twice :
    (commission withholding : EnvValue) (start end n : ℕ) (db db' : Db)
    → compute_for_period commission withholding start end db ≡ (ok n, db')
    → compute_for_period commission withholding start end db' ≡ (ok 0, db')
unfolding compute_for_period
compute_for_period_twice commission withholding start end n db db' e =
    elim (Bool-cases (leb end start)) [
      | inl backwards ↦ absurd (ground arith)
      | inr forwards ↦
          let bs = gather db (find_where (λ _ i. is_due start end i) db.intents) [] in
          let paid : pay_buckets commission withholding start end bs db ≡ (ok n, db') =
            ground arith in
          let listed = gather-lists db (λ _ i. is_due start end i) bs db.intents [] (λ k h. h) in
          let (same, left) =
            pay_buckets-AreListed commission withholding start end db bs db db' n refl listed
              paid in
          let none_left = gather_nothing db db' start end db'.intents same left in
          let idle : pay_buckets commission withholding start end [] db' ≡ (ok 0, db') =
            unfold pay_buckets in refl in
          ground arith
    ]
