-- ===== src/Reports/Resolution/Refunds.antt =====
-- What `refundBooking` does with the money.
use pee_rahat.Prelude.{
  ℕ, ◌≡◌, refl, sym, ap, subst, Bool, true, false, Bool-cases, some, [], ◌∷◌, inl, inr, Table, find,
  find_first, find-find_first, HasUniqueIds, update, find-update, fresh_id, leb, if◌then◌else◌, pos,
  pos_part, ◌+ℤ◌, int_laws, ok, arith, map,
}
use pee_rahat.Store.{PaymentStatus, Booking, PaymentIntent, RefundLedger, Report, Db}
use pee_rahat.Bookings.Lifecycle.{intent_of, belongs_to}
use pee_rahat.Reports.Resolution.{
  RefundSplitDto, Parts, parts_of, original_amount, settle_refund, admin_ledger, refund_parts,
  load_linked_payment, refund_in_full, refund_in_part,
}

-- One row of the ledger is written, whose three parts sum to the original amount; the payment keeps
-- the tutor's part, and is refunded exactly if the student gets all.
pub record IsAdminSplit (k id : ℕ) (x : PaymentIntent) (l : RefundLedger) (db db' : Db)
    : Type 0 where
  pub ledgers : db'.ledgers ≡ (fresh_id db.ledgers, l) ∷ db.ledgers
  pub adds_up : l.student_refund_thb +ℤ l.tutor_thb +ℤ l.platform_thb ≡ pos (original_amount x)
  pub intent :
      (left : PaymentIntent) × (find id db'.intents ≡ some left)
      × (l.tutor_thb ≡ pos left.amount_thb)
      × (left.original_amount_thb ≡ some (original_amount x))
      × (left.status ≡ (
          if leb (pos_part (pos (original_amount x))) (pos_part l.student_refund_thb)
          then PaymentStatus.refunded
          else PaymentStatus.partially_refunded))

module _ (report_id k id : ℕ) (x : PaymentIntent) (db : Db) where
  refund_parts-IsAdminSplit :
      (p : Parts)
      → find id db.intents ≡ some x
      → pos p.student +ℤ pos p.tutor +ℤ p.platform ≡ pos (original_amount x)
      → (l : RefundLedger) × ((refund_parts report_id k id (original_amount x) p db).0 ≡ ok tt)
        × IsAdminSplit k id x l db (refund_parts report_id k id (original_amount x) p db).1
  unfolding refund_parts
  refund_parts-IsAdminSplit p there balance =
      let original = original_amount x in
      let f =
        settle_refund
          (if leb original p.student
            then PaymentStatus.refunded
            else PaymentStatus.partially_refunded)
          p.tutor original in
      (
        admin_ledger report_id id k original p.student p.tutor p.platform,
        refl,
        record {
          ledgers = refl;
          adds_up = balance;
          intent = (f x, ground (arith, find-update id id f db.intents), refl, refl, refl);
        },
      )

parts_of-total :
    (original : ℕ) (s : RefundSplitDto)
    → let p = parts_of original s in pos p.student +ℤ pos p.tutor +ℤ p.platform ≡ pos original
parts_of-total original s = omega int_laws

load_linked_payment_lem :
    (r : Report) (k id : ℕ) (b : Booking) (x : PaymentIntent) (db : Db)
    → r.linked_booking_id ≡ some k
    → find k db.bookings ≡ some b
    → intent_of db k ≡ some (id, x)
    → load_linked_payment r db ≡ (ok (k, b, id, x), db)
unfolding load_linked_payment
load_linked_payment_lem r k id b x db linked found paid = ground arith

-- A partial refund of a class that has a payment never throws when a split is given, whatever its
-- percentages: it moves the money as `IsAdminSplit` says.
pub refund_in_part-IsAdminSplit :
    (report_id : ℕ) (r : Report) (s : RefundSplitDto) (k id : ℕ) (b : Booking) (x : PaymentIntent)
    (db : Db)
    → r.linked_booking_id ≡ some k
    → find k db.bookings ≡ some b
    → HasUniqueIds db.intents
    → intent_of db k ≡ some (id, x)
    → (l : RefundLedger) × ((refund_in_part report_id r (some s) db).0 ≡ ok tt)
      × IsAdminSplit k id x l db (refund_in_part report_id r (some s) db).1
unfolding refund_in_part
refund_in_part-IsAdminSplit report_id r s k id b x db linked found u paid =
    let loaded = load_linked_payment_lem r k id b x db linked found paid in
    let there = find-find_first (λ _ i. belongs_to k i) db.intents u paid in
    let p = parts_of (original_amount x) s in
    let same : refund_in_part report_id r (some s) db
        ≡ refund_parts report_id k id (original_amount x) p db =
      ground arith in
    subst (λ y. (l : RefundLedger) × (y.0 ≡ ok tt) × IsAdminSplit k id x l db y.1) (sym same)
      (refund_parts-IsAdminSplit report_id k id x db p there (parts_of-total (original_amount x) s))

-- The first row that passes a test, after an update that does not change the test.
find_first-update :
    (p : PaymentIntent → Bool) (f : PaymentIntent → PaymentIntent) (id : ℕ) (x : PaymentIntent)
    (t : Table PaymentIntent)
    → ((i : PaymentIntent) → p (f i) ≡ p i)
    → find_first (λ _ i. p i) t ≡ some (id, x)
    → find_first (λ _ i. p i) (update id f t) ≡ some (id, f x)
find_first-update p f id x [] same e = cc
find_first-update p f id x ((j, y) ∷ t) same e = elim (Bool-cases (p y)) [
  | inl hit ↦ let s = same y in ground arith
  | inr miss ↦
      let s = same y in let rest = find_first-update p f id x t same (rw miss at e) in ground arith
]

-- The tables after a full refund.
abbrev after_refund : ℕ → ℕ → ℕ → ℕ → Db → Db
after_refund report_id k id original db = record db {
  intents = update id (settle_refund PaymentStatus.refunded 0 original) db.intents;
  ledgers =
      (fresh_id db.ledgers, admin_ledger report_id id k original original 0 (pos 0)) ∷ db.ledgers;
}

refund_in_full_lem :
    (report_id : ℕ) (r : Report) (k id : ℕ) (b : Booking) (x : PaymentIntent) (db : Db)
    → r.linked_booking_id ≡ some k
    → find k db.bookings ≡ some b
    → intent_of db k ≡ some (id, x)
    → refund_in_full report_id r false db
      ≡ (ok tt, after_refund report_id k id (original_amount x) db)
unfolding refund_in_full refund_parts
refund_in_full_lem report_id r k id b x db linked found paid =
    let loaded = load_linked_payment_lem r k id b x db linked found paid in
    let all : leb (original_amount x) (original_amount x) ≡ true = ground arith in ground arith

-- The original amount is refunded by each of two reports on one class: after a full refund, whatever
-- the state of the payment, a full refund on another report succeeds too, and the ledger then says
-- twice that the student has got all of it.
pub refund_in_full_again :
    (report_id other_id : ℕ) (r other : Report) (k id : ℕ) (b : Booking) (x : PaymentIntent)
    (db : Db)
    → r.linked_booking_id ≡ some k
    → other.linked_booking_id ≡ some k
    → find k db.bookings ≡ some b
    → intent_of db k ≡ some (id, x)
    → let first = refund_in_full report_id r false db in
      let second = refund_in_full other_id other false first.1 in
      (l l' : RefundLedger) × (first.0 ≡ ok tt)
      × (second.0 ≡ ok tt)
      × (map (λ row. row.1) second.1.ledgers ≡ l' ∷ l ∷ map (λ row. row.1) db.ledgers)
      × (l.student_refund_thb ≡ pos (original_amount x))
      × (l'.student_refund_thb ≡ pos (original_amount x))
refund_in_full_again report_id other_id r other k id b x db linked linked' found paid =
    let original = original_amount x in
    let f = settle_refund PaymentStatus.refunded 0 original in
    let db1 = after_refund report_id k id original db in
    let one = refund_in_full_lem report_id r k id b x db linked found paid in
    let paid1 : intent_of db1 k ≡ some (id, f x) =
      find_first-update (belongs_to k) f id x db.intents (λ i. refl) paid in
    let two = refund_in_full_lem other_id other k id b (f x) db1 linked' found paid1 in
    (
      admin_ledger report_id id k original original 0 (pos 0),
      admin_ledger other_id id k original original 0 (pos 0),
      ap (λ y. y.0) one,
      rw one (ap (λ y. y.0) two),
      rw one (ap (λ y. map (λ row. row.1) y.1.ledgers) two),
      refl,
      refl,
    )
