-- ===== src/Groups/Flow/Failing.antt =====
-- Which bookings `failGroup` and the two sweeps change.
use pee_rahat.Prelude.{
  ℕ, ◌<◌, ◌≡◌, refl, subst, Bool, true, false, Option, some, [], ◌∷◌, find, find_where, update,
  find-update_cases, Table, Each, Each-find_where-find, arith, inl, inr, ◌⊎◌, Bool-cases,
  Option-cases, HasUniqueIds,
}
use pee_rahat.Store.{GroupStatus, RefundReason, Booking, PaymentIntent, Db}
use pee_rahat.Bookings.Lifecycle.{intent_of}
use pee_rahat.Groups.Failure.{
  is_failed, refund_host, fail_booking, fail_rows, fail_unfailed, fail_group, is_invite_expired,
  is_payment_overdue, fail_each, run_invite_expiry_sweep, run_payment_deadline_sweep,
}
use pee_rahat.Groups.Flow.Steps.{
  rank, Follows, Follows-trans, Touches, Touches-Follows, KeepsBookings, fanout-KeepsBookings,
}

pub refund_host-bookings :
    (k : ℕ) (reason : RefundReason) (intent : Option (ℕ × PaymentIntent)) (db : Db)
    → (refund_host k reason intent db).bookings ≡ db.bookings
unfolding refund_host
refund_host-bookings k reason intent db = ground arith

-- A group that may fail: one that is not confirmed.
abbrev pub Failable : Option GroupStatus → Type 0
Failable s = (is_failed s ≡ true) ⊎ (rank s < 2)

abbrev pub Open : Table Booking → ℕ → Type 0
Open t k = (b : Booking) → find k t ≡ some b → Failable b.group_status

-- `failGroup` makes one row failed and cancelled, or changes no row.
pub fail_group-bookings :
    (k : ℕ) (reason : RefundReason) (db : Db)
    → ((fail_group k reason db).1.bookings ≡ db.bookings)
      ⊎ ((fail_group k reason db).1.bookings ≡ update k fail_booking db.bookings)
        × ((b : Booking) → find k db.bookings ≡ some b → is_failed b.group_status ≡ false)
unfolding fail_group fail_unfailed fail_rows KeepsBookings
fail_group-bookings k reason db = elim (Option-cases (find k db.bookings)) [
  | inl missing ↦ inl (ground arith)
  | inr (b, found) ↦ elim (Bool-cases (is_failed b.group_status)) [
    | inl done ↦ inl (ground arith)
    | inr fresh ↦ inr (
      let db1 = fail_rows k reason (intent_of db k) db in
          let kept = fanout-KeepsBookings k db1 in
          let same = refund_host-bookings k reason (intent_of db k) db in ground arith,
      λ x found2. ground arith,
    )
  ]
]

-- While a group fails, the others stay open to failure.
fail_booking-Open :
    (k j : ℕ) (t t' : Table Booking)
    → (t' ≡ t) ⊎ (t' ≡ update k fail_booking t)
    → Open t j
    → Open t' j
fail_booking-Open k j t t' (inl same) undecided b found = undecided b (rw same at found)
fail_booking-Open k j t t' (inr e) undecided b found =
    let (a, there, which) =
      find-update_cases k j fail_booking t (subst (λ x. find j x ≡ some b) e found) in
    elim which [
      | inl (_, failed) ↦ inl (ground arith)
      | inr (_, same) ↦ subst (λ x. Failable x.group_status) same (undecided a there)
    ]

pub fail_group-Touches :
    (k : ℕ) (reason : RefundReason) (db : Db)
    → Open db.bookings k
    → Touches db.bookings (fail_group k reason db).1.bookings
fail_group-Touches k reason db undecided = elim (fail_group-bookings k reason db) [
  | inl same ↦ inl same
  | inr (e, fresh) ↦ inr (
    k,
    fail_booking,
    e,
    λ b found. elim (undecided b found) [
      | inl done ↦ absurd (let f = fresh b found in cc)
      | inr low ↦ inr (low)
    ],
  )
]

fail_group_step :
    (k j : ℕ) (reason : RefundReason) (db : Db)
    → Open db.bookings j
    → Open (fail_group k reason db).1.bookings j
fail_group_step k j reason db undecided =
    fail_booking-Open k j db.bookings _
      (elim (fail_group-bookings k reason db) [ inl same ↦ inl same | inr e ↦ inr e.0 ]) undecided

AllOpen : Table Booking → Table Booking → Type 0
AllOpen t candidates = Each (λ k _. Open t k) candidates

AllOpen-step :
    (k : ℕ) (reason : RefundReason) (db : Db) (candidates : Table Booking)
    → AllOpen db.bookings candidates
    → AllOpen (fail_group k reason db).1.bookings candidates
unfolding AllOpen
AllOpen-step k reason db [] h = tt
AllOpen-step k reason db ((j, b) ∷ rest) h =
    (fail_group_step k j reason db h.0, AllOpen-step k reason db rest h.1)

fail_each-Follows :
    (reason : RefundReason) (candidates : Table Booking) (db : Db)
    → HasUniqueIds db.bookings
    → AllOpen db.bookings candidates
    → Follows db (fail_each reason candidates db).1
unfolding fail_each AllOpen
fail_each-Follows reason [] db u h = Touches-Follows db db u (inl refl)
fail_each-Follows reason ((k, b) ∷ rest) db u h =
    let db1 = (fail_group k reason db).1 in
    let first = Touches-Follows db db1 u (fail_group-Touches k reason db h.0) in
    Follows-trans db db1 _ first
      (fail_each-Follows reason rest db1 first.unique (AllOpen-step k reason db rest h.1))

-- The candidates of a sweep are rows of the table, and open ones.
candidates-AllOpen :
    (p : ℕ → Booking → Bool) (t : Table Booking)
    → HasUniqueIds t
    → ((k : ℕ) (b : Booking) → p k b ≡ true → rank b.group_status < 2)
    → AllOpen t (find_where p t)
unfolding AllOpen
candidates-AllOpen p t u low = go (find_where p t) (Each-find_where-find p t u)
  where
    go :
        (candidates : Table Booking)
        → Each (λ k b. (p k b ≡ true) × (find k t ≡ some b)) candidates
        → Each (λ k _. Open t k) candidates
    go [] h = tt
    go ((k, b) ∷ rest) h =
        (λ b' found. inr (let l = low k b h.0.0 in let f = h.0.1 in ground arith), go rest h.1)

pub run_invite_expiry_sweep-Follows :
    (now : ℕ) (db : Db) → HasUniqueIds db.bookings → Follows db (run_invite_expiry_sweep now db)
unfolding run_invite_expiry_sweep is_invite_expired
run_invite_expiry_sweep-Follows now db u =
    fail_each-Follows RefundReason.group_invite_expired _ db u
      (candidates-AllOpen (λ _ b. is_invite_expired now b) db.bookings u (λ k b h. ground arith))

pub run_payment_deadline_sweep-Follows :
    (now : ℕ) (db : Db)
    → HasUniqueIds db.bookings
    → Follows db (run_payment_deadline_sweep now db).1
unfolding run_payment_deadline_sweep is_payment_overdue
run_payment_deadline_sweep-Follows now db u =
    fail_each-Follows RefundReason.group_payment_incomplete _ db u
      (candidates-AllOpen (is_payment_overdue now db) db.bookings u (λ k b h. ground arith))
