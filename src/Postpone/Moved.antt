-- ===== src/Postpone/Moved.antt =====
-- The outcome of `confirm` of apps/api/src/bookings/postpone.service.ts, and the overlap invariant.
use pee_rahat.Prelude.{
  ℕ, ◌+◌, ◌*◌, ◌≡◌, ◌≢◌, refl, sym, ap, subst, ◌∙◌, ◌==◌, none, some, [], Bool, Table, ◌∷◌, find,
  find_first, find-fresh_id, find-update, fresh_id, ok, err, Error, arith, inl, inr, ◌⊎◌,
  Bool-cases, Option-cases,
}
use pee_rahat.Calendar.{minute_ms}
use pee_rahat.Money.RefundPolicy.{agreed}
use pee_rahat.Store.{BookingStatus, PostponeStatus, Booking, PaymentIntent, PostponeRequest, Db}
use pee_rahat.Bookings.Overlap.Soundness.{IsFree, assert_no_overlap-IsFree}
use pee_rahat.Bookings.Exclusive.{NoDoubleBooking}
use pee_rahat.Bookings.Lifecycle.{intent_of, belongs_to}
use pee_rahat.Postpone.Requests.{ActiveRequest}
use pee_rahat.Postpone.Confirm.{Proposal, moved_booking, mark_postponed, move_rows, confirm}
use pee_rahat.Postpone.Slots.{move_rows-NoDoubleBooking}
use pee_rahat.Postpone.Committed.{
  IsOpen, IsConfirmable, IsCommitted, move_rows-bookings, confirm-IsCommitted,
}

-- The class `k` may move: its negotiation is open, the caller takes part in it and has not begun it, a
-- slot of some length is proposed, which both are free to take, and the class has a payment.
pub record IsMovable (supabase_id k : ℕ) (db : Db) (a : ActiveRequest) (s : Proposal)
    (intent : ℕ × PaymentIntent) : Type 0 where
  pub is_open : IsOpen supabase_id db k a
  pub proposed_at : a.request.proposed_at ≡ some s.at
  pub proposed_duration : a.request.proposed_duration ≡ some s.minutes
  pub not_empty : s.minutes ≢ 0
  pub by_counterparty : a.request.initiator_id ≢ a.user_id
  pub student_free : IsFree db a.booking.student_id s.at (s.at + s.minutes * minute_ms) (some k)
  pub tutor_free : IsFree db a.tutor.user_id s.at (s.at + s.minutes * minute_ms) (some k)
  pub paid_by : intent_of db k ≡ some intent
  pub pays_for : intent.1.booking_id ≡ some k

-- The class that takes the place of `b` at the slot, paid with the same amount.
pub record IsMovedTo (b : Booking) (s : Proposal) (c : Booking) : Type 0 where
  pub same_student : c.student_id ≡ b.student_id
  pub same_tutor : c.tutor_id ≡ b.tutor_id
  pub same_subject : c.subject ≡ b.subject
  pub same_amount : c.amount_thb ≡ b.amount_thb
  pub paid : c.status ≡ BookingStatus.paid
  pub starts : c.scheduled_at ≡ s.at
  pub lasts : c.duration_minutes ≡ s.minutes
  pub no_request : c.postpone_request_id ≡ none

-- What a confirmation that ends well leaves behind: the old class is marked as postponed, without its
-- call and its event; the class `id` is new; the payment is the new class's; the request is agreed;
-- and nothing else in the tables has changed.
pub record IsMoved (now supabase_id k : ℕ) (db db' : Db) (id : ℕ) : Type 0 where
  pub active : ActiveRequest
  pub slot : Proposal
  pub intent : ℕ × PaymentIntent
  pub movable : IsMovable supabase_id k db active slot intent
  pub is_new : find id db.bookings ≡ none
  pub old_class :
      find k db'.bookings
      ≡ some (record active.booking {
        status = BookingStatus.postponed;
        meeting_url = none;
        google_calendar_event_id = none;
      })
  pub new_class : (c : Booking) × (find id db'.bookings ≡ some c) × IsMovedTo active.booking slot c
  pub other_classes : (j : ℕ) → j ≢ k → j ≢ id → find j db'.bookings ≡ find j db.bookings
  pub payment_moved :
      (i : PaymentIntent) × (find intent.0 db.intents ≡ some i)
      × (find intent.0 db'.intents ≡ some (record i { booking_id = some id }))
  pub other_payments : (j : ℕ) → j ≢ intent.0 → find j db'.intents ≡ find j db.intents
  pub request_agreed :
      find active.request_id db'.requests
      ≡ some (record active.request {
        status = PostponeStatus.agreed;
        resolved_as = some agreed;
        resolved_at = some now;
      })
  pub other_requests : (j : ℕ) → j ≢ active.request_id → find j db'.requests ≡ find j db.requests
  pub rest : db' ≡ record db {
    bookings = db'.bookings;
    intents = db'.intents;
    requests = db'.requests;
    effects = db'.effects;
  }

-- The payment that is found is that of the class.
find_first-pays :
    (k : ℕ) {row : ℕ × PaymentIntent} (t : Table PaymentIntent)
    → find_first (λ _ i. belongs_to k i) t ≡ some row
    → row.1.booking_id ≡ some k
find_first-pays k [] e = absurd (ground arith)
find_first-pays k {row} ((j, i) ∷ t) e = elim (Bool-cases (belongs_to k i)) [
  | inl hit ↦ elim (Option-cases i.booking_id) [
    | inl nothing ↦ absurd (ground (arith, hit, nothing))
    | inr (c, at) ↦ ground (arith, e, hit, at)
  ]
  | inr miss ↦ find_first-pays k t (rw miss at e)
]

IsConfirmable-IsMovable :
    (supabase_id k : ℕ) (db : Db) (a : ActiveRequest) (s : Proposal) (intent : ℕ × PaymentIntent)
    → IsConfirmable supabase_id k db a s
    → intent_of db k ≡ some intent
    → IsMovable supabase_id k db a s intent
IsConfirmable-IsMovable supabase_id k db a s intent h linked =
    let p = h.proposed in
    record {
      is_open = h.is_open;
      proposed_at = ground arith;
      proposed_duration = ground arith;
      not_empty = ground arith;
      by_counterparty = h.by_counterparty;
      student_free = assert_no_overlap-IsFree db _ _ _ (some k) h.student_free;
      tutor_free = assert_no_overlap-IsFree db _ _ _ (some k) h.tutor_free;
      paid_by = linked;
      pays_for = find_first-pays k db.intents linked;
    }

-- The id of a row that was found is in the table.
find-found :
    (p : ℕ → PaymentIntent → Bool) {k : ℕ} {r : PaymentIntent} (t : Table PaymentIntent)
    → find_first p t ≡ some (k, r)
    → (i : PaymentIntent) × (find k t ≡ some i)
find-found p [] e = absurd (ground arith)
find-found p {k} ((j, s) ∷ t) e = elim (Bool-cases (k == j)) [
  | inl same ↦ (s, ground arith)
  | inr other ↦ elim (Bool-cases (p j s)) [
    | inl hit ↦ absurd (ground arith)
    | inr miss ↦ let (i, there) = find-found p t (rw miss at e) in (i, rw other there)
  ]
]

IsCommitted-IsMoved :
    (now supabase_id k : ℕ) (db db' : Db) (id : ℕ)
    → IsCommitted now supabase_id k db db' id
    → IsMoved now supabase_id k db db' id
unfolding move_rows moved_booking
IsCommitted-IsMoved now supabase_id k db db' id m =
    let a = m.active in
    let s = m.slot in
    let open_now = m.confirmable.is_open in
    let found = open_now.booking_found in
    let asked = open_now.request_found in
    let rows =
      ap (λ (d : Db). d.bookings) m.rows ∙ move_rows-bookings now k db a s m.intent.0 found in
    let intents = ap (λ (d : Db). d.intents) m.rows in
    let requests = ap (λ (d : Db). d.requests) m.rows in
    let new_id = m.new_id in
    let paid_by = m.escrow in
    let gone = find-fresh_id (fresh_id db.bookings) db.bookings (omega arith) in
    let link : PaymentIntent → PaymentIntent =
      λ i. record i { booking_id = some (fresh_id db.bookings) } in
    let agree : PostponeRequest → PostponeRequest = λ r. record r {
      status = PostponeStatus.agreed;
      resolved_as = some agreed;
      resolved_at = some now;
    } in
    let (i, there) = find-found (λ _ i. belongs_to k i) db.intents paid_by in
    record {
      active = a;
      slot = s;
      intent = m.intent;
      movable = IsConfirmable-IsMovable supabase_id k db a s m.intent m.confirmable paid_by;
      is_new = rw new_id gone;
      old_class = rw rows (ground (arith, found, gone, find-update k k mark_postponed db.bookings));
      new_class = (
        moved_booking a.booking s,
        rw (rows, new_id) (ground arith),
        record {
          same_student = refl;
          same_tutor = refl;
          same_subject = refl;
          same_amount = refl;
          paid = refl;
          starts = refl;
          lasts = refl;
          no_request = refl;
        },
      );
      other_classes =
          λ j ne ne'. rw rows (ground (arith, new_id, find-update k j mark_postponed db.bookings));
      payment_moved = (
        i,
        there,
        rw (intents, new_id)
            (ground (arith, there, find-update m.intent.0 m.intent.0 link db.intents)),
      );
      other_payments =
          λ j ne. rw intents (ground (arith, find-update m.intent.0 j link db.intents));
      request_agreed =
          rw requests
            (ground (arith, asked, find-update a.request_id a.request_id agree db.requests));
      other_requests =
          λ j ne. rw requests (ground (arith, find-update a.request_id j agree db.requests));
      rest =
          subst
            (λ (x : Db). x ≡ record db {
              bookings = x.bookings;
              intents = x.intents;
              requests = x.requests;
              effects = x.effects;
            })
            (sym m.rows) refl;
    }

-- A confirmation either finds that the class may move and leaves the old class postponed, a new paid one
-- at the slot, the payment with the new class, the request agreed and all else in the tables as it was,
-- or throws and leaves the database as it was.
pub confirm-IsMoved :
    (now supabase_id k : ℕ) (db : Db)
    → ((id : ℕ) × (db' : Db) × (confirm now supabase_id k db ≡ (ok id, db'))
        × IsMoved now supabase_id k db db' id)
      ⊎ ((e : Error) × (confirm now supabase_id k db ≡ (err e, db)))
confirm-IsMoved now supabase_id k db = elim (confirm-IsCommitted now supabase_id k db) [
  | inr thrown ↦ inr thrown
  | inl (id, db', done, m) ↦ inl (id, db', done, IsCommitted-IsMoved now supabase_id k db db' id m)
]

-- Moving a class, whatever the outcome of the call, keeps every user from holding two live classes at
-- once; the class that moves does not count against its own new slot.
pub confirm-NoDoubleBooking :
    (now supabase_id k : ℕ) (db : Db)
    → NoDoubleBooking db
    → NoDoubleBooking (confirm now supabase_id k db).1
confirm-NoDoubleBooking now supabase_id k db free =
    elim (confirm-IsCommitted now supabase_id k db) [
      | inr (e, stop) ↦ rw stop free
      | inl (id, db', done, m) ↦ rw done (
          move_rows-NoDoubleBooking now supabase_id k db m.active m.slot m.intent.0 db'
            m.confirmable (ap (λ (d : Db). d.bookings) m.rows)
            (ap (λ (d : Db). d.tutors) m.rows ∙ unfold move_rows in refl) free)
    ]
