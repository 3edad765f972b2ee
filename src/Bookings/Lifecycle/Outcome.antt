-- ===== src/Bookings/Lifecycle/Outcome.antt =====
-- The outcome of `cancelByStudent`, `rejectByTutor`, `accept` and `endSession`
-- (apps/api/src/bookings/bookings.service.ts).
use pee_rahat.Prelude.{
  ℕ, ◌≤◌, ◌≡◌, refl, true, false, ◌==◌, none, some, List, [], ◌∷◌, ◌++◌, find, find_first, update,
  find-update, Table, if◌then◌else◌, ok, err, Error, arith, inl, inr, ◌⊎◌, Result-cases,
  Option-cases, subst,
}
use pee_rahat.Store.{
  BookingStatus, is_group, User, Booking, Db, Effect, notify, NotificationType, Action,
}
use pee_rahat.Store.Effects.{pair_eq, fanout_booking_change-Announces}
use pee_rahat.Bookings.Overlap.{end_of, is_tutored_by}
use pee_rahat.Bookings.Lifecycle.{
  is_unpaid, is_paid_or_completed, commit, set_status, cancel_checks, cancel_by_student,
  reject_checks, reject_by_tutor, accept_checks, accept, end_checks, set_session_ended, close_class,
  end_session,
}

-- The calls that move one booking, other than `report`.
pub data Call : Type 0 where
  cancel reject accepting ending : Call

abbrev pub perform : Call → ℕ → ℕ → ℕ → Action (Unit {0})
perform cancel now supabase_id k = cancel_by_student supabase_id k
perform reject now supabase_id k = reject_by_tutor supabase_id k
perform accepting now supabase_id k = accept supabase_id k
perform ending now supabase_id k = end_session now supabase_id k

-- Who may make the call, on which booking: the student may withdraw a class that is not paid, the
-- tutor may decline or accept a request and may close a paid class that is over; the first three are
-- for one-on-one classes.
abbrev pub Allows : Call → ℕ → Db → ℕ → Booking → Type 0
Allows cancel now db user b =
    (b.student_id ≡ user) × (is_group b.session_type ≡ false) × (is_unpaid b.status ≡ true)
Allows reject now db user b =
    (is_tutored_by db user b ≡ true)
    × (is_group b.session_type ≡ false)
    × (b.status ≡ BookingStatus.requested)
Allows accepting now db user b =
    (is_tutored_by db user b ≡ true)
    × (is_group b.session_type ≡ false)
    × (b.status ≡ BookingStatus.requested)
Allows ending now db user b =
    (is_tutored_by db user b ≡ true) × (is_paid_or_completed b.status ≡ true) × (end_of b ≤ now)

-- What the call makes of the row; a class that is closed keeps its first closing time.
abbrev pub changed : Call → ℕ → Booking → Booking
changed cancel now b = record b { status = BookingStatus.cancelled_by_student }
changed reject now b = record b { status = BookingStatus.rejected }
changed accepting now b = record b { status = BookingStatus.accepted }
changed ending now b = record b {
  session_ended_at = elim b.session_ended_at [ some t ↦ some t | none ↦ some now ];
}

abbrev checks : Call → ℕ → ℕ → ℕ → Action Booking
checks cancel now supabase_id k = cancel_checks supabase_id k
checks reject now supabase_id k = reject_checks supabase_id k
checks accepting now supabase_id k = accept_checks supabase_id k
checks ending now supabase_id k = end_checks now supabase_id k

-- The row of the caller and that of the booking, which the call may change.
pub record IsPermitted (call : Call) (now supabase_id k : ℕ) (db : Db) (user_id : ℕ) (caller : User)
    (b : Booking) : Type 0 where
  pub known : find_first (λ k u. u.supabase_id == supabase_id) db.users ≡ some (user_id, caller)
  pub found : find k db.bookings ≡ some b
  pub allowed : Allows call now db user_id b

-- The change: row `k` is `b'`, every other booking and every other table is as before.
pub record Changes (k : ℕ) (b' : Booking) (db db' : Db) : Type 0 where
  pub rows : (j : ℕ) → find j db'.bookings ≡ (if j == k then some b' else find j db.bookings)
  pub bookings : Table Booking
  pub effects : List Effect
  pub rest : db' ≡ record db { bookings = bookings; effects = effects }

module _ (now supabase_id k : ℕ) (db : Db) where
  checks-reads : (call : Call) → (checks call now supabase_id k db).1 ≡ db
  unfolding cancel_checks reject_checks accept_checks end_checks
  checks-reads cancel = ground arith
  checks-reads reject = ground arith
  checks-reads accepting = ground arith
  checks-reads ending = ground arith

  permitted :
      (call : Call) (b : Booking) (user_id : ℕ) (caller : User)
      → find_first (λ k u. u.supabase_id == supabase_id) db.users ≡ some (user_id, caller)
      → (checks call now supabase_id k db).0 ≡ ok b
      → IsPermitted call now supabase_id k db user_id caller b
  unfolding cancel_checks reject_checks accept_checks end_checks
  permitted cancel b user_id caller known h = ground arith
  permitted reject b user_id caller known h = ground arith
  permitted accepting b user_id caller known h = ground arith
  permitted ending b user_id caller known h = ground arith

  checks_known :
      (call : Call) {b : Booking}
      → (checks call now supabase_id k db).0 ≡ ok b
      → (user_id : ℕ) × (caller : User) × (find_first (λ k u. u.supabase_id == supabase_id) db.users
          ≡ some (user_id, caller))
  unfolding cancel_checks reject_checks accept_checks end_checks
  checks_known call h =
      elim (Option-cases (find_first (λ k u. u.supabase_id == supabase_id) db.users)) [
        | inr (p, e) ↦ (p.0, p.1, e)
        | inl unknown ↦ absurd (refused call unknown h)
      ]
    where
      refused :
          (call : Call) {b : Booking}
          → find_first (λ k u. u.supabase_id == supabase_id) db.users ≡ none
          → (checks call now supabase_id k db).0 ≡ ok b
          → ⊥
      refused cancel unknown h = ground arith
      refused reject unknown h = ground arith
      refused accepting unknown h = ground arith
      refused ending unknown h = ground arith

  commit-Changes :
      (b : Booking) (f : Booking → Booking) (notes : List Effect)
      → find k db.bookings ≡ some b
      → (db' : Db) × (commit k f notes db ≡ (ok tt, db')) × Changes k (f b) db db'
  unfolding commit
  commit-Changes b f notes found =
      let db1 : Db = record db {
        bookings = update k f db.bookings;
        effects = notes ++ db.effects;
      } in
      let (es, fanned) = fanout_booking_change-Announces k db1 in
      (
        record db1 { effects = es },
        ground arith,
        record {
          rows = λ j. ground (arith, find-update k j f db.bookings);
          bookings = update k f db.bookings;
          effects = es;
          rest = refl;
        },
      )

  close_class-Changes :
      (b : Booking)
      → find k db.bookings ≡ some b
      → (db' : Db) × (close_class now k b db ≡ (ok tt, db'))
        × Changes k (changed ending now b) db db'
  unfolding close_class
  close_class-Changes b found = elim (Option-cases b.session_ended_at) [
    | inl open_class ↦
        let (db', done, c) =
          commit-Changes b (set_session_ended now)
            (notify b.student_id NotificationType.booking_meeting_ready ∷ []) found in
        let same : set_session_ended now b ≡ changed ending now b = ground arith in
        (db', ground arith, subst (λ x. Changes k x db db') same c)
    | inr (t, ended) ↦
        let same : changed ending now b ≡ b = ground arith in
        (
          db,
          ground arith,
          record {
            rows = λ j. ground arith;
            bookings = db.bookings;
            effects = db.effects;
            rest = refl;
          },
        )
  ]

  perform_rest :
      (call : Call) (b : Booking)
      → checks call now supabase_id k db ≡ (ok b, db)
      → find k db.bookings ≡ some b
      → (db' : Db) × (perform call now supabase_id k db ≡ (ok tt, db'))
        × Changes k (changed call now b) db db'
  unfolding cancel_by_student reject_by_tutor accept end_session
  perform_rest cancel b go found =
      let (db', done, c) =
        commit-Changes b (set_status BookingStatus.cancelled_by_student) [] found in
      (db', ground arith, c)
  perform_rest reject b go found =
      let (db', done, c) =
        commit-Changes b (set_status BookingStatus.rejected)
          (notify b.student_id NotificationType.booking_rejected ∷ []) found in
      (db', ground arith, c)
  perform_rest accepting b go found =
      let (db', done, c) =
        commit-Changes b (set_status BookingStatus.accepted)
          (notify b.student_id NotificationType.booking_accepted ∷ []) found in
      (db', ground arith, c)
  perform_rest ending b go found =
      let (db', done, c) = close_class-Changes b found in (db', ground arith, c)

  perform_stops :
      (call : Call) (e : Error)
      → checks call now supabase_id k db ≡ (err e, db)
      → perform call now supabase_id k db ≡ (err e, db)
  unfolding cancel_by_student reject_by_tutor accept end_session
  perform_stops cancel e stop = ground arith
  perform_stops reject e stop = ground arith
  perform_stops accepting e stop = ground arith
  perform_stops ending e stop = ground arith

-- Each of the four calls either throws and leaves the database as it was, or was made by a permitted
-- user on a booking in a permitted state, and then changes that one row, as the call says, and no
-- other booking, escrow or seat.
pub perform-Changes :
    (call : Call) (now supabase_id k : ℕ) (db : Db)
    → ((user_id : ℕ) × (caller : User) × (b : Booking) × (db' : Db) × IsPermitted call now
          supabase_id k db user_id caller b
        × (perform call now supabase_id k db ≡ (ok tt, db'))
        × Changes k (changed call now b) db db')
      ⊎ ((e : Error) × (perform call now supabase_id k db ≡ (err e, db)))
perform-Changes call now supabase_id k db =
    elim (Result-cases (checks call now supabase_id k db).0) [
      | inr (e, h) ↦
          let stop = pair_eq _ h (checks-reads now supabase_id k db call) in
          inr (e, perform_stops now supabase_id k db call e stop)
      | inl (b, h) ↦
          let go = pair_eq _ h (checks-reads now supabase_id k db call) in
          let (user_id, caller, known) = checks_known now supabase_id k db call h in
          let p = permitted now supabase_id k db call b user_id caller known h in
          let (db', done, c) = perform_rest now supabase_id k db call b go p.found in
          inl (user_id, caller, b, db', p, done, c)
    ]
