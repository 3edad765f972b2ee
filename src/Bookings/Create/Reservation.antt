-- ===== src/Bookings/Create/Reservation.antt =====
-- The outcome of `create` of apps/api/src/bookings/bookings.service.ts.
use pee_rahat.Prelude.{
  ℕ, ◌+◌, ◌*◌, ◌≡◌, refl, sym, ap, subst, Bool, true, false, none, List, ◌∷◌, fresh_id, ok, err,
  Error, conflict, arith, inl, inr, ◌⊎◌, Result-cases, Bool-cases,
}
use pee_rahat.Store.{User, TutorProfile, Booking, Db, Effect, is_group}
use pee_rahat.Store.Effects.{pair_eq, Announces, fanout_booking_change-Announces}
use pee_rahat.Calendar.{minute_ms}
use pee_rahat.Bookings.Overlap.{assert_no_overlap}
use pee_rahat.Bookings.Overlap
use pee_rahat.Bookings.Overlap.Soundness.{IsFree, assert_no_overlap-IsFree}
use pee_rahat.Bookings.Exclusive.{
  NoDoubleBooking, NoDoubleBooking-insert, FitsIn, users_of_booking, is_blocking_of_is_live,
}
use pee_rahat.Bookings.Create.{
  CreateBookingDto, session_type_of, new_booking, host_participant, create_checks, create_rows,
  notify_tutor, create,
}
use pee_rahat.Bookings.Create.Guards.{IsAdmitted, create_checks-reads, create_checks-IsAdmitted}

module _ (now : ℕ) (bytes : List ℕ) (input : CreateBookingDto) where
  -- The database after the two insertions.
  abbrev with_rows : ℕ → TutorProfile → Db → Db
  with_rows user_id tutor db = record db {
    bookings = (fresh_id db.bookings, new_booking now bytes user_id tutor input) ∷ db.bookings;
    participants =
        (fresh_id db.participants, host_participant now (fresh_id db.bookings) user_id)
        ∷ db.participants;
  }

  create_rows-cases :
      (user_id : ℕ) (tutor : TutorProfile) (db : Db)
      → (assert_no_overlap db user_id input.scheduled_at input.duration_minutes none ≡ ok tt)
          × (assert_no_overlap db tutor.user_id input.scheduled_at input.duration_minutes none
              ≡ ok tt)
          × (create_rows now bytes user_id tutor input db
              ≡ (ok (fresh_id db.bookings), with_rows user_id tutor db))
        ⊎ (e : Error) × (create_rows now bytes user_id tutor input db ≡ (err e, db))
  unfolding create_rows
  create_rows-cases user_id tutor db =
      elim (Result-cases
        (assert_no_overlap db user_id input.scheduled_at input.duration_minutes none)) [
          | inr (e, h) ↦ inr (e, ground arith)
          | inl (t, h) ↦
              elim (Result-cases (
                assert_no_overlap db tutor.user_id input.scheduled_at input.duration_minutes
                  none)) [
                    | inr (e, k) ↦ inr (e, ground arith)
                    | inl (t', k) ↦ inl (h, k, ground arith)
                  ]
        ]

-- What a booking that was created stands for: the caller was admitted, the interval was free for the
-- student and for the tutor, and exactly the booking and its host's seat were added.
pub record IsReserved (now : ℕ) (bytes : List ℕ) (supabase_id : ℕ) (input : CreateBookingDto)
    (db db' : Db) (id : ℕ) : Type 0 where
  pub user_id : ℕ
  pub caller : User
  pub tutor : TutorProfile
  pub admitted : IsAdmitted now supabase_id input db user_id caller tutor
  pub student_free :
      IsFree db user_id input.scheduled_at
        (input.scheduled_at + input.duration_minutes * minute_ms)
        none
  pub tutor_free :
      IsFree db tutor.user_id input.scheduled_at
        (input.scheduled_at + input.duration_minutes * minute_ms)
        none
  pub new_id : id ≡ fresh_id db.bookings
  pub effects : List Effect
  pub rows : db' ≡ record (with_rows now bytes input user_id tutor db) { effects = effects }

module _ (now : ℕ) (bytes : List ℕ) (supabase_id : ℕ) (input : CreateBookingDto) (db : Db) where
  notify_tutor-Announces :
      (grouped : Bool) (user : ℕ) → Announces {A = Unit {0}} tt (notify_tutor grouped user)
  notify_tutor-Announces true user db = (db.effects, refl)
  notify_tutor-Announces false user db = (_, refl)

  reserve :
      (user_id : ℕ) (tutor : TutorProfile)
      → create_checks now supabase_id input db ≡ (ok (user_id, tutor), db)
      → create_rows now bytes user_id tutor input db
        ≡ (ok (fresh_id db.bookings), with_rows now bytes input user_id tutor db)
      → (es : List Effect) × (create now bytes false supabase_id input db ≡ (
        ok (fresh_id db.bookings),
        record (with_rows now bytes input user_id tutor db) { effects = es },
      ))
  unfolding create
  reserve user_id tutor checked stored =
      let db1 = with_rows now bytes input user_id tutor db in
      let (es, noted) =
        notify_tutor-Announces (is_group (session_type_of input)) tutor.user_id db1 in
      let (es', fanned) =
        fanout_booking_change-Announces (fresh_id db.bookings) (record db1 { effects = es }) in
      (es', ground arith)

  -- A call either reserves, or throws and leaves the database as it was.
  create-cases :
      (aborted : Bool)
      → ((id : ℕ) × (db' : Db) × (create now bytes aborted supabase_id input db ≡ (ok id, db'))
          × IsReserved now bytes supabase_id input db db' id)
        ⊎ ((e : Error) × (create now bytes aborted supabase_id input db ≡ (err e, db)))
  unfolding create
  create-cases aborted = elim (Result-cases (create_checks now supabase_id input db).0) [
    | inr (e, h) ↦
        let stop =
          pair_eq (create_checks now supabase_id input db) h
            (create_checks-reads now supabase_id input db) in
        inr (e, ground arith)
    | inl (p, h) ↦
        let go =
          pair_eq (create_checks now supabase_id input db) h
            (create_checks-reads now supabase_id input db) in
        elim (Bool-cases aborted) [
          | inl yes_aborted ↦ inr (conflict, ground arith)
          | inr not_aborted ↦ elim (create_rows-cases now bytes input p.0 p.1 db) [
            | inr (e, stop) ↦ inr (e, ground arith)
            | inl (free, free', stored) ↦
                let (es, done) = reserve p.0 p.1 go stored in
                let (caller, admitted) =
                  create_checks-IsAdmitted now supabase_id input db p.0 p.1 h in
                inl (
                  fresh_id db.bookings,
                  record (with_rows now bytes input p.0 p.1 db) { effects = es },
                  rw not_aborted done,
                  record {
                    user_id = p.0;
                    caller = caller;
                    tutor = p.1;
                    admitted = admitted;
                    student_free = assert_no_overlap-IsFree db _ _ _ none free;
                    tutor_free = assert_no_overlap-IsFree db _ _ _ none free';
                    new_id = refl;
                    effects = es;
                    rows = refl;
                  },
                )
          ]
        ]
  ]

-- A booking is created only for an admitted caller and an interval that is free for the student and
-- for the tutor, and then exactly the booking and its host's seat are added; a call that throws, also
-- when the database aborts its transaction, leaves every table as it was.
pub create-IsReserved :
    (now : ℕ) (bytes : List ℕ) (aborted : Bool) (supabase_id : ℕ) (input : CreateBookingDto)
    (db : Db)
    → ((id : ℕ) × (db' : Db) × (create now bytes aborted supabase_id input db ≡ (ok id, db'))
        × IsReserved now bytes supabase_id input db db' id)
      ⊎ ((e : Error) × (create now bytes aborted supabase_id input db ≡ (err e, db)))
create-IsReserved now bytes aborted supabase_id input db =
    create-cases now bytes supabase_id input db aborted

FitsIn-IsReserved :
    (now : ℕ) (bytes : List ℕ) (supabase_id : ℕ) (input : CreateBookingDto) (db db' : Db) (id : ℕ)
    (r : IsReserved now bytes supabase_id input db db' id)
    → FitsIn db (fresh_id db.bookings) (new_booking now bytes r.user_id r.tutor input)
unfolding new_booking
FitsIn-IsReserved now bytes supabase_id input db db' id r u j c ne found live row_involves
      involves =
    elim (users_of_booking db u (new_booking now bytes r.user_id r.tutor input)
      r.admitted.tutor_found row_involves) [
        | inl same ↦
            r.student_free.bookings_free j c found
              (subst (λ x. involves_user x c) (sym same) involves)
              (is_blocking_of_is_live c.status live) (λ e. cc)
        | inr same ↦
            r.tutor_free.bookings_free j c found
              (subst (λ x. involves_user x c) (sym same) involves)
              (is_blocking_of_is_live c.status live) (λ e. cc)
      ]
  where
    involves_user : ℕ → Booking → Type 0
    involves_user x b = Overlap.involves db x b ≡ true

-- Creating a booking, whatever its outcome, keeps every user from holding two live classes at once.
pub create-NoDoubleBooking :
    (now : ℕ) (bytes : List ℕ) (aborted : Bool) (supabase_id : ℕ) (input : CreateBookingDto)
    (db : Db)
    → NoDoubleBooking db
    → NoDoubleBooking (create now bytes aborted supabase_id input db).1
create-NoDoubleBooking now bytes aborted supabase_id input db h =
    elim (create-cases now bytes supabase_id input db aborted) [
      | inr (e, stop) ↦ rw stop h
      | inl (id, db', done, r) ↦
          let es = ap (λ (d : Db). d.bookings) r.rows in
          let same = ap (λ (d : Db). d.tutors) r.rows in
          let fits = FitsIn-IsReserved now bytes supabase_id input db db' id r in
          rw done (NoDoubleBooking-insert db db' same _ _ es fits h)
    ]
