-- ===== src/Bookings/Create/Guards.antt =====
-- The checks of `create` (apps/api/src/bookings/bookings.service.ts) before its transaction.
use pee_rahat.Prelude.{
  ℕ, ◌≤◌, ◌≡◌, ◌≢◌, true, false, ◌==◌, some, find, find_first, ok, arith, inl, inr, Option-cases,
}
use pee_rahat.Store.{is_group, User, TutorProfile, Db}
use pee_rahat.Calendar.{start_of_tomorrow_bangkok}
use pee_rahat.Bookings.Create.{
  CreateBookingDto, session_type_of, capacity_of, is_suspended, create_checks, group_min_capacity,
  group_max_capacity,
}

-- The request may be booked: its caller is a known user other than the tutor, the tutor is there and
-- is not suspended, the class is not in the past, and a group has 2 to 10 seats and begins on a later
-- day of Bangkok.
pub record IsAdmitted (now supabase_id : ℕ) (input : CreateBookingDto) (db : Db) (user_id : ℕ)
    (caller : User) (tutor : TutorProfile) : Type 0 where
  pub known : find_first (λ k u. u.supabase_id == supabase_id) db.users ≡ some (user_id, caller)
  pub tutor_found : find input.tutor_id db.tutors ≡ some tutor
  pub not_own : tutor.user_id ≢ user_id
  pub not_suspended : is_suspended now (find tutor.user_id db.users) ≡ false
  pub not_past : now ≤ input.scheduled_at
  pub enough_seats :
      is_group (session_type_of input) ≡ true → group_min_capacity ≤ capacity_of input
  pub few_seats : is_group (session_type_of input) ≡ true → capacity_of input ≤ group_max_capacity
  pub later_day :
      is_group (session_type_of input) ≡ true → start_of_tomorrow_bangkok now ≤ input.scheduled_at

module _ (now supabase_id : ℕ) (input : CreateBookingDto) (db : Db) where
  pub create_checks-reads : (create_checks now supabase_id input db).1 ≡ db
  unfolding create_checks
  create_checks-reads = ground arith

  pub create_checks-IsAdmitted :
      (user_id : ℕ) (tutor : TutorProfile)
      → (create_checks now supabase_id input db).0 ≡ ok (user_id, tutor)
      → (caller : User) × IsAdmitted now supabase_id input db user_id caller tutor
  unfolding create_checks
  create_checks-IsAdmitted user_id tutor h =
      elim (Option-cases (find_first (λ k u. u.supabase_id == supabase_id) db.users)) [
        | inl unknown ↦ absurd (ground arith)
        | inr (p, e) ↦ (p.1, ground arith)
      ]
