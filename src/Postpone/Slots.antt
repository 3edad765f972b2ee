-- ===== src/Postpone/Slots.antt =====
-- The slots of the classes before and after the transaction of `confirm` of
-- apps/api/src/bookings/postpone.service.ts.
use pee_rahat.Prelude.{
  ℕ, ◌≡◌, ◌≢◌, refl, sym, subst, ◌∙◌, true, some, find, find-update_cases, fresh_id, update, arith,
  inl, inr,
}
use pee_rahat.Store.{Booking, Db}
use pee_rahat.Bookings.Overlap.{is_not_excluded}
use pee_rahat.Bookings.Overlap
use pee_rahat.Bookings.Overlap.Soundness.{assert_no_overlap-IsFree}
use pee_rahat.Bookings.Exclusive.{
  NoDoubleBooking, NoDoubleBooking-insert, NoDoubleBooking-update, Keeps, FitsIn,
  is_blocking_of_is_live, users_of_booking,
}
use pee_rahat.Postpone.Requests.{ActiveRequest}
use pee_rahat.Postpone.Confirm.{Proposal, moved_booking, mark_postponed, move_rows}
use pee_rahat.Postpone.Committed.{IsConfirmable, move_rows-bookings}

mark_postponed-Keeps : (b : Booking) → Keeps b (mark_postponed b)
mark_postponed-Keeps b = record {
  same_student = refl;
  same_tutor = refl;
  same_start = refl;
  same_minutes = refl;
  live = λ h. cc;
}

module _ (now supabase_id k : ℕ) (db : Db) (a : ActiveRequest) (s : Proposal) where
  -- The database with the old class marked, before the new one is added.
  abbrev marked : Db
  marked = record db { bookings = update k mark_postponed db.bookings }

  clone_fits :
      IsConfirmable supabase_id k db a s
      → FitsIn marked (fresh_id db.bookings) (moved_booking a.booking s)
  unfolding moved_booking
  clone_fits h u j c ne found live row_involves c_involves =
      let (c0, there, was) = find-update_cases k j mark_postponed db.bookings found in
      elim was [
        | inl (same, e) ↦ absurd (ground arith)
        | inr (other, e) ↦
            let there' : find j db.bookings ≡ some c =
              subst (λ x. find j db.bookings ≡ some x) e there in
            let not_excluded : some k ≢ some j = λ same. absurd (ground arith) in
            elim (users_of_booking db u (moved_booking a.booking s) h.is_open.tutor_found
              row_involves) [
                | inl same ↦
                    (assert_no_overlap-IsFree db _ _ _ (some k) h.student_free).bookings_free j c
                      there' (subst (λ x. Overlap.involves db x c ≡ true) (sym same) c_involves)
                      (is_blocking_of_is_live c.status live) not_excluded
                | inr same ↦
                    (assert_no_overlap-IsFree db _ _ _ (some k) h.tutor_free).bookings_free j c
                      there' (subst (λ x. Overlap.involves db x c ≡ true) (sym same) c_involves)
                      (is_blocking_of_is_live c.status live) not_excluded
              ]
      ]

  pub move_rows-NoDoubleBooking :
      (id : ℕ) (db' : Db)
      → IsConfirmable supabase_id k db a s
      → db'.bookings ≡ (move_rows now k a s id db).bookings
      → db'.tutors ≡ db.tutors
      → NoDoubleBooking db
      → NoDoubleBooking db'
  move_rows-NoDoubleBooking id db' h rows tutors free =
      NoDoubleBooking-insert marked db' tutors (fresh_id db.bookings) (moved_booking a.booking s)
        (rows ∙ move_rows-bookings now k db a s id h.is_open.booking_found) (clone_fits h)
        (NoDoubleBooking-update db marked refl k mark_postponed refl mark_postponed-Keeps free)
