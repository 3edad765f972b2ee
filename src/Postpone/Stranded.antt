-- ===== src/Postpone/Stranded.antt =====
-- The booking that `confirm` creates, as `releaseForPayout` and `report` see it.
use pee_rahat.Prelude.{ℕ, ◌≡◌, refl, ap, subst, ◌∙◌, true, false, some, find, ok, arith, inl, inr}
use pee_rahat.Store.{BookingStatus, Booking, Db}
use pee_rahat.Bookings.Lifecycle.{is_window_shut}
use pee_rahat.Payments.Release.{is_releasable}
use pee_rahat.Postpone.Confirm.{moved_booking, confirm}
use pee_rahat.Postpone.Committed.{IsCommitted, confirm-IsCommitted, move_rows-bookings}

module _ (now supabase_id k id : ℕ) (db db' : Db) where
  clone_found :
      (m : IsCommitted now supabase_id k db db' id)
      → find id db'.bookings ≡ some (moved_booking m.active.booking m.slot)
  clone_found m =
      let rows =
        ap (λ (d : Db). d.bookings) m.rows
        ∙ move_rows-bookings now k db m.active m.slot m.intent.0
            m.confirmable.is_open.booking_found in
      let new = m.new_id in ground arith

-- The booking that a confirmation creates is paid, but the release of escrows does not select that row,
-- as it was created, at any instant and in any state of the database, and the row's report window is
-- shut at any instant.
pub confirm_strands :
    (now supabase_id k id later : ℕ) (db db' db'' : Db)
    → confirm now supabase_id k db ≡ (ok id, db')
    → (c : Booking) × (find id db'.bookings ≡ some c)
      × (c.status ≡ BookingStatus.paid)
      × (is_releasable later db'' id c ≡ false)
      × (is_window_shut later c.report_window_ends_at ≡ true)
unfolding moved_booking is_releasable
confirm_strands now supabase_id k id later db db' db'' e =
    elim (confirm-IsCommitted now supabase_id k db) [
      | inr (x, stop) ↦ absurd (ground arith)
      | inl (id', db1, done, m) ↦
          let same_id : id' ≡ id = ground arith in
          let same_db : db1 ≡ db' = ground arith in
          let m1 = subst (λ x. IsCommitted now supabase_id k db db1 x) same_id m in
          let m' = subst (λ x. IsCommitted now supabase_id k db x id) same_db m1 in
          (
            moved_booking m'.active.booking m'.slot,
            clone_found now supabase_id k id db db' m',
            refl,
            refl,
            refl,
          )
    ]
