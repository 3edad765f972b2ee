-- ===== src/Bookings/Lifecycle/Tests.antt =====
-- Runs of the calls of the life of a booking.
use pee_rahat.Prelude.{ℕ, ◌≡◌, ok, err, Error, ◌⊎◌, none, [], ◌∷◌}
use pee_rahat.Store.{BookingStatus, Booking, User, Db}
use pee_rahat.Samples.{base_db, class_with, monday}
use pee_rahat.Bookings.Lifecycle.Outcome.{
  Call, perform, changed, IsPermitted, Changes, perform-Changes,
}

abbrev asked_db : Db
asked_db = record base_db { bookings = (10, class_with BookingStatus.requested none) ∷ [] }

perform-Changes_example :
    ((user_id : ℕ) × (caller : User) × (b : Booking) × (db' : Db) × IsPermitted Call.accepting
        monday 102 10 asked_db user_id caller b
      × (perform Call.accepting monday 102 10 asked_db ≡ (ok tt, db'))
      × Changes 10 (changed Call.accepting monday b) asked_db db')
    ⊎ ((e : Error) × (perform Call.accepting monday 102 10 asked_db ≡ (err e, asked_db)))
perform-Changes_example = perform-Changes Call.accepting monday 102 10 asked_db
