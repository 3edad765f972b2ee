-- ===== src/Bookings/Create/Tests.antt =====
-- Runs of `create` on the sample database.
use pee_rahat.Prelude.{ℕ, ◌≡◌, refl, false, none, [], ok, Error, ◌⊎◌, err}
use pee_rahat.Store.{Db, fanout_booking_change}
use pee_rahat.Calendar.{expand_weekly_rules}
use pee_rahat.Samples.{base_db, base_db-NoDoubleBooking, monday}
use pee_rahat.Bookings.Overlap.{assert_no_overlap, rules_of, is_rule_hit}
use pee_rahat.Bookings.Exclusive.{NoDoubleBooking}
use pee_rahat.Bookings.Create.{CreateBookingDto, create, create_checks, create_rows, class_cost}
use pee_rahat.Bookings.Create.Reservation.{IsReserved, create-IsReserved, create-NoDoubleBooking}

abbrev hour_class : CreateBookingDto
hour_class = record {
  tutor_id = 5;
  subject = 7;
  scheduled_at = 1779764400000;
  duration_minutes = 60;
  session_type = none;
  capacity = none;
}

abbrev booked_db : Db
booked_db = (create monday [] false 101 hour_class base_db).1

hour_class_created : (create monday [] false 101 hour_class base_db).0 ≡ ok 0
unfolding create create_checks create_rows assert_no_overlap rules_of is_rule_hit
    expand_weekly_rules fanout_booking_change
hour_class_created = refl

hour_class_cost : class_cost 350 90 3 ≡ 1575
unfolding class_cost
hour_class_cost = refl

create-NoDoubleBooking_example : NoDoubleBooking booked_db
create-NoDoubleBooking_example =
    create-NoDoubleBooking monday [] false 101 hour_class base_db base_db-NoDoubleBooking

create-IsReserved_example :
    ((id : ℕ) × (db' : Db) × (create monday [] false 101 hour_class base_db ≡ (ok id, db'))
      × IsReserved monday [] 101 hour_class base_db db' id)
    ⊎ ((e : Error) × (create monday [] false 101 hour_class base_db ≡ (err e, base_db)))
create-IsReserved_example = create-IsReserved monday [] false 101 hour_class base_db
