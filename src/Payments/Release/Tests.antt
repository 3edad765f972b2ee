-- ===== src/Payments/Release/Tests.antt =====
-- Runs of the release on the sample database.
use pee_rahat.Prelude.{◌≡◌, refl, some, none, [], ◌∷◌, find, ok}
use pee_rahat.Store.{BookingStatus, PaymentStatus, Db}
use pee_rahat.Samples.{base_db, class_with, intent_with}
use pee_rahat.Bookings.Lifecycle.{report, report_checks, freeze_held}
use pee_rahat.Payments.Release.{release_for_payout, is_releasable, release_each}
use pee_rahat.Payments.Release.Frozen.{release_for_payout-keeps, report_freezes}

-- A paid class whose report window ends at the instant 1000, with its escrow.
abbrev held_db : Db
held_db = record base_db {
  bookings =
      (10, record (class_with BookingStatus.paid none) { report_window_ends_at = some 1000 }) ∷ [];
  intents =
      (40, intent_with PaymentStatus.held_in_escrow none none)
      ∷ (41, record (intent_with PaymentStatus.disputed none none) { booking_id = some 11 })
      ∷ [];
}

release_one : (release_for_payout 1000 held_db).0 ≡ ok 1
unfolding release_for_payout is_releasable release_each
release_one = refl

report_done : (report 900 101 10 held_db).0 ≡ ok tt
unfolding report report_checks freeze_held
report_done = refl

release_for_payout-keeps_example :
    find 41 (release_for_payout 1000 held_db).1.intents
    ≡ some (record (intent_with PaymentStatus.disputed none none) { booking_id = some 11 })
release_for_payout-keeps_example =
    release_for_payout-keeps 1000 41 held_db
      (record (intent_with PaymentStatus.disputed none none) { booking_id = some 11 })
      (refl, (refl, tt)) refl refl

report_freezes_example :
    find 40 (release_for_payout 2000 (report 900 101 10 held_db).1).1.intents
    ≡ some (intent_with PaymentStatus.disputed none none)
report_freezes_example =
    report_freezes 900 101 10 2000 40 held_db (intent_with PaymentStatus.held_in_escrow none none)
      (refl, (refl, tt)) refl refl report_done
