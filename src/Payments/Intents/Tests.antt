-- ===== src/Payments/Intents/Tests.antt =====
-- Runs of `createIntent`.
use pee_rahat.Prelude.{[], ◌∷◌, none}
use pee_rahat.Store.{BookingStatus, PaymentItemType, Db}
use pee_rahat.Samples.{base_db, class_with, monday}
use pee_rahat.Payments.Intents.{create_intent}
use pee_rahat.Payments.Intents.OnePerBooking.{HasOneIntent, create_intent-HasOneIntent}

-- The student's class is accepted and has no payment yet.
abbrev unpaid_db : Db
unpaid_db = record base_db { bookings = (10, class_with BookingStatus.accepted none) ∷ [] }

create_intent-HasOneIntent_example :
    HasOneIntent (create_intent monday [] 101 PaymentItemType.booking 10 unpaid_db).1
create_intent-HasOneIntent_example =
    create_intent-HasOneIntent monday [] 101 PaymentItemType.booking 10 unpaid_db
      (λ i j k a b fa fb ea eb. absurd (cc))
