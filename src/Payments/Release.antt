-- ===== src/Payments/Release.antt =====
-- `PaymentsService.releaseForPayout` (apps/api/src/payments/payments.service.ts): the escrows whose
-- report window has closed are released.
pub mod Frozen
mod Tests
use pee_rahat.Prelude.{
  ℕ, ◌+◌, Bool, false, ◌&&◌, leb, if◌then◌else◌, Option, none, some, List, [], ◌∷◌, ◌++◌, Table,
  find, find_where, update, missing_row,
}
use pee_rahat.Store.{
  BookingStatus, PaymentStatus, is_group, TutorProfile, Booking, PaymentIntent, Db, Effect,
  close_thread, invalidate, audience_of, Action, ◌>>=◌, ◌>>◌, pure, or_raise, modify,
}
use pee_rahat.Bookings.Lifecycle.{intent_of, is_held, set_status}
use pee_rahat.Postpone.Requests.{is_paid}

abbrev pub is_over : ℕ → Option ℕ → Bool
is_over now none = false
is_over now (some t) = leb t now

abbrev pub holds_escrow : Option (ℕ × PaymentIntent) → Bool
holds_escrow none = false
holds_escrow (some (id, i)) = is_held i.status

-- The `where` of the query; a report window that is null matches no instant.
unfoldable pub is_releasable : ℕ → Db → ℕ → Booking → Bool
is_releasable now db k b =
    is_paid b.status && is_over now b.report_window_ends_at && holds_escrow (intent_of db k)

-- The two writes of one transaction.
unfoldable pub release_rows : ℕ → ℕ → ℕ → Db → Db
release_rows now k intent_id db = record db {
  intents =
      update intent_id
        (λ i. record i { status = PaymentStatus.released_for_payout; released_at = some now })
        db.intents;
  bookings = update k (set_status BookingStatus.completed) db.bookings;
}

-- The group's chat is closed if there is one.
abbrev pub closing_effects : Db → ℕ → Booking → TutorProfile → List Effect
closing_effects db k b t =
    invalidate (audience_of db k b t)
    ∷ (if is_group b.session_type then close_thread k ∷ [] else [])

abbrev pub release_intent : ℕ → ℕ → Booking → TutorProfile → Option (ℕ × PaymentIntent) → Action ℕ
release_intent now k b t none = pure 0
release_intent now k b t (some (id, i)) = do
  modify (release_rows now k id)
  modify (λ db. record db { effects = closing_effects db k b t ++ db.effects })
  pure 1

-- The loop over the rows that the query found, each with what it includes.
unfoldable pub release_each : ℕ → Db → Table Booking → Action ℕ
release_each now seen [] = pure 0
release_each now seen ((k, b) ∷ rest) = do
  t ← or_raise (find b.tutor_id seen.tutors) missing_row
  released ← release_intent now k b t (intent_of seen k)
  more ← release_each now seen rest
  pure (released + more)

unfoldable pub release_for_payout : ℕ → Action ℕ
release_for_payout now db = release_each now db (find_where (is_releasable now db) db.bookings) db
