-- ===== src/Bookings/Overlap.antt =====
-- `BookingsService.assertNoOverlap` (apps/api/src/bookings/bookings.service.ts): the three checks that
-- keep one user from holding two classes at a time. The two raw SQL queries are searches of the
-- tables with the conditions of their WHERE clauses; `LIMIT 1` matters for the log only.
pub mod Soundness
mod Tests
use pee_rahat.Prelude.{
  ℕ, ◌+◌, ◌*◌, Bool, true, false, ◌&&◌, ◌||◌, not, ltb, ◌==◌, if◌then◌else◌, any, Option, none,
  some, List, [], ◌∷◌, map, Table, find, find_first, find_where, Result, ok, err, conflict, ◌>>=◌,
  ◌>>◌, throw_if,
}
use pee_rahat.Store.{
  BookingStatus, PostponeStatus, Booking, TutorProfile, TutorUnavailability, PostponeRequest, Db,
}
use pee_rahat.Calendar.{minute_ms, BusySlot, intervals_overlap, expand_weekly_rules}

-- `ACTIVE_OVERLAP_STATUSES`
abbrev pub is_active : BookingStatus → Bool
is_active BookingStatus.requested = true
is_active BookingStatus.accepted = true
is_active BookingStatus.paid = true
is_active BookingStatus.postpone_pending = true
is_active BookingStatus.postponed = true
is_active _ = false

-- `t."userId" = userId` in the join with the tutor's profile
abbrev pub is_tutored_by : Db → ℕ → Booking → Bool
is_tutored_by db user b = elim (find b.tutor_id db.tutors) [
  | none ↦ false
  | some t ↦ t.user_id == user
]

-- The user is the student or the tutor of the booking.
abbrev pub involves : Db → ℕ → Booking → Bool
involves db user b = b.student_id == user || is_tutored_by db user b

-- `AND b.id <> excludeBookingId`, if there is one
abbrev pub is_not_excluded : Option ℕ → ℕ → Bool
is_not_excluded none id = true
is_not_excluded (some x) id = not (id == x)

abbrev pub end_of : Booking → ℕ
end_of b = b.scheduled_at + b.duration_minutes * minute_ms

-- 1) another booking's own interval
unfoldable pub is_booking_hit : Db → ℕ → ℕ → ℕ → Option ℕ → ℕ → Booking → Bool
is_booking_hit db user new_start new_end exclude id b =
    involves db user b
    && is_active b.status
    && is_not_excluded exclude id
    && ltb b.scheduled_at new_end
    && ltb new_start (end_of b)

abbrev pub is_negotiating : PostponeStatus → Bool
is_negotiating PostponeStatus.negotiating = true
is_negotiating _ = false

-- The interval that a postpone request proposes, if both columns are set.
abbrev pub proposed_slot : Option ℕ → Option ℕ → Option BusySlot
proposed_slot (some at) (some minutes) =
    some (record { start = at; end = at + minutes * minute_ms })
proposed_slot _ _ = none

abbrev pub request_of : Db → Booking → Option PostponeRequest
request_of db b = elim b.postpone_request_id [ none ↦ none | some id ↦ find id db.requests ]

abbrev pub is_slot_hit : ℕ → ℕ → Option BusySlot → Bool
is_slot_hit new_start new_end none = false
is_slot_hit new_start new_end (some s) = ltb s.start new_end && ltb new_start s.end

abbrev pub is_request_hit : ℕ → ℕ → Option PostponeRequest → Bool
is_request_hit new_start new_end none = false
is_request_hit new_start new_end (some r) =
    is_negotiating r.status
    && is_slot_hit new_start new_end (proposed_slot r.proposed_at r.proposed_duration)

-- 2) an interval that an open postpone request of the user proposes
unfoldable pub is_proposal_hit : Db → ℕ → ℕ → ℕ → Option ℕ → ℕ → Booking → Bool
is_proposal_hit db user new_start new_end exclude id b =
    involves db user b
    && is_not_excluded exclude id
    && is_request_hit new_start new_end (request_of db b)

abbrev pub is_found {ℓ} : {R : Type ℓ} → Table R → Bool
is_found [] = false
is_found (x ∷ xs) = true

-- The weekly rules of the user's own tutor profile; none for a user who is no tutor.
abbrev pub rules_of_tutor : Db → Option (ℕ × TutorProfile) → List TutorUnavailability
rules_of_tutor db none = []
rules_of_tutor db (some (id, t)) =
    map (λ r. r.1) (find_where (λ _ r. r.tutor_id == id) db.unavailability)

unfoldable pub rules_of : Db → ℕ → List TutorUnavailability
rules_of db user = rules_of_tutor db (find_first (λ _ t. t.user_id == user) db.tutors)

-- 3) an interval that the user's weekly rules block
unfoldable pub is_rule_hit : Db → ℕ → ℕ → ℕ → Bool
is_rule_hit db user new_start new_end =
    any (λ s. intervals_overlap new_start new_end s.start s.end)
      (expand_weekly_rules (rules_of db user) new_start new_end)

unfoldable pub assert_no_overlap : Db → ℕ → ℕ → ℕ → Option ℕ → Result (Unit {0})
assert_no_overlap db user scheduled_at duration_minutes exclude =
    let new_end = scheduled_at + duration_minutes * minute_ms in
    do
      throw_if
          (is_found (find_where (is_booking_hit db user scheduled_at new_end exclude) db.bookings))
          conflict
      throw_if
          (is_found (find_where (is_proposal_hit db user scheduled_at new_end exclude) db.bookings))
          conflict
      throw_if (is_rule_hit db user scheduled_at new_end) conflict
