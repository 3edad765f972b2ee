-- ===== src/Bookings/Busy.antt =====
-- `BookingsService.collectBusyForUserId` and `listBusyForUser`
-- (apps/api/src/bookings/bookings.service.ts): the intervals that the slot picker greys out.
pub mod Covers
mod Tests
use pee_rahat.Prelude.{
  ℕ, zero, ◌+◌, ◌*◌, Bool, true, false, ◌&&◌, ltb, ◌==◌, if◌then◌else◌, Option, none, some, List,
  [], ◌∷◌, ◌++◌, Table, find_where, find_first,
}
use pee_rahat.Store.{Booking, PostponeRequest, Db}
use pee_rahat.Calendar.{BusySlot, meets_window, expand_weekly_rules}
use pee_rahat.Bookings.Overlap.{
  is_active, involves, end_of, is_negotiating, proposed_slot, request_of, rules_of,
}

-- The `where` of the query.
unfoldable pub is_queried : Db → ℕ → ℕ → ℕ → Booking → Bool
is_queried db user to k b = is_active b.status && ltb b.scheduled_at to && involves db user b

abbrev pub own_slot : Booking → BusySlot
own_slot b = record { start = b.scheduled_at; end = end_of b }

-- A proposed duration of 0 counts as none.
abbrev pub slot_if_meets : ℕ → ℕ → Option ℕ → Option BusySlot → List BusySlot
slot_if_meets from to (some zero) s = []
slot_if_meets from to minutes none = []
slot_if_meets from to minutes (some s) = if meets_window from to s then s ∷ [] else []

abbrev pub proposed_busy : ℕ → ℕ → Option PostponeRequest → List BusySlot
proposed_busy from to none = []
proposed_busy from to (some r) =
    if is_negotiating r.status
    then slot_if_meets from to r.proposed_duration (proposed_slot r.proposed_at r.proposed_duration)
    else []

-- The body of the loop over the bookings.
unfoldable pub busy_of : Db → ℕ → ℕ → Booking → List BusySlot
busy_of db from to b =
    (if ltb from (end_of b) then own_slot b ∷ [] else []) ++ proposed_busy from to (request_of db b)

unfoldable pub busy_of_all : Db → ℕ → ℕ → Table Booking → List BusySlot
busy_of_all db from to [] = []
busy_of_all db from to ((k, b) ∷ rest) = busy_of db from to b ++ busy_of_all db from to rest

unfoldable pub collect_busy_for_user_id : Db → ℕ → ℕ → ℕ → List BusySlot
collect_busy_for_user_id db user from to =
    busy_of_all db from to (find_where (is_queried db user to) db.bookings)
    ++ expand_weekly_rules (rules_of db user) from to

-- An unknown caller has no busy interval.
unfoldable pub list_busy_for_user : Db → ℕ → ℕ → ℕ → List BusySlot
list_busy_for_user db supabase_id from to =
    elim (find_first (λ _ u. u.supabase_id == supabase_id) db.users) [
      | none ↦ []
      | some user ↦ collect_busy_for_user_id db user.0 from to
    ]
