-- ===== src/Groups/Invite/Extension.antt =====
-- The extension of an invitation: `extendInvite` of
-- apps/api/src/bookings/group-session.service.ts.
use pee_rahat.Prelude.{ℕ, ◌+◌, ◌*◌, ◌<◌, ◌≤◌, ◌≡◌, some, find}
use pee_rahat.Store.{Booking, Db}
use pee_rahat.Calendar.{hour_ms}

abbrev set_expiry : ℕ → Booking → Booking
set_expiry t b = record b { invite_expires_at = some t }

-- The end of the invitation was `e` and is `t` now: later, by a day at most, and an hour before the
-- class at the latest.
pub record IsExtended (k t : ℕ) (b : Booking) (e : ℕ) (db db' : Db) : Type 0 where
  pub found : find k db.bookings ≡ some b
  pub before : b.invite_expires_at ≡ some e
  pub later : e < t
  pub by_a_day : t ≤ e + 24 * hour_ms
  pub before_class : t + hour_ms ≤ b.scheduled_at
  pub after : find k db'.bookings ≡ some (record b { invite_expires_at = some t })
