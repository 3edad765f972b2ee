-- ===== src/Groups/Flow/Calls.antt =====
-- The calls that requests, the verification of a payment and the sweeps make on the groups, and runs of
-- them. A direct call of `failGroup`, which fails a group in any state, is not among them.
use pee_rahat.Prelude.{ℕ, Bool, inl, List, [], ◌∷◌, Text, HasUniqueIds}
use pee_rahat.Store.{Db}
use pee_rahat.Groups.Invite.{invite, accept_invite, decline_invite, extend_invite}
use pee_rahat.Groups.Failure.{run_invite_expiry_sweep, run_payment_deadline_sweep}
use pee_rahat.Groups.Review.{approve_group, reject_group, on_participant_paid}
use pee_rahat.Groups.Flow.Steps.{Follows, KeepsBookings, Touches-Follows}
use pee_rahat.Groups.Flow.Failing.{
  run_invite_expiry_sweep-Follows, run_payment_deadline_sweep-Follows,
}
use pee_rahat.Groups.Flow.Members.{
  invite-KeepsBookings, accept_invite-Touches, decline_invite-KeepsBookings, extend_invite-Touches,
}
use pee_rahat.Groups.Flow.Reviewing.{
  approve_group-Touches, reject_group-Touches, on_participant_paid-Touches,
}

-- The numbers are the clock where it is read, the caller, and the booking or the payment; the Boolean
-- says that the database aborts the transaction.
pub data GroupCall : Type 0 where
  inviting : ℕ → ℕ → ℕ → List Text → GroupCall
  accepting : ℕ → Bool → ℕ → Text → GroupCall
  declining : ℕ → Text → GroupCall
  extending : ℕ → ℕ → GroupCall
  approving : ℕ → ℕ → ℕ → GroupCall
  rejecting : ℕ → ℕ → GroupCall
  paying : ℕ → Bool → ℕ → GroupCall
  expiry_sweep deadline_sweep : ℕ → GroupCall

abbrev pub after : GroupCall → Db → Db
after (inviting now user k emails) db = (invite now user k emails db).1
after (accepting now aborted user code) db = (accept_invite now aborted user code db).1
after (declining user code) db = (decline_invite user code db).1
after (extending user k) db = (extend_invite user k db).1
after (approving now user k) db = (approve_group now user k db).1
after (rejecting user k) db = (reject_group user k db).1
after (paying now aborted intent) db = (on_participant_paid now aborted intent db).1
after (expiry_sweep now) db = run_invite_expiry_sweep now db
after (deadline_sweep now) db = (run_payment_deadline_sweep now db).1

pub after-Follows : (c : GroupCall) (db : Db) → HasUniqueIds db.bookings → Follows db (after c db)
unfolding KeepsBookings
after-Follows (inviting now user k emails) db u =
    Touches-Follows db _ u (inl (invite-KeepsBookings now user k emails db))
after-Follows (accepting now aborted user code) db u =
    Touches-Follows db _ u (accept_invite-Touches now aborted user code db u)
after-Follows (declining user code) db u =
    Touches-Follows db _ u (inl (decline_invite-KeepsBookings user code db))
after-Follows (extending user k) db u = Touches-Follows db _ u (extend_invite-Touches user k db)
after-Follows (approving now user k) db u =
    Touches-Follows db _ u (approve_group-Touches now user k db)
after-Follows (rejecting user k) db u = Touches-Follows db _ u (reject_group-Touches user k db)
after-Follows (paying now aborted intent) db u =
    Touches-Follows db _ u (on_participant_paid-Touches now aborted intent db)
after-Follows (expiry_sweep now) db u = run_invite_expiry_sweep-Follows now db u
after-Follows (deadline_sweep now) db u = run_payment_deadline_sweep-Follows now db u

-- One call after another.
unfoldable pub run_calls : List GroupCall → Db → Db
run_calls [] db = db
run_calls (c ∷ rest) db = run_calls rest (after c db)
