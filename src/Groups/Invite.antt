-- ===== src/Groups/Invite.antt =====
-- The invitations of a group: `invite`, `acceptInvite`, `declineInvite` and `extendInvite` of
-- apps/api/src/bookings/group-session.service.ts.
mod Extension
mod Tests
use pee_rahat.Prelude.{
  ℕ, ◌+◌, ◌-◌, ◌*◌, Bool, true, false, ◌&&◌, not, ltb, leb, ◌==◌, if◌then◌else◌, is_some, Option,
  none, some, List, [], ◌∷◌, map, length, any, Text, has, text_eq, to_lower, Table, find,
  find_first, find_where, fresh_id, update, forbidden, not_found, bad_request, conflict, plain,
}
use pee_rahat.Store.{
  GroupStatus, ParticipantRole, ParticipantStatus, NotificationType, is_group, User, TutorProfile,
  Booking, BookingParticipant, Db, notify, Action, ◌>>=◌, ◌>>◌, pure, raise, gets, reads, or_raise,
  raise_if, modify, transaction, emit, update_booking, require_user, fanout_booking_change,
}
use pee_rahat.Calendar.{hour_ms}
use pee_rahat.Bookings.Overlap.{assert_no_overlap}
use pee_rahat.Bookings.Create.{is_suspended}
use pee_rahat.Bookings.Lifecycle.{load_booking}
use pee_rahat.Groups.Emails.{normalize_invite_emails}

abbrev pub is_forming : Option GroupStatus → Bool
is_forming (some GroupStatus.forming) = true
is_forming _ = false

abbrev pub participants_of : Db → ℕ → Table BookingParticipant
participants_of db k = find_where (λ _ p. p.booking_id == k) db.participants

-- `existingEmails`
abbrev pub emails_of : Db → Table BookingParticipant → List Text
emails_of db [] = []
emails_of db ((_, p) ∷ ps) = elim (find p.student_id db.users) [
  | none ↦ emails_of db ps
  | some u ↦ to_lower u.email ∷ emails_of db ps
]

-- Some address has no user; the addresses of the users are compared in lower case.
abbrev pub has_unknown : Table User → List Text → Bool
has_unknown users emails = any (λ e. not (has (map (λ u. to_lower u.1.email) users) e)) emails

abbrev pub invited_participant : ℕ → ℕ → BookingParticipant
invited_participant k user_id = record {
  booking_id = k;
  student_id = user_id;
  role = ParticipantRole.invited;
  status = ParticipantStatus.invited;
  payment_intent_id = none;
  accepted_at = none;
  paid_at = none;
}

abbrev pub is_seat_of : ℕ → ℕ → BookingParticipant → Bool
is_seat_of k user_id p = p.booking_id == k && p.student_id == user_id

abbrev pub add_invited : ℕ → ℕ → Table BookingParticipant → Table BookingParticipant
add_invited k user_id t =
    if is_some (find_first (λ _ p. is_seat_of k user_id p) t)
    then t
    else (fresh_id t, invited_participant k user_id) ∷ t

-- `createMany` with `skipDuplicates`: a user has one seat of a booking.
unfoldable pub add_all_invited :
    ℕ → Table User → Table BookingParticipant → Table BookingParticipant
add_all_invited k [] t = t
add_all_invited k ((user_id, _) ∷ users) t = add_all_invited k users (add_invited k user_id t)

-- The checks; the result is the users to invite.
unfoldable pub invite_checks : ℕ → ℕ → ℕ → List Text → Action (Table User)
invite_checks now supabase_id k emails_raw = do
  user ← require_user supabase_id
  b ← load_booking k
  raise_if (not (is_group b.session_type)) bad_request
  raise_if (not (b.student_id == user.0)) forbidden
  raise_if (not (is_forming b.group_status)) bad_request
  seats ← gets (λ db. participants_of db k)
  existing ← gets (λ db. emails_of db seats)
  emails ← reads (λ _. normalize_invite_emails emails_raw user.1.email existing)
  raise_if (ltb b.capacity (length seats + length emails)) bad_request
  users ← gets (λ db. find_where (λ _ u. has emails u.email) db.users)
  raise_if (has_unknown users emails) bad_request
  raise_if (any (λ u. is_suspended now (some u.1)) users) bad_request
  pure users

unfoldable pub invite : ℕ → ℕ → ℕ → List Text → Action (Unit {0})
invite now supabase_id k emails_raw = do
  users ← invite_checks now supabase_id k emails_raw
  modify (λ db. record db { participants = add_all_invited k users db.participants })
  fanout_booking_change k

abbrev pub has_code : Text → Booking → Bool
has_code code b = elim b.invite_code [ none ↦ false | some c ↦ text_eq c code ]

abbrev pub require_booking_by_invite_code : Text → Action (ℕ × Booking)
require_booking_by_invite_code code = do
  or_raise (← gets (λ db. find_first (λ _ b. has_code code b) db.bookings)) not_found

abbrev pub is_expired : ℕ → Option ℕ → Bool
is_expired now none = false
is_expired now (some t) = ltb t now

abbrev pub has_accepted : ParticipantStatus → Bool
has_accepted ParticipantStatus.accepted = true
has_accepted ParticipantStatus.paid = true
has_accepted _ = false

abbrev pub all_accepted : Table BookingParticipant → Bool
all_accepted [] = true
all_accepted ((_, p) ∷ ps) = has_accepted p.status && all_accepted ps

unfoldable pub should_move_to_tutor_review : Table BookingParticipant → ℕ → Bool
should_move_to_tutor_review participants capacity =
    if ltb (length participants) capacity then false else all_accepted participants

abbrev pub move_to_tutor_review : Booking → Booking
move_to_tutor_review b = record b { group_status = some GroupStatus.tutor_review }

abbrev pub accept_seat : ℕ → BookingParticipant → BookingParticipant
accept_seat now p = record p { status = ParticipantStatus.accepted; accepted_at = some now }

abbrev pub update_participant : ℕ → (BookingParticipant → BookingParticipant) → Action (Unit {0})
update_participant k f = modify (λ db. record db { participants = update k f db.participants })

-- The body of the transaction; the result is whether the group is complete.
unfoldable pub accept_rows : ℕ → ℕ → Booking → ℕ → Action Bool
accept_rows now k b seat_id = do
  update_participant seat_id (accept_seat now)
  moved ← gets (λ db. should_move_to_tutor_review (participants_of db k) b.capacity)
  if moved then update_booking k move_to_tutor_review else pure tt
  pure moved

abbrev pub notify_tutor_of_group : Booking → Option TutorProfile → Action (Unit {0})
notify_tutor_of_group b none = pure tt
notify_tutor_of_group b (some t) = emit (notify t.user_id NotificationType.group_ready_for_review)

abbrev pub announce_review : Bool → Booking → Action (Unit {0})
announce_review false b = pure tt
announce_review true b = do notify_tutor_of_group b (← gets (λ db. find b.tutor_id db.tutors))

-- The rest of `acceptInvite` for a seat whose invitation is open.
unfoldable pub accept_open : ℕ → Bool → ℕ → ℕ → Booking → ℕ → Action (Unit {0})
accept_open now aborted user_id k b seat_id = do
  reads (λ db. assert_no_overlap db user_id b.scheduled_at b.duration_minutes none)
  moved ← transaction (raise_if aborted plain >> accept_rows now k b seat_id)
  emit (notify b.student_id NotificationType.group_invite_responded)
  announce_review moved b
  fanout_booking_change k

abbrev pub accept_by_status : ParticipantStatus → ℕ → Bool → ℕ → ℕ → Booking → ℕ → Action (Unit {0})
accept_by_status ParticipantStatus.accepted now aborted user_id k b seat_id = pure tt
accept_by_status ParticipantStatus.paid now aborted user_id k b seat_id = pure tt
accept_by_status ParticipantStatus.declined now aborted user_id k b seat_id = raise conflict
accept_by_status ParticipantStatus.expired now aborted user_id k b seat_id = raise conflict
accept_by_status ParticipantStatus.invited now aborted user_id k b seat_id =
    accept_open now aborted user_id k b seat_id

abbrev pub seat_of : Db → ℕ → ℕ → Option (ℕ × BookingParticipant)
seat_of db k user_id = find_first (λ _ p. is_seat_of k user_id p) db.participants

unfoldable pub accept_invite : ℕ → Bool → ℕ → Text → Action (Unit {0})
accept_invite now aborted supabase_id code = do
  user ← require_user supabase_id
  found ← require_booking_by_invite_code code
  raise_if (not (is_forming found.1.group_status)) bad_request
  raise_if (is_expired now found.1.invite_expires_at) bad_request
  seat ← or_raise (← gets (λ db. seat_of db found.0 user.0)) forbidden
  accept_by_status seat.1.status now aborted user.0 found.0 found.1 seat.0

abbrev pub is_host : ParticipantRole → Bool
is_host ParticipantRole.host = true
is_host ParticipantRole.invited = false

unfoldable pub decline_open : ℕ → Booking → ℕ → Action (Unit {0})
decline_open k b seat_id = do
  update_participant seat_id (λ p. record p { status = ParticipantStatus.declined })
  emit (notify b.student_id NotificationType.group_invite_responded)
  fanout_booking_change k

abbrev pub decline_by_status : ParticipantStatus → ℕ → Booking → ℕ → Action (Unit {0})
decline_by_status ParticipantStatus.declined k b seat_id = pure tt
decline_by_status ParticipantStatus.paid k b seat_id = raise conflict
decline_by_status _ k b seat_id = decline_open k b seat_id

unfoldable pub decline_invite : ℕ → Text → Action (Unit {0})
decline_invite supabase_id code = do
  user ← require_user supabase_id
  found ← require_booking_by_invite_code code
  raise_if (not (is_forming found.1.group_status)) bad_request
  seat ← or_raise (← gets (λ db. seat_of db found.0 user.0)) forbidden
  raise_if (is_host seat.1.role) bad_request
  decline_by_status seat.1.status found.0 found.1 seat.0

-- The end of the invitation a day later, but an hour before the class at the latest.
unfoldable pub extended_expiry : ℕ → ℕ → ℕ
extended_expiry expires_at scheduled_at =
    let ceiling = scheduled_at - 1 * hour_ms in
    let proposed = expires_at + 24 * hour_ms in if ltb ceiling proposed then ceiling else proposed

unfoldable pub extend_invite : ℕ → ℕ → Action ℕ
extend_invite supabase_id k = do
  user ← require_user supabase_id
  b ← load_booking k
  raise_if (not (b.student_id == user.0)) forbidden
  raise_if (not (is_group b.session_type)) bad_request
  raise_if (not (is_forming b.group_status)) bad_request
  expires_at ← or_raise b.invite_expires_at bad_request
  raise_if (leb (extended_expiry expires_at b.scheduled_at) expires_at) bad_request
  update_booking k
      (λ b'. record b' { invite_expires_at = some (extended_expiry expires_at b.scheduled_at) })
  fanout_booking_change k
  pure (extended_expiry expires_at b.scheduled_at)
