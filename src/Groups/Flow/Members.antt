-- ===== src/Groups/Flow/Members.antt =====
-- Which bookings `invite`, `acceptInvite`, `declineInvite` and `extendInvite` change.
use pee_rahat.Prelude.{
  ℕ, ◌≡◌, refl, Bool, Text, none, some, List, ◌∷◌, find, find_first, update, plain, bad_request,
  forbidden, not, arith, inl, inr, ◌⊎◌, Bool-cases, Option-cases, HasUniqueIds, find-find_first,
  ◌==◌,
}
use pee_rahat.Store.{
  ParticipantStatus, NotificationType, notify, Booking, Db, ◌>>=◌, ◌>>◌, transaction, raise_if,
  reads, emit, modify, or_raise, gets, require_user,
}
use pee_rahat.Bookings.Overlap.{assert_no_overlap}
use pee_rahat.Groups.Invite.{
  add_all_invited, invite, invite_checks, accept_rows, accept_open, accept_invite, announce_review,
  move_to_tutor_review, is_forming, has_code, seat_of, decline_open, decline_by_status,
  decline_invite, extend_invite, extended_expiry, require_booking_by_invite_code, is_host,
}
use pee_rahat.Groups.Flow.Steps.{
  KeepsBookings, ChangesOnly, KeepsBookings-bind, ChangesOnly-then, ChangesOnly-after, Touches,
  fanout-KeepsBookings, reads-KeepsBookings, modify-KeepsBookings,
}

invite_checks-KeepsBookings :
    (now supabase_id k : ℕ) (emails : List Text)
    → KeepsBookings (invite_checks now supabase_id k emails)
unfolding invite_checks KeepsBookings
invite_checks-KeepsBookings now supabase_id k emails db = ground arith

pub invite-KeepsBookings :
    (now supabase_id k : ℕ) (emails : List Text) → KeepsBookings (invite now supabase_id k emails)
unfolding invite
invite-KeepsBookings now supabase_id k emails =
    KeepsBookings-bind (invite_checks now supabase_id k emails) _
      (invite_checks-KeepsBookings now supabase_id k emails)
      (λ users.
        KeepsBookings-bind
          (modify (λ db. record db { participants = add_all_invited k users db.participants })) _
          (modify-KeepsBookings _ (λ db. refl)) (λ _. fanout-KeepsBookings k))

decline_open-KeepsBookings :
    (k : ℕ) (b : Booking) (seat : ℕ) → KeepsBookings (decline_open k b seat)
unfolding decline_open KeepsBookings
decline_open-KeepsBookings k b seat db =
    let kept = fanout-KeepsBookings k (record db {
      participants =
          update seat (λ p. record p { status = ParticipantStatus.declined }) db.participants;
      effects = notify b.student_id NotificationType.group_invite_responded ∷ db.effects;
    }) in
    kept

decline_by_status-KeepsBookings :
    (s : ParticipantStatus) (k : ℕ) (b : Booking) (seat : ℕ)
    → KeepsBookings (decline_by_status s k b seat)
unfolding KeepsBookings
decline_by_status-KeepsBookings s k b seat db =
    let d = decline_open-KeepsBookings k b seat db in ground arith

-- The seat is looked up and used.
with_seat-KeepsBookings :
    (user_id : ℕ) (found : ℕ × Booking)
    → KeepsBookings (do
      raise_if (not (is_forming found.1.group_status)) bad_request
      seat ← or_raise (← gets (λ db. seat_of db found.0 user_id)) forbidden
      raise_if (is_host seat.1.role) bad_request
      decline_by_status seat.1.status found.0 found.1 seat.0)
unfolding KeepsBookings
with_seat-KeepsBookings user_id found db = elim (Option-cases (seat_of db found.0 user_id)) [
  | inl none_there ↦ ground arith
  | inr (seat, there) ↦
      let d = decline_by_status-KeepsBookings seat.1.status found.0 found.1 seat.0 db in
      ground arith
]

require_user-KeepsBookings : (supabase_id : ℕ) → KeepsBookings (require_user supabase_id)
unfolding KeepsBookings
require_user-KeepsBookings supabase_id db = ground arith

require_code-KeepsBookings : (code : Text) → KeepsBookings (require_booking_by_invite_code code)
unfolding KeepsBookings
require_code-KeepsBookings code db = ground arith

pub decline_invite-KeepsBookings :
    (supabase_id : ℕ) (code : Text) → KeepsBookings (decline_invite supabase_id code)
unfolding decline_invite
decline_invite-KeepsBookings supabase_id code =
    KeepsBookings-bind (require_user supabase_id) _ (require_user-KeepsBookings supabase_id)
      (λ user.
        KeepsBookings-bind (require_booking_by_invite_code code) _ (require_code-KeepsBookings code)
          (with_seat-KeepsBookings user.0))

accept_rows-ChangesOnly :
    (now : ℕ) (aborted : Bool) (k : ℕ) (b : Booking) (seat : ℕ)
    → ChangesOnly k move_to_tutor_review
        (transaction (raise_if aborted plain >> accept_rows now k b seat))
unfolding accept_rows ChangesOnly
accept_rows-ChangesOnly now aborted k b seat db = ground arith

announce-KeepsBookings : (moved : Bool) (b : Booking) → KeepsBookings (announce_review moved b)
unfolding KeepsBookings
announce-KeepsBookings moved b db = ground arith

accept_open-ChangesOnly :
    (now : ℕ) (aborted : Bool) (user k : ℕ) (b : Booking) (seat : ℕ)
    → ChangesOnly k move_to_tutor_review (accept_open now aborted user k b seat)
unfolding accept_open
accept_open-ChangesOnly now aborted user k b seat =
    ChangesOnly-after
      (reads (λ db. assert_no_overlap db user b.scheduled_at b.duration_minutes none)) _ k
      move_to_tutor_review (reads-KeepsBookings _)
      (λ _.
        ChangesOnly-then (transaction (raise_if aborted plain >> accept_rows now k b seat)) _ k
          move_to_tutor_review (accept_rows-ChangesOnly now aborted k b seat)
          (λ moved.
            KeepsBookings-bind (emit (notify b.student_id NotificationType.group_invite_responded))
              _ (modify-KeepsBookings _ (λ db. refl))
              (λ _.
                KeepsBookings-bind (announce_review moved b) _ (announce-KeepsBookings moved b)
                  (λ _. fanout-KeepsBookings k))))

abbrev set_expiry : ℕ → Booking → Booking
set_expiry t b = record b { invite_expires_at = some t }

pub extend_invite-Touches :
    (supabase_id k : ℕ) (db : Db) → Touches db.bookings (extend_invite supabase_id k db).1.bookings
unfolding extend_invite KeepsBookings
extend_invite-Touches supabase_id k db = elim (Option-cases (find k db.bookings)) [
  | inl missing ↦ inl (ground arith)
  | inr (b, found) ↦ elim (Option-cases b.invite_expires_at) [
    | inl unlimited ↦ inl (ground arith)
    | inr (t, e) ↦
        let f = set_expiry (extended_expiry t b.scheduled_at) in
        let kept = fanout-KeepsBookings k (record db { bookings = update k f db.bookings }) in
        let either : ((extend_invite supabase_id k db).1.bookings ≡ db.bookings)
            ⊎ ((extend_invite supabase_id k db).1.bookings ≡ update k f db.bookings) =
          ground arith in
        elim either [ inl same ↦ inl same | inr done ↦ inr (k, f, done, λ b' found'. inl refl) ]
  ]
]

pub accept_invite-Touches :
    (now : ℕ) (aborted : Bool) (supabase_id : ℕ) (code : Text) (db : Db)
    → HasUniqueIds db.bookings
    → Touches db.bookings (accept_invite now aborted supabase_id code db).1.bookings
unfolding accept_invite ChangesOnly
accept_invite-Touches now aborted supabase_id code db u =
    elim (Option-cases (find_first (λ _ u. u.supabase_id == supabase_id) db.users)) [
      | inl unknown ↦ inl (ground arith)
      | inr (user, known) ↦ elim (Option-cases (find_first (λ _ b. has_code code b) db.bookings)) [
        | inl wrong ↦ inl (ground arith)
        | inr (found, e) ↦ elim (Option-cases (seat_of db found.0 user.0)) [
          | inl uninvited ↦ inl (ground arith)
          | inr (seat, there) ↦
              let row = find-find_first (λ _ b. has_code code b) db.bookings u e in
              let accepted = accept_open-ChangesOnly now aborted user.0 found.0 found.1 seat.0 db in
              elim (Bool-cases (is_forming found.1.group_status)) [
                | inr late ↦ inl (ground arith)
                | inl forming ↦
                    let either : ((accept_invite now aborted supabase_id code db).1.bookings
                          ≡ db.bookings)
                        ⊎ ((accept_invite now aborted supabase_id code db).1.bookings
                            ≡ update found.0 move_to_tutor_review db.bookings) =
                      ground arith in
                    elim either [
                      | inl same ↦ inl same
                      | inr moved ↦
                          inr (found.0, move_to_tutor_review, moved, λ b found'. inr (ground arith))
                    ]
              ]
        ]
      ]
    ]
