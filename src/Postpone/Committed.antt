-- ===== src/Postpone/Committed.antt =====
-- What a call of `confirm` of apps/api/src/bookings/postpone.service.ts has checked, and the transaction
-- that it runs.
use pee_rahat.Prelude.{
  ℕ, ◌≡◌, ◌≢◌, refl, subst, false, ◌==◌, some, List, ◌∷◌, ◌++◌, find, find_first, find-fresh_id,
  fresh_id, update, ok, err, Error, bad_request, arith, inl, inr, ◌⊎◌, Bool-cases, Option-cases,
  Result-cases,
}
use pee_rahat.Store.{
  User, PostponeStatus, PaymentIntent, Db, Effect, system_message, close_thread, cancel_timeout,
  attach_to_booking,
}
use pee_rahat.Store.Effects.{pair_eq, fanout_booking_change-Announces}
use pee_rahat.Bookings.Overlap.{assert_no_overlap}
use pee_rahat.Bookings.Lifecycle.{intent_of}
use pee_rahat.Postpone.Requests.{ActiveRequest, load_participant, load_active_request}
use pee_rahat.Postpone.Confirm.{
  Proposal, proposal_of, moved_booking, mark_postponed, move_rows, calendar_effects, confirm_checks,
  confirm,
}

-- The rows of an open negotiation about booking `k`, in which the caller takes part.
pub record IsOpen (supabase_id : ℕ) (db : Db) (k : ℕ) (a : ActiveRequest) : Type 0 where
  pub caller : User
  pub caller_known :
      find_first (λ k u. u.supabase_id == supabase_id) db.users ≡ some (a.user_id, caller)
  pub takes_part : (a.booking.student_id ≡ a.user_id) ⊎ (a.tutor.user_id ≡ a.user_id)
  pub booking_found : find k db.bookings ≡ some a.booking
  pub tutor_found : find a.booking.tutor_id db.tutors ≡ some a.tutor
  pub request_found : find a.request_id db.requests ≡ some a.request
  pub linked : a.booking.postpone_request_id ≡ some a.request_id
  pub negotiating : a.request.status ≡ PostponeStatus.negotiating

module _ (supabase_id k : ℕ) (db : Db) where
  load_active_request-reads : (load_active_request supabase_id k db).1 ≡ db
  unfolding load_active_request load_participant
  load_active_request-reads = ground arith

  load_active_request-IsOpen :
      (a : ActiveRequest)
      → (load_active_request supabase_id k db).0 ≡ ok a
      → IsOpen supabase_id db k a
  unfolding load_active_request load_participant
  load_active_request-IsOpen a h =
      elim (Option-cases (find_first (λ k u. u.supabase_id == supabase_id) db.users)) [
        | inl unknown ↦ absurd (ground arith)
        | inr ((id, u), e) ↦ record {
          caller = u;
          caller_known = ground arith;
          takes_part = ground arith;
          booking_found = ground arith;
          tutor_found = ground arith;
          request_found = ground arith;
          linked = ground arith;
          negotiating = ground arith;
        }
      ]

  -- What the checks of a confirmation have found.
  pub record IsConfirmable (a : ActiveRequest) (s : Proposal) : Type 0 where
    pub is_open : IsOpen supabase_id db k a
    pub proposed : proposal_of a.request.proposed_at a.request.proposed_duration ≡ some s
    pub by_counterparty : a.request.initiator_id ≢ a.user_id
    pub student_free : assert_no_overlap db a.booking.student_id s.at s.minutes (some k) ≡ ok tt
    pub tutor_free : assert_no_overlap db a.tutor.user_id s.at s.minutes (some k) ≡ ok tt

  confirm_checks-reads : (confirm_checks supabase_id k db).1 ≡ db
  unfolding confirm_checks
  confirm_checks-reads = ground (arith, load_active_request-reads)

  confirm_checks-IsConfirmable :
      (a : ActiveRequest) (s : Proposal)
      → (confirm_checks supabase_id k db).0 ≡ ok (a, s)
      → IsConfirmable a s
  unfolding confirm_checks
  confirm_checks-IsConfirmable a s h =
      elim (Result-cases (load_active_request supabase_id k db).0) [
        | inr (e, stop) ↦ absurd (ground arith)
        | inl (a', go) ↦
            let loaded =
              pair_eq (load_active_request supabase_id k db) go load_active_request-reads in
            record {
              is_open =
                  subst (IsOpen supabase_id db k) (ground arith) (load_active_request-IsOpen a' go);
              proposed = ground arith;
              by_counterparty = ground arith;
              student_free = ground arith;
              tutor_free = ground arith;
            }
      ]

module _ (now k : ℕ) (db : Db) (a : ActiveRequest) (s : Proposal) where
  fresh-ne : find k db.bookings ≡ some a.booking → (k == fresh_id db.bookings) ≡ false
  fresh-ne found = elim (Bool-cases (k == fresh_id db.bookings)) [
    | inr other ↦ other
    | inl same ↦ absurd (ground (arith, find-fresh_id k db.bookings))
  ]

  pub move_rows-bookings :
      (id : ℕ)
      → find k db.bookings ≡ some a.booking
      → (move_rows now k a s id db).bookings
        ≡ (fresh_id db.bookings, moved_booking a.booking s) ∷ update k mark_postponed db.bookings
  unfolding move_rows
  move_rows-bookings id found = rw (fresh-ne found)

-- A confirmation that ends well has passed its checks and has run its transaction.
pub record IsCommitted (now supabase_id k : ℕ) (db db' : Db) (id : ℕ) : Type 0 where
  pub active : ActiveRequest
  pub slot : Proposal
  pub intent : ℕ × PaymentIntent
  pub confirmable : IsConfirmable supabase_id k db active slot
  pub new_id : id ≡ fresh_id db.bookings
  pub escrow : intent_of db k ≡ some intent
  pub effects : List Effect
  pub rows : db' ≡ record (move_rows now k active slot intent.0 db) { effects = effects }

-- A confirmation either runs its transaction, or throws and leaves the database as it was.
pub confirm-IsCommitted :
    (now supabase_id k : ℕ) (db : Db)
    → ((id : ℕ) × (db' : Db) × (confirm now supabase_id k db ≡ (ok id, db'))
        × IsCommitted now supabase_id k db db' id)
      ⊎ ((e : Error) × (confirm now supabase_id k db ≡ (err e, db)))
unfolding confirm
confirm-IsCommitted now supabase_id k db = elim (Result-cases (confirm_checks supabase_id k db).0) [
  | inr (e, h) ↦
      let stop =
        pair_eq (confirm_checks supabase_id k db) h (confirm_checks-reads supabase_id k db) in
      inr (e, ground arith)
  | inl (p, h) ↦
      let go =
        pair_eq (confirm_checks supabase_id k db) h (confirm_checks-reads supabase_id k db) in
      elim (Option-cases (intent_of db k)) [
        | inl no_intent ↦ inr (bad_request, ground arith)
        | inr (intent, linked) ↦
            let id = fresh_id db.bookings in
            let db1 = move_rows now k p.0 p.1 intent.0 db in
            let (es, told) = fanout_booking_change-Announces k (record db1 {
              effects =
                  (attach_to_booking id
                    ∷ calendar_effects p.0.booking.tutor_id p.0.booking.google_calendar_event_id)
                  ++ cancel_timeout p.0.request_id
                    ∷ close_thread k
                    ∷ system_message k p.0.user_id
                    ∷ db1.effects;
            }) in
            let (es', told') = fanout_booking_change-Announces id (record db1 { effects = es }) in
            inl (
              id,
              record db1 { effects = es' },
              ground arith,
              record {
                active = p.0;
                slot = p.1;
                intent = intent;
                confirmable = confirm_checks-IsConfirmable supabase_id k db p.0 p.1 h;
                new_id = refl;
                escrow = linked;
                effects = es';
                rows = refl;
              },
            )
      ]
]
