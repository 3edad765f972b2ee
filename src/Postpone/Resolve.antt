-- ===== src/Postpone/Resolve.antt =====
-- The end of a negotiation without agreement: `cancel`, `resolveTimeout` and `applyResolution` of
-- apps/api/src/bookings/postpone.service.ts. The refund policy is that of `Money/RefundPolicy`.
use pee_rahat.Prelude.{
  ℕ, ◌+◌, Bool, true, false, ltb, ◌==◌, ◌&&◌, if◌then◌else◌, is_some, Option, none, some, ◌∷◌, find,
  find_first, fresh_id, update, pos, bad_request,
}
use pee_rahat.Money.RefundPolicy.{
  PostponeInitiator, student, tutor, PostponeOutcome, no_agreement, unresponsive,
  tutor_initiated_no_agreement, RefundPolicy, RefundSplit, compute_split,
}
use pee_rahat.Store.{
  BookingStatus, PaymentStatus, PostponeStatus, RefundReason, TutorProfile, Booking, PaymentIntent,
  PostponeRequest, RefundLedger, Db, system_message, close_thread, cancel_timeout, Action, ◌>>=◌,
  ◌>>◌, pure, gets, reads, or_raise, modify, fanout_booking_change,
}
use pee_rahat.Bookings.Overlap.{is_negotiating}
use pee_rahat.Bookings.Lifecycle.{intent_of, load_tutor}
use pee_rahat.Postpone.Requests.{load_active_request}

-- `Exclude<PostponeOutcome, "agreed">`
pub data Closing : Type 0 where
  not_agreed not_answered not_accepted : Closing

abbrev pub outcome_of : Closing → PostponeOutcome
outcome_of not_agreed = no_agreement
outcome_of not_answered = unresponsive
outcome_of not_accepted = tutor_initiated_no_agreement

abbrev pub cancelled_status : Closing → BookingStatus
cancelled_status not_agreed = BookingStatus.cancelled_no_agreement
cancelled_status not_answered = BookingStatus.cancelled_tutor_unresponsive
cancelled_status not_accepted = BookingStatus.cancelled_tutor_initiated

abbrev pub reason_code : Closing → RefundReason
reason_code not_agreed = RefundReason.postpone_short_notice_no_agreement
reason_code not_answered = RefundReason.postpone_unresponsive
reason_code not_accepted = RefundReason.postpone_tutor_initiated_no_agreement

abbrev pub increments_defect : Closing → Bool
increments_defect not_agreed = false
increments_defect not_answered = true
increments_defect not_accepted = true

-- `intentUpdate`: what is left to the tutor waits for the next payout.
unfoldable pub settle_intent : ℕ → RefundSplit → PaymentIntent → PaymentIntent
settle_intent now s i =
    if ltb 0 s.tutor_thb
    then record i {
      amount_thb = s.tutor_thb;
      status = PaymentStatus.released_for_payout;
      released_at = some now;
    }
    else record i { amount_thb = 0; status = PaymentStatus.refunded }

unfoldable pub ledger_row : ℕ → ℕ → ℕ → RefundSplit → Closing → RefundLedger
ledger_row intent_id k original s c = record {
  payment_intent_id = intent_id;
  booking_id = k;
  original_amount_thb = original;
  student_refund_thb = s.student_refund_thb;
  tutor_thb = pos s.tutor_thb;
  platform_thb = pos s.platform_thb;
  reason_code = reason_code c;
  report_id = none;
}

abbrev pub increment_defect : TutorProfile → TutorProfile
increment_defect t = record t { defect_count = t.defect_count + 1 }

-- The transaction.
unfoldable pub settle_rows :
    ℕ → ℕ → Booking → ℕ → Closing → ℕ × PaymentIntent → RefundSplit → Db → Db
settle_rows now k b request_id c (intent_id, i) s db = record db {
  intents = update intent_id (settle_intent now s) db.intents;
  ledgers = (fresh_id db.ledgers, ledger_row intent_id k i.amount_thb s c) ∷ db.ledgers;
  bookings = update k (λ b. record b { status = cancelled_status c }) db.bookings;
  requests =
      update request_id
        (λ r. record r {
          status = PostponeStatus.expired;
          resolved_as = some (outcome_of c);
          resolved_at = some now;
        })
        db.requests;
  tutors = if increments_defect c then update b.tutor_id increment_defect db.tutors else db.tutors;
}

unfoldable pub apply_resolution :
    RefundPolicy → ℕ → ℕ → Booking → ℕ → PostponeRequest → Closing → ℕ → Action (Unit {0})
apply_resolution policy now k b request_id r c actor = do
  intent ← or_raise (← gets (λ db. intent_of db k)) bad_request
  split ← reads (λ _. compute_split policy (record {
    initiator = r.initiator_role;
    was_short_notice = r.was_short_notice;
    outcome = outcome_of c;
    amount_thb = pos intent.1.amount_thb;
  }))
  modify (settle_rows now k b request_id c intent split)
  modify (λ db. record db {
    effects = cancel_timeout request_id ∷ close_thread k ∷ system_message k actor ∷ db.effects;
  })

abbrev pub closing_by_cancel : PostponeInitiator → Closing
closing_by_cancel tutor = not_accepted
closing_by_cancel student = not_agreed

unfoldable pub cancel : RefundPolicy → ℕ → ℕ → ℕ → Action (Unit {0})
cancel policy now supabase_id k = do
  a ← load_active_request supabase_id k
  apply_resolution policy now k a.booking a.request_id a.request
      (closing_by_cancel a.request.initiator_role) a.user_id
  fanout_booking_change k

-- `counterpartyHasMessagedSince`
abbrev pub has_messaged_since : Db → ℕ → ℕ → ℕ → Bool
has_messaged_since db thread user since = is_some (
    find_first
      (λ _ m.
        m.thread_id == thread && m.author_id == user && m.is_user_kind && ltb since m.created_at)
      db.messages)

abbrev pub counterparty_of : PostponeInitiator → Booking → TutorProfile → ℕ
counterparty_of student b t = t.user_id
counterparty_of tutor b t = b.student_id

abbrev pub is_id : Option ℕ → ℕ → Bool
is_id none x = false
is_id (some y) x = y == x

unfoldable pub is_engaged : Db → Booking → TutorProfile → PostponeRequest → Bool
is_engaged db b t r =
    elim (find_first (λ _ c. is_id c.student_id b.student_id && c.tutor_id == b.tutor_id)
      db.threads) [
        | none ↦ false
        | some thread ↦
            has_messaged_since db thread.0 (counterparty_of r.initiator_role b t) r.created_at
      ]

abbrev pub closing_by_timeout : Bool → PostponeInitiator → Closing
closing_by_timeout true role = not_agreed
closing_by_timeout false student = not_answered
closing_by_timeout false tutor = not_accepted

-- The part after the request was found to be open.
unfoldable pub resolve_open :
    RefundPolicy → ℕ → ℕ → PostponeRequest → Option (ℕ × Booking) → Action (Unit {0})
resolve_open policy now request_id r none = pure tt
resolve_open policy now request_id r (some (k, b)) = do
  t ← load_tutor b
  engaged ← gets (λ db. is_engaged db b t r)
  apply_resolution policy now k b request_id r (closing_by_timeout engaged r.initiator_role)
      r.initiator_id
  fanout_booking_change k

abbrev pub has_request : ℕ → Booking → Bool
has_request id b = elim b.postpone_request_id [ none ↦ false | some j ↦ j == id ]

abbrev pub resolve_found : RefundPolicy → ℕ → ℕ → Option PostponeRequest → Action (Unit {0})
resolve_found policy now request_id none db = pure tt db
resolve_found policy now request_id (some r) db =
    if is_negotiating r.status
    then resolve_open policy now request_id r
        (find_first (λ _ b. has_request request_id b) db.bookings) db
    else pure tt db

unfoldable pub resolve_timeout : RefundPolicy → ℕ → ℕ → Action (Unit {0})
resolve_timeout policy now request_id db =
    resolve_found policy now request_id (find request_id db.requests) db
