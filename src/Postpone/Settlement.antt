-- ===== src/Postpone/Settlement.antt =====
-- The outcome of `applyResolution` of apps/api/src/bookings/postpone.service.ts.
use pee_rahat.Prelude.{
  ℕ, ◌≡◌, refl, ltb, some, ◌∷◌, find, find-update, fresh_id, pos, ◌+ℤ◌, ok, arith, if◌then◌else◌,
}
use pee_rahat.Money.RefundPolicy.{RefundPolicy, RefundPolicyInput, RefundSplit}
use pee_rahat.Money.RefundPolicy.Balance.{compute_split-total, compute_split_total_function}
use pee_rahat.Store.{
  PaymentStatus, Booking, PaymentIntent, PostponeRequest, RefundLedger, Db, cancel_timeout,
  close_thread, system_message,
}
use pee_rahat.Bookings.Lifecycle.{intent_of}
use pee_rahat.Postpone.Resolve.{
  Closing, outcome_of, settle_intent, ledger_row, settle_rows, apply_resolution,
}

-- Where the money of the intent went: the ledger's three parts sum to what was held, the tutor's part
-- is what stays in the intent, and it waits for a payout exactly if there is any.
pub record IsSettled (k request_id id : ℕ) (c : Closing) (held : PaymentIntent) (db db' : Db)
    (left : PaymentIntent) (l : RefundLedger) : Type 0 where
  pub ledgers : db'.ledgers ≡ (fresh_id db.ledgers, l) ∷ db.ledgers
  pub intent : find id db'.intents ≡ some left
  pub original : l.original_amount_thb ≡ held.amount_thb
  pub adds_up : l.tutor_thb +ℤ l.platform_thb +ℤ l.student_refund_thb ≡ pos held.amount_thb
  pub tutor_part : l.tutor_thb ≡ pos left.amount_thb
  pub status : left.status ≡ (
      if ltb 0 left.amount_thb then PaymentStatus.released_for_payout else PaymentStatus.refunded)

settle_rows-IsSettled :
    (now k : ℕ) (b : Booking) (request_id : ℕ) (c : Closing) (id : ℕ) (x : PaymentIntent)
    (s : RefundSplit) (db : Db)
    → find id db.intents ≡ some x
    → pos s.tutor_thb +ℤ pos s.platform_thb +ℤ s.student_refund_thb ≡ pos x.amount_thb
    → IsSettled k request_id id c x db
        (settle_rows now k b request_id c (id, x) s db)
        (settle_intent now s x)
        (ledger_row id k x.amount_thb s c)
unfolding settle_rows settle_intent ledger_row
settle_rows-IsSettled now k b request_id c id x s db found balance = record {
  ledgers = refl;
  intent = ground (arith, find-update id id (settle_intent now s) db.intents);
  original = refl;
  adds_up = balance;
  tutor_part = ground arith;
  status = ground arith;
}

-- If the booking has an escrow, its resolution never throws, whatever the reason: it moves the escrow
-- as `IsSettled` says, and the ledger records every baht that was held.
pub apply_resolution-IsSettled :
    (policy : RefundPolicy) (now k : ℕ) (b : Booking) (request_id : ℕ) (r : PostponeRequest)
    (c : Closing) (actor id : ℕ) (x : PaymentIntent) (db : Db)
    → intent_of db k ≡ some (id, x)
    → find id db.intents ≡ some x
    → (db' : Db) × (left : PaymentIntent) × (l : RefundLedger) × (apply_resolution policy now k b
          request_id r c actor db
        ≡ (ok tt, db'))
      × IsSettled k request_id id c x db db' left l
unfolding apply_resolution
apply_resolution-IsSettled policy now k b request_id r c actor id x db linked found =
    let input : RefundPolicyInput = record {
      initiator = r.initiator_role;
      was_short_notice = r.was_short_notice;
      outcome = outcome_of c;
      amount_thb = pos x.amount_thb;
    } in
    let (s, split) = compute_split_total_function policy input x.amount_thb refl in
    let rows = settle_rows now k b request_id c (id, x) s db in
    let settled =
      settle_rows-IsSettled now k b request_id c id x s db found
        (compute_split-total policy input split) in
    (
      record rows {
        effects =
            cancel_timeout request_id ∷ close_thread k ∷ system_message k actor ∷ rows.effects;
      },
      settle_intent now s x,
      ledger_row id k x.amount_thb s c,
      ground arith,
      record {
        ledgers = settled.ledgers;
        intent = settled.intent;
        original = settled.original;
        adds_up = settled.adds_up;
        tutor_part = settled.tutor_part;
        status = settled.status;
      },
    )
