-- ===== src/Reports/Resolution.antt =====
-- The resolution of a report and what follows from it, in one transaction: `ReportResolutionService`
-- of apps/api/src/reports/report-resolution.service.ts. The default number of days of a suspension is
-- an argument.
mod Refunds
mod Once
mod Tests
use pee_rahat.Prelude.{
  ℕ, ◌+◌, ◌*◌, Bool, true, false, ◌&&◌, ◌||◌, not, ltb, leb, ◌==◌, if◌then◌else◌, is_some,
  or_default, Option, none, some, List, [], ◌∷◌, Table, find, find_first, find_where, fresh_id,
  update, ℤ, pos, ◌-ℤ◌, not_found, bad_request, missing_row,
}
use pee_rahat.Money.Rounding.{round_pct}
use pee_rahat.Store.{
  BookingStatus, PaymentStatus, RefundReason, ReportTarget, ReportStatus, ReportResolution,
  ReportEventKind, User, Booking, PaymentIntent, RefundLedger, Report, ReportEvent, Removal,
  StudySheet, TutorReview, CommunityPost, ChatMessage, Db, Action, ◌>>=◌, ◌>>◌, pure, raise, gets,
  or_raise, raise_if, modify, transaction, update_booking, update_intent,
}
use pee_rahat.Calendar.{day_ms}
use pee_rahat.Bookings.Lifecycle.{intent_of, set_status}
use pee_rahat.Postpone.Resolve.{increment_defect}

-- 2099-12-31T23:59:59Z
abbrev pub permanent_suspension_until : ℕ
permanent_suspension_until = 4102444799000

pub record RefundSplitDto : Type 0 where
  pub student_pct : ℕ
  pub tutor_pct : ℕ
  pub platform_pct : ℕ

pub record ResolveReportDto : Type 0 where
  pub resolution : ReportResolution
  pub refund_split : Option RefundSplitDto
  pub removed_reason : Option ℕ
  pub tutor_at_fault : Option Bool
  pub suspension_days : Option ℕ

abbrev pub is_closed : ReportStatus → Bool
is_closed ReportStatus.resolved = true
is_closed ReportStatus.rejected = true
is_closed ReportStatus.duplicate = true
is_closed _ = false

abbrev pub require_target_user : Report → Action ℕ
require_target_user r = do or_raise r.target_user_id bad_request

-- An update by id throws when there is no such row.
abbrev pub update_user : ℕ → (User → User) → Action (Unit {0})
update_user id f = do
  or_raise (← gets (λ db. find id db.users)) missing_row
  modify (λ db. record db { users = update id f db.users })

abbrev pub original_amount : PaymentIntent → ℕ
original_amount i = or_default i.original_amount_thb i.amount_thb

-- The row of the ledger for a decision of an administrator.
abbrev pub admin_ledger : ℕ → ℕ → ℕ → ℕ → ℕ → ℕ → ℤ → RefundLedger
admin_ledger report_id intent_id k original student tutor platform = record {
  payment_intent_id = intent_id;
  booking_id = k;
  original_amount_thb = original;
  student_refund_thb = pos student;
  tutor_thb = pos tutor;
  platform_thb = platform;
  reason_code = RefundReason.admin_manual;
  report_id = some report_id;
}

abbrev pub add_ledger : RefundLedger → Action (Unit {0})
add_ledger l = modify (λ db. record db { ledgers = (fresh_id db.ledgers, l) ∷ db.ledgers })

abbrev pub settle_refund : PaymentStatus → ℕ → ℕ → PaymentIntent → PaymentIntent
settle_refund s left original i = record i {
  status = s;
  amount_thb = left;
  original_amount_thb = some original;
}

-- A live class that has not begun, in which the user takes part.
abbrev pub is_upcoming : BookingStatus → Bool
is_upcoming BookingStatus.paid = true
is_upcoming BookingStatus.accepted = true
is_upcoming _ = false

unfoldable pub is_future_of : ℕ → Db → ℕ → Booking → Bool
is_future_of now db user_id b =
    is_upcoming b.status
    && ltb now b.scheduled_at
    && (b.student_id == user_id || elim (find_first (λ _ t. t.user_id == user_id) db.tutors) [
      | none ↦ false
      | some t ↦ b.tutor_id == t.0
    ])

abbrev pub is_unpaid_out : PaymentStatus → Bool
is_unpaid_out PaymentStatus.held_in_escrow = true
is_unpaid_out PaymentStatus.released_for_payout = true
is_unpaid_out _ = false

abbrev pub refund_escrow : ℕ → ℕ → Option (ℕ × PaymentIntent) → Action (Unit {0})
refund_escrow report_id k none = pure tt
refund_escrow report_id k (some (id, i)) =
    if is_unpaid_out i.status
    then update_intent id (settle_refund PaymentStatus.refunded 0 (original_amount i))
      >> add_ledger (admin_ledger report_id id k (original_amount i) (original_amount i) 0 (pos 0))
    else pure tt

-- The loop over the rows that the query found, with the intents that it included.
unfoldable pub cancel_each : ℕ → Db → Table Booking → Action (Unit {0})
cancel_each report_id seen [] = pure tt
cancel_each report_id seen ((k, _) ∷ rest) = do
  refund_escrow report_id k (intent_of seen k)
  update_booking k (set_status BookingStatus.cancelled)
  cancel_each report_id seen rest

unfoldable pub cancel_future_bookings : ℕ → ℕ → ℕ → Action (Unit {0})
cancel_future_bookings now user_id report_id = do
  seen ← gets (λ db. db)
  cancel_each report_id seen (find_where (λ _ b. is_future_of now seen user_id b) seen.bookings)

unfoldable pub suspend_user : ℕ → ℕ → Report → ℕ → Bool → Action (Unit {0})
suspend_user now report_id r until cancels = do
  user_id ← require_target_user r
  update_user user_id (λ u. record u { suspended_until = some until })
  if cancels then cancel_future_bookings now user_id report_id else pure tt

abbrev pub removed : ℕ → ℕ → Option Removal
removed now reason = some (record { reason = reason; at = now })

abbrev pub remove_target : ℕ → ℕ → ReportTarget → ℕ → Action (Unit {0})
remove_target now reason ReportTarget.sheet id = do
  or_raise (← gets (λ db. find id db.sheets)) missing_row
  modify (λ db. record db {
    sheets = update id (λ s. record s { removal = removed now reason }) db.sheets;
  })
remove_target now reason ReportTarget.review id = do
  or_raise (← gets (λ db. find id db.reviews)) missing_row
  modify (λ db. record db {
    reviews = update id (λ s. record s { removal = removed now reason }) db.reviews;
  })
remove_target now reason ReportTarget.community_post id = do
  or_raise (← gets (λ db. find id db.posts)) missing_row
  modify (λ db. record db {
    posts = update id (λ s. record s { removal = removed now reason }) db.posts;
  })
remove_target now reason ReportTarget.chat_message id = do
  or_raise (← gets (λ db. find id db.messages)) missing_row
  modify (λ db. record db { messages = update id (λ s. record s { redacted = true }) db.messages })
remove_target now reason ReportTarget.booking id = raise bad_request

unfoldable pub remove_content : ℕ → Report → Option ℕ → Action (Unit {0})
remove_content now r none = raise bad_request
remove_content now r (some reason) = remove_target now reason r.target_type r.target_id

-- The parts of the student, the tutor and the platform.
pub record Parts : Type 0 where
  pub student : ℕ
  pub tutor : ℕ
  pub platform : ℤ

abbrev pub parts_of : ℕ → RefundSplitDto → Parts
parts_of original s =
    let student_part = round_pct original (s.student_pct * 100) in
    let tutor_part = round_pct original (s.tutor_pct * 100) in
    record {
      student = student_part;
      tutor = tutor_part;
      platform = pos original -ℤ pos student_part -ℤ pos tutor_part;
    }

abbrev pub full_parts : ℕ → Parts
full_parts original = record { student = original; tutor = 0; platform = pos 0 }

unfoldable pub refund_parts : ℕ → ℕ → ℕ → ℕ → Parts → Action (Unit {0})
refund_parts report_id k id original p =
    update_intent id (
      settle_refund
        (if leb original p.student
          then PaymentStatus.refunded
          else PaymentStatus.partially_refunded)
        p.tutor original)
    >> add_ledger (admin_ledger report_id id k original p.student p.tutor p.platform)

-- The booking and its payment.
unfoldable pub load_linked_payment : Report → Action (ℕ × Booking × ℕ × PaymentIntent)
load_linked_payment r = do
  k ← or_raise r.linked_booking_id bad_request
  b ← or_raise (← gets (λ db. find k db.bookings)) bad_request
  intent ← or_raise (← gets (λ db. intent_of db k)) bad_request
  pure (k, b, intent.0, intent.1)

unfoldable pub refund_in_full : ℕ → Report → Bool → Action (Unit {0})
refund_in_full report_id r tutor_at_fault = do
  linked ← load_linked_payment r
  refund_parts report_id linked.0 linked.2 (original_amount linked.3)
      (full_parts (original_amount linked.3))
  if tutor_at_fault
      then modify (λ db. record db { tutors = update linked.1.tutor_id increment_defect db.tutors })
      else pure tt

unfoldable pub refund_in_part : ℕ → Report → Option RefundSplitDto → Action (Unit {0})
refund_in_part report_id r split = do
  linked ← load_linked_payment r
  s ← or_raise split bad_request
  refund_parts report_id linked.0 linked.2 (original_amount linked.3)
      (parts_of (original_amount linked.3) s)

unfoldable pub apply_downstream :
    ℕ → ℕ → ℕ → Report → ResolveReportDto → ReportResolution → Action (Unit {0})
apply_downstream now temp_days report_id r dto ReportResolution.no_action = pure tt
apply_downstream now temp_days report_id r dto ReportResolution.warning_issued = do
  user_id ← require_target_user r
  update_user user_id (λ u. record u { warning_count = u.warning_count + 1 })
apply_downstream now temp_days report_id r dto ReportResolution.reporter_warned = do
  update_user r.reporter_id (λ u. record u { false_report_count = u.false_report_count + 1 })
apply_downstream now temp_days report_id r dto ReportResolution.suspension_temp =
    suspend_user now report_id r (now + or_default dto.suspension_days temp_days * day_ms) false
apply_downstream now temp_days report_id r dto ReportResolution.suspension_perm =
    suspend_user now report_id r permanent_suspension_until true
apply_downstream now temp_days report_id r dto ReportResolution.account_banned =
    suspend_user now report_id r permanent_suspension_until true
apply_downstream now temp_days report_id r dto ReportResolution.content_removed =
    remove_content now r dto.removed_reason
apply_downstream now temp_days report_id r dto ReportResolution.refund_full =
    refund_in_full report_id r (or_default dto.tutor_at_fault false)
apply_downstream now temp_days report_id r dto ReportResolution.refund_partial =
    refund_in_part report_id r dto.refund_split

abbrev pub close_report : ℕ → ℕ → ReportResolution → Report → Report
close_report now executed_by resolution r = record r {
  status = ReportStatus.resolved;
  resolution = some resolution;
  resolved_at = some now;
  assigned_to_id = some (or_default r.assigned_to_id executed_by);
}

unfoldable pub record_resolution : ℕ → ℕ → ℕ → ReportResolution → Action (Unit {0})
record_resolution now report_id executed_by resolution = modify (λ db. record db {
  reports = update report_id (close_report now executed_by resolution) db.reports;
  report_events =
      (
        fresh_id db.report_events,
        record {
          report_id = report_id;
          kind = ReportEventKind.resolution;
          author_id = executed_by;
          evidence_keys = [];
        },
      )
      ∷ db.report_events;
})

unfoldable pub execute : ℕ → ℕ → ℕ → ℕ → ResolveReportDto → Action (Unit {0})
execute now temp_days report_id executed_by dto = transaction (do
  r ← or_raise (← gets (λ db. find report_id db.reports)) not_found
  raise_if (is_closed r.status) bad_request
  apply_downstream now temp_days report_id r dto dto.resolution
  record_resolution now report_id executed_by dto.resolution)
