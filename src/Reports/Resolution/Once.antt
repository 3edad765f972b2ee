-- ===== src/Reports/Resolution/Once.antt =====
-- A report is resolved once.
use pee_rahat.Prelude.{
  ℕ, ◌≡◌, refl, ◌∙◌, Bool, true, false, Option-cases, Option, none, some, [], ◌∷◌, inl, inr, Table,
  find, find_where, update, find-update, ok, err, bad_request, arith,
}
use pee_rahat.Store.{BookingStatus, ReportResolution, Booking, PaymentIntent, Report, Db}
use pee_rahat.Bookings.Lifecycle.{intent_of, set_status}
use pee_rahat.Reports.Resolution.{
  RefundSplitDto, ResolveReportDto, is_closed, is_future_of, refund_escrow, cancel_each,
  cancel_future_bookings, suspend_user, remove_content, refund_parts, load_linked_payment,
  refund_in_full, refund_in_part, apply_downstream, close_report, record_resolution, execute,
}

refund_escrow-reports :
    (report_id k : ℕ) (intent : Option (ℕ × PaymentIntent)) (db : Db)
    → ((refund_escrow report_id k intent db).0 ≡ ok tt)
      × ((refund_escrow report_id k intent db).1.reports ≡ db.reports)
refund_escrow-reports report_id k intent db = (ground arith, ground arith)

cancel_each-reports :
    (report_id : ℕ) (seen : Db) (rows : Table Booking) (db : Db)
    → (cancel_each report_id seen rows db).1.reports ≡ db.reports
unfolding cancel_each
cancel_each-reports report_id seen [] db = refl
cancel_each-reports report_id seen ((k, b) ∷ rest) db =
    let (fine, kept) = refund_escrow-reports report_id k (intent_of seen k) db in
    let db1 = (refund_escrow report_id k (intent_of seen k) db).1 in
    let more =
      cancel_each-reports report_id seen rest
        (record db1 { bookings = update k (set_status BookingStatus.cancelled) db1.bookings }) in
    ground arith

suspend_user-reports :
    (now report_id : ℕ) (r : Report) (until : ℕ) (cancels : Bool) (db : Db)
    → (suspend_user now report_id r until cancels db).1.reports ≡ db.reports
unfolding suspend_user cancel_future_bookings
suspend_user-reports now report_id r until cancels db = elim (Option-cases r.target_user_id) [
  | inl nobody ↦ ground arith
  | inr (user_id, target) ↦
      let db1 : Db = record db {
        users = update user_id (λ u. record u { suspended_until = some until }) db.users;
      } in
      let cancelled =
        cancel_each-reports report_id db1
          (find_where (λ _ b. is_future_of now db1 user_id b) db1.bookings) db1 in
      ground arith
]

remove_content-reports :
    (now : ℕ) (r : Report) (reason : Option ℕ) (db : Db)
    → (remove_content now r reason db).1.reports ≡ db.reports
unfolding remove_content
remove_content-reports now r none db = refl
remove_content-reports now r (some reason) db = ground arith

refund_in_full-reports :
    (report_id : ℕ) (r : Report) (tutor_at_fault : Bool) (db : Db)
    → (refund_in_full report_id r tutor_at_fault db).1.reports ≡ db.reports
unfolding refund_in_full refund_parts load_linked_payment
refund_in_full-reports report_id r tutor_at_fault db = ground arith

refund_in_part-reports :
    (report_id : ℕ) (r : Report) (split : Option RefundSplitDto) (db : Db)
    → (refund_in_part report_id r split db).1.reports ≡ db.reports
unfolding refund_in_part refund_parts load_linked_payment
refund_in_part-reports report_id r split db = ground arith

apply_downstream-reports :
    (now temp_days report_id : ℕ) (r : Report) (dto : ResolveReportDto) (x : ReportResolution)
    (db : Db)
    → (apply_downstream now temp_days report_id r dto x db).1.reports ≡ db.reports
unfolding apply_downstream
apply_downstream-reports now temp_days report_id r dto ReportResolution.no_action db = refl
apply_downstream-reports now temp_days report_id r dto ReportResolution.warning_issued db =
    ground arith
apply_downstream-reports now temp_days report_id r dto ReportResolution.reporter_warned db =
    ground arith
apply_downstream-reports now temp_days report_id r dto ReportResolution.suspension_temp db =
    suspend_user-reports now report_id r _ false db
apply_downstream-reports now temp_days report_id r dto ReportResolution.suspension_perm db =
    suspend_user-reports now report_id r _ true db
apply_downstream-reports now temp_days report_id r dto ReportResolution.account_banned db =
    suspend_user-reports now report_id r _ true db
apply_downstream-reports now temp_days report_id r dto ReportResolution.content_removed db =
    remove_content-reports now r dto.removed_reason db
apply_downstream-reports now temp_days report_id r dto ReportResolution.refund_full db =
    refund_in_full-reports report_id r _ db
apply_downstream-reports now temp_days report_id r dto ReportResolution.refund_partial db =
    refund_in_part-reports report_id r dto.refund_split db

-- The report after a resolution that ended well.
execute-closes :
    (now temp_days report_id executed_by : ℕ) (dto : ResolveReportDto) (db : Db)
    → (execute now temp_days report_id executed_by dto db).0 ≡ ok tt
    → (r : Report) × (find report_id (execute now temp_days report_id executed_by dto db).1.reports
        ≡ some r)
      × (is_closed r.status ≡ true)
unfolding execute record_resolution
execute-closes now temp_days report_id executed_by dto db h =
    elim (Option-cases (find report_id db.reports)) [
      | inl missing ↦ absurd (ground arith)
      | inr (r, found) ↦
          let close = close_report now executed_by dto.resolution in
          let down = apply_downstream now temp_days report_id r dto dto.resolution db in
          let kept = apply_downstream-reports now temp_days report_id r dto dto.resolution db in
          let closed = find-update report_id report_id close down.1.reports in
          (close r, ground arith, refl)
    ]

refused :
    (now temp_days report_id executed_by : ℕ) (dto : ResolveReportDto) (r : Report) (db : Db)
    → find report_id db.reports ≡ some r
    → is_closed r.status ≡ true
    → execute now temp_days report_id executed_by dto db ≡ (err bad_request, db)
unfolding execute
refused now temp_days report_id executed_by dto r db found closed = ground arith

-- If a resolution of a report ended well, and the report is still as that call left it, whatever else
-- of the database has changed, then another resolution of it, whoever makes it and with whatever
-- decision, throws a bad request and changes nothing.
pub execute_once :
    (now temp_days report_id executed_by : ℕ) (dto : ResolveReportDto)
    (later temp_days' executed_by' : ℕ) (dto' : ResolveReportDto) (db db' : Db)
    → (execute now temp_days report_id executed_by dto db).0 ≡ ok tt
    → find report_id db'.reports
      ≡ find report_id (execute now temp_days report_id executed_by dto db).1.reports
    → execute later temp_days' report_id executed_by' dto' db' ≡ (err bad_request, db')
execute_once now temp_days report_id executed_by dto later temp_days' executed_by' dto' db db' h
      same =
    let (r, found, closed) = execute-closes now temp_days report_id executed_by dto db h in
    refused later temp_days' report_id executed_by' dto' r db' (same ∙ found) closed
