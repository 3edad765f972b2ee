-- ===== src/Reports/Resolution/Tests.antt =====
-- Runs of the resolution of reports.
use pee_rahat.Prelude.{◌≡◌, refl, false, none, some, ◌∷◌, map, ok, err, bad_request, pos}
use pee_rahat.Store.{BookingStatus, PaymentStatus, ReportResolution, RefundLedger}
use pee_rahat.Samples.{complaint, reported_db, class_with, intent_with, monday}
use pee_rahat.Reports.Resolution.{
  RefundSplitDto, ResolveReportDto, refund_in_full, refund_in_part, execute, apply_downstream,
  record_resolution, load_linked_payment, refund_parts,
}
use pee_rahat.Reports.Resolution.Refunds.{
  IsAdminSplit, refund_in_part-IsAdminSplit, refund_in_full_again,
}
use pee_rahat.Reports.Resolution.Once.{execute_once}

abbrev thirds : RefundSplitDto
thirds = record { student_pct = 33; tutor_pct = 33; platform_pct = 34 }

abbrev decision : ReportResolution → ResolveReportDto
decision x = record {
  resolution = x;
  refund_split = some thirds;
  removed_reason = none;
  tutor_at_fault = none;
  suspension_days = none;
}

execute_once_example :
    let first = execute monday 7 70 9 (decision ReportResolution.refund_partial) reported_db in
    execute monday 7 70 8 (decision ReportResolution.no_action) first.1 ≡ (err bad_request, first.1)
unfolding execute apply_downstream refund_in_part load_linked_payment refund_parts record_resolution
execute_once_example =
    execute_once monday 7 70 9 (decision ReportResolution.refund_partial) monday 7 8
      (decision ReportResolution.no_action) reported_db
      (execute monday 7 70 9 (decision ReportResolution.refund_partial) reported_db).1 refl refl

refund_in_part-IsAdminSplit_example :
    (l : RefundLedger) × ((refund_in_part 70 complaint (some thirds) reported_db).0 ≡ ok tt)
    × IsAdminSplit 10 40
        (intent_with PaymentStatus.released_for_payout (some 50) none)
        l
        reported_db
        (refund_in_part 70 complaint (some thirds) reported_db).1
refund_in_part-IsAdminSplit_example =
    refund_in_part-IsAdminSplit 70 complaint thirds 10 40 (class_with BookingStatus.completed none)
      (intent_with PaymentStatus.released_for_payout (some 50) none) reported_db refl refl
      (refl, tt) refl

refund_in_full_again_example :
    let first = refund_in_full 70 complaint false reported_db in
    let second = refund_in_full 71 complaint false first.1 in
    (l l' : RefundLedger) × (first.0 ≡ ok tt)
    × (second.0 ≡ ok tt)
    × (map (λ row. row.1) second.1.ledgers ≡ l' ∷ l ∷ map (λ row. row.1) reported_db.ledgers)
    × (l.student_refund_thb ≡ pos 300)
    × (l'.student_refund_thb ≡ pos 300)
refund_in_full_again_example =
    refund_in_full_again 70 71 complaint complaint 10 40 (class_with BookingStatus.completed none)
      (intent_with PaymentStatus.released_for_payout (some 50) none) reported_db refl refl refl refl
