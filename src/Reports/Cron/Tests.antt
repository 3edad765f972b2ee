-- ===== src/Reports/Cron/Tests.antt =====
-- Jobs on the sample report, whose deadline is a Monday morning.
use pee_rahat.Prelude.{◌+◌, ◌*◌, ◌≡◌, refl, ◌&&◌, ltb, leb, some, find, not, is_some, if◌then◌else◌}
use pee_rahat.Store.{ReportPriority}
use pee_rahat.Samples.{complaint, reported_db, monday}
use pee_rahat.Reports.Cron.{sla_check}
use pee_rahat.Reports.Cron.Overdue.{is_undecided, sla_check-urgent}

sla_check-urgent_example :
    find 70 (sla_check (monday + 1) reported_db).1.reports
    ≡ some (
        if (is_undecided complaint.status
            && ltb complaint.sla_deadline (monday + 1)
            && leb (monday + 1) (complaint.sla_deadline + 35 * 60000))
          && not (is_some complaint.assigned_to_id)
        then record complaint { priority = ReportPriority.urgent }
        else complaint)
sla_check-urgent_example = sla_check-urgent (monday + 1) 70 reported_db (refl, tt) refl
