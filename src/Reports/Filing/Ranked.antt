-- ===== src/Reports/Filing/Ranked.antt =====
-- The priority and the deadline of a report that is filed.
use pee_rahat.Prelude.{
  ℕ, ◌+◌, ◌*◌, ◌≤◌, ◌<◌, ◌≡◌, ◌≢◌, ◌↔◌, refl, true, false, ◌∷◌, ok, arith, inl, inr, ◌⊎◌,
}
use pee_rahat.Calendar.{hour_ms}
use pee_rahat.Store.{User, Report, ReportStatus, ReportPriority, Db}
use pee_rahat.Reports.Priority.{
  SlaHours, is_urgent_category, is_soon, sla_hours, sla_deadline_for, resolve_priority, compute,
}
use pee_rahat.Reports.Targets.{TargetResolution, ReportTargetContext}
use pee_rahat.Reports.Filing.{
  CreateReportDto, ReportConfig, is_bypass, class_of, priority_of, new_report, create,
}
use pee_rahat.Reports.Filing.Guards.{IsAdmitted, create-cases}

-- Which priority a report has. The reporter is not trusted after three false reports; the filter has
-- caught the message, if the report is about one; the class is paid and begins within a day.
pub record IsRanked (hours : SlaHours) (now : ℕ) (reporter : User) (context : ReportTargetContext)
    (row : Report) : Type 0 where
  pub urgent :
      (row.priority ≡ ReportPriority.urgent)
      ↔ ((reporter.false_report_count < 3) × (is_urgent_category row.category ≡ true))
  pub high : (row.priority ≡ ReportPriority.high) ↔ (
      (row.priority ≢ ReportPriority.urgent)
      × ((is_bypass context ≡ true)
          ⊎ ((reporter.false_report_count < 3) × (is_soon now (class_of context) ≡ true))))
  pub low :
      (row.priority ≡ ReportPriority.low)
      ↔ ((3 ≤ reporter.false_report_count) × (is_bypass context ≡ false))
  pub deadline : row.sla_deadline ≡ now + sla_hours hours row.priority * hour_ms

new_report-IsRanked :
    (config : ReportConfig) (now : ℕ) (reporter : ℕ × User) (dto : CreateReportDto)
    (found : TargetResolution)
    → IsRanked config.hours now reporter.1 found.context (new_report config now reporter dto found)
unfolding priority_of compute resolve_priority sla_deadline_for
new_report-IsRanked config now reporter dto found = record {
  urgent = ground arith;
  high = ground arith;
  low = ground arith;
  deadline = ground arith;
}

-- If a report is filed, it is the new row, waits for an administrator, and has its priority and its
-- deadline from the rules: a message that the filter has caught is high at least, even if its reporter
-- is not trusted.
pub create-IsRanked :
    (config : ReportConfig) (now supabase_id : ℕ) (dto : CreateReportDto) (db : Db) {filed : ℕ × ℕ}
    → (create config now supabase_id dto db).0 ≡ ok filed
    → (reporter : ℕ × User) × (found : TargetResolution) × (row : Report) × IsAdmitted config now
        supabase_id dto db reporter found
      × ((create config now supabase_id dto db).1.reports ≡ (filed.0, row) ∷ db.reports)
      × (row.status ≡ ReportStatus.pending)
      × (row.sla_deadline ≡ filed.1)
      × IsRanked config.hours now reporter.1 found.context row
create-IsRanked config now supabase_id dto db success =
    elim (create-cases config now supabase_id dto db) [
      | inr (e, thrown) ↦ absurd (ground (arith, thrown, success))
      | inl (reporter, found, admitted, done) ↦
          let row = new_report config now reporter dto found in
          (
            reporter,
            found,
            row,
            admitted,
            ground (arith, done, success),
            refl,
            ground (arith, done, success),
            new_report-IsRanked config now reporter dto found,
          )
    ]
