-- ===== src/Reports/Priority.antt =====
-- The priority of a new report and its deadline: apps/api/src/reports/report-priority.service.ts. The
-- hours of the environment are an argument.
use pee_rahat.Prelude.{
  ℕ, ◌+◌, ◌*◌, Bool, true, false, ◌&&◌, ltb, leb, if◌then◌else◌, Option, none, some,
}
use pee_rahat.Calendar.{day_ms, hour_ms}
use pee_rahat.Store.{BookingStatus, ReportCategory, ReportPriority}

pub record SlaHours : Type 0 where
  pub low : ℕ
  pub normal : ℕ
  pub high : ℕ
  pub urgent : ℕ

-- `target`: a class with its status and its beginning, or another target.
pub record ComputePriorityInput : Type 0 where
  pub false_report_count : ℕ
  pub is_minor : Bool
  pub category : ReportCategory
  pub booking : Option (BookingStatus × ℕ)

abbrev pub is_urgent_category : ReportCategory → Bool
is_urgent_category ReportCategory.scam = true
is_urgent_category ReportCategory.fraud = true
is_urgent_category ReportCategory.payment_issue = true
is_urgent_category _ = false

abbrev is_minor_sensitive : ReportCategory → Bool
is_minor_sensitive ReportCategory.abuse = true
is_minor_sensitive ReportCategory.harassment = true
is_minor_sensitive _ = false

abbrev is_paid : BookingStatus → Bool
is_paid BookingStatus.paid = true
is_paid _ = false

abbrev pub is_soon : ℕ → Option (BookingStatus × ℕ) → Bool
is_soon now none = false
is_soon now (some (status, scheduled_at)) = is_paid status && ltb scheduled_at (now + day_ms)

unfoldable pub resolve_priority : ComputePriorityInput → ℕ → ReportPriority
resolve_priority i now =
    if leb 3 i.false_report_count
    then ReportPriority.low
    else if is_urgent_category i.category
    then ReportPriority.urgent
    else if is_minor_sensitive i.category && i.is_minor
    then ReportPriority.urgent
    else if is_soon now i.booking
    then ReportPriority.high
    else ReportPriority.normal

abbrev pub sla_hours : SlaHours → ReportPriority → ℕ
sla_hours h ReportPriority.low = h.low
sla_hours h ReportPriority.normal = h.normal
sla_hours h ReportPriority.high = h.high
sla_hours h ReportPriority.urgent = h.urgent

unfoldable pub sla_deadline_for : SlaHours → ReportPriority → ℕ → ℕ
sla_deadline_for h p now = now + sla_hours h p * hour_ms

unfoldable pub compute : SlaHours → ComputePriorityInput → ℕ → ReportPriority × ℕ
compute h i now = let p = resolve_priority i now in (p, sla_deadline_for h p now)
