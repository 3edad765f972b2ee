-- ===== src/Reports/Cron.antt =====
-- The recurring jobs: apps/api/src/reports/report-cron.service.ts. The days that evidence is kept are
-- an argument.
mod Overdue
mod Tests
use pee_rahat.Prelude.{
  ℕ, ◌+◌, ◌-◌, ◌*◌, Bool, true, false, ◌&&◌, ◌||◌, not, ltb, leb, ◌==◌, if◌then◌else◌, is_some,
  Option, none, some, List, [], ◌∷◌, ◌++◌, length, Text, Table, find_where, update, update_where,
}
use pee_rahat.Calendar.{day_ms, minute_ms}
use pee_rahat.Store.{
  User, Report, ReportStatus, ReportPriority, ReportEvent, NotificationType, Effect, notify,
  delete_object, Db, Action, ◌>>=◌, ◌>>◌, pure, gets, modify, emit,
}
use pee_rahat.Reports.Administration.{update_report}

abbrev pub sla_window_ms : ℕ
sla_window_ms = 35 * minute_ms

abbrev pub is_waiting : ReportStatus → Bool
is_waiting ReportStatus.pending = true
is_waiting ReportStatus.under_review = true
is_waiting _ = false

unfoldable pub is_just_overdue : ℕ → Report → Bool
is_just_overdue now r =
    is_waiting r.status && ltb r.sla_deadline now && leb (now - sla_window_ms) r.sla_deadline

abbrev pub is_urgent : ReportPriority → Bool
is_urgent ReportPriority.urgent = true
is_urgent _ = false

abbrev pub notify_each : Table User → Action (Unit {0})
notify_each [] = pure tt
notify_each ((id, _) ∷ rest) =
    emit (notify id NotificationType.report_sla_overdue) >> notify_each rest

-- One round of the loop: the assignee is told, or the report becomes urgent and all are told.
abbrev pub escalate : Table User → ℕ → Report → Option ℕ → Action (Unit {0})
escalate admins id r (some assignee) = emit (notify assignee NotificationType.report_sla_overdue)
escalate admins id r none =
    (if is_urgent r.priority
      then pure tt
      else update_report id (λ r. record r { priority = ReportPriority.urgent }))
    >> notify_each admins

unfoldable pub escalate_each : Table User → Table Report → Action (Unit {0})
escalate_each admins [] = pure tt
escalate_each admins ((id, r) ∷ rest) =
    escalate admins id r r.assigned_to_id >> escalate_each admins rest

abbrev count_if : (Report → Bool) → Table Report → ℕ
count_if p [] = 0
count_if p ((k, r) ∷ t) = let rest = count_if p t in if p r then 1 + rest else rest

-- The numbers of those told and of those escalated.
unfoldable pub sla_check : ℕ → Action (ℕ × ℕ)
sla_check now = do
  overdue ← gets (λ db. find_where (λ _ r. is_just_overdue now r) db.reports)
  admins ← gets (λ db. find_where (λ _ u. u.is_admin) db.users)
  escalate_each admins overdue
  pure (
    count_if (λ r. is_some r.assigned_to_id) overdue,
    count_if (λ r. not (is_some r.assigned_to_id)) overdue,
  )

abbrev is_pending : ReportStatus → Bool
is_pending ReportStatus.pending = true
is_pending _ = false

abbrev pub is_stale_report : ℕ → Report → Bool
is_stale_report now r = is_pending r.status && ltb r.created_at (now - 90 * day_ms)

abbrev pub reject_stale : ℕ → Report → Report
reject_stale now r = record r { status = ReportStatus.rejected; resolved_at = some now }

unfoldable pub stale_cleanup : ℕ → Action ℕ
stale_cleanup now = do
  rejected ← gets (λ db. count_if (is_stale_report now) db.reports)
  modify (λ db. record db {
    reports = update_where (λ _ r. is_stale_report now r) (reject_stale now) db.reports;
  })
  pure rejected

abbrev has_keys : List Text → Bool
has_keys [] = false
has_keys (key ∷ keys) = true

abbrev events_keys : ℕ → Table ReportEvent → List Text
events_keys id [] = []
events_keys id ((k, e) ∷ t) =
    let rest = events_keys id t in if e.report_id == id then e.evidence_keys ++ rest else rest

abbrev was_resolved_before : ℕ → Option ℕ → Bool
was_resolved_before cutoff none = false
was_resolved_before cutoff (some at) = ltb at cutoff

unfoldable pub has_old_evidence : ℕ → Table ReportEvent → ℕ → Report → Bool
has_old_evidence cutoff events id r =
    was_resolved_before cutoff r.resolved_at
    && (has_keys r.evidence_keys || has_keys (events_keys id events))

abbrev delete_all : List Text → Action (Unit {0})
delete_all [] = pure tt
delete_all (key ∷ keys) = emit (delete_object key) >> delete_all keys

unfoldable pub purge_each : Table ReportEvent → Table Report → Action (Unit {0})
purge_each events [] = pure tt
purge_each events ((id, r) ∷ rest) = do
  delete_all (r.evidence_keys ++ events_keys id events)
  modify (λ db. record db {
    reports = update id (λ s. record s { evidence_keys = [] }) db.reports;
    report_events =
        update_where (λ _ e. e.report_id == id) (λ e. record e { evidence_keys = [] })
          db.report_events;
  })
  purge_each events rest

abbrev total_keys : Table ReportEvent → Table Report → ℕ
total_keys events [] = 0
total_keys events ((id, r) ∷ rest) =
    length (r.evidence_keys ++ events_keys id events) + total_keys events rest

unfoldable pub evidence_cleanup : ℕ → ℕ → Action ℕ
evidence_cleanup retention_days now = do
  events ← gets (λ db. db.report_events)
  old ← gets (λ db. find_where (has_old_evidence (now - retention_days * day_ms) events) db.reports)
  purge_each events old
  pure (total_keys events old)
