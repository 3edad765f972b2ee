-- ===== src/Reports/Administration.antt =====
-- What an administrator does with a report: `AdminReportsService` of
-- apps/api/src/reports/admin-reports.service.ts, without its listings. The role is checked by the
-- guard of the controller. The texts are left out.
mod Again
mod Trail
mod Tests
use pee_rahat.Prelude.{
  ℕ, Bool, true, false, ◌&&◌, not, ◌==◌, if◌then◌else◌, is_some, Option, none, some, List, [], ◌∷◌,
  find, update, bad_request, not_found,
}
use pee_rahat.Store.{
  User, Report, ReportStatus, ReportEvent, ReportEventKind, ReportResolution, NotificationType,
  AdminAction, Effect, notify, invalidate, admin_action, Db, Action, ◌>>=◌, ◌>>◌, pure, raise, gets,
  or_raise, raise_if, modify, emit, transaction, require_user,
}
use pee_rahat.Reports.Filing.{add_event}
use pee_rahat.Reports.Resolution.{ResolveReportDto, execute}

abbrev pub load_report : ℕ → Action Report
load_report report_id = do or_raise (← gets (λ db. find report_id db.reports)) not_found

abbrev pub update_report : ℕ → (Report → Report) → Action (Unit {0})
update_report report_id f = modify (λ db. record db { reports = update report_id f db.reports })

abbrev pub event : ℕ → ReportEventKind → ℕ → ReportEvent
event report_id kind author_id = record {
  report_id = report_id;
  kind = kind;
  author_id = author_id;
  evidence_keys = [];
}

abbrev is_assignable : Option User → Bool
is_assignable none = false
is_assignable (some u) = u.is_admin

unfoldable pub assign : ℕ → ℕ → ℕ → Action (Unit {0})
assign supabase_id report_id admin_id = do
  admin ← require_user supabase_id
  load_report report_id
  assignee ← gets (λ db. find admin_id db.users)
  raise_if (not (is_assignable assignee)) bad_request
  update_report report_id (λ r. record r { assigned_to_id = some admin_id })
  add_event (event report_id ReportEventKind.assignment admin.0)
  emit (admin_action admin.0 AdminAction.assign_report report_id)

abbrev is_under_review : ReportStatus → Bool
is_under_review ReportStatus.under_review = true
is_under_review _ = false

abbrev notify_some : Option ℕ → NotificationType → Action (Unit {0})
notify_some none type = pure tt
notify_some (some user_id) type = emit (notify user_id type)

-- `has_note`: a note was given.
unfoldable pub status_rows : ℕ → ℕ → ReportStatus → Bool → Action (Unit {0})
status_rows admin_id report_id status has_note = do
  update_report report_id (λ r. record r { status = status })
  add_event (event report_id ReportEventKind.status_change admin_id)
  if has_note then add_event (event report_id ReportEventKind.admin_note admin_id) else pure tt

-- Only the change to a review tells the target's owner.
abbrev tell_target : Report → ReportStatus → Action (Unit {0})
tell_target r status =
    if is_under_review status && not (is_under_review r.status)
    then notify_some r.target_user_id NotificationType.report_under_review
    else pure tt

unfoldable pub update_status : ℕ → ℕ → ReportStatus → Bool → Action (Unit {0})
update_status supabase_id report_id status has_note = do
  admin ← require_user supabase_id
  r ← load_report report_id
  status_rows admin.0 report_id status has_note
  emit (admin_action admin.0 AdminAction.update_report_status report_id)
  tell_target r status
  emit (invalidate (r.reporter_id ∷ []))

abbrev is_reporter_warned : ReportResolution → Bool
is_reporter_warned ReportResolution.reporter_warned = true
is_reporter_warned _ = false

-- What the owner of the target hears of.
abbrev target_notice : ReportResolution → Option NotificationType
target_notice ReportResolution.warning_issued = some NotificationType.report_warning
target_notice ReportResolution.suspension_temp = some NotificationType.report_suspension
target_notice ReportResolution.suspension_perm = some NotificationType.report_suspension
target_notice ReportResolution.account_banned = some NotificationType.report_suspension
target_notice ReportResolution.content_removed = some NotificationType.report_content_removed
target_notice _ = none

abbrev notify_target : Option ℕ → Option NotificationType → Action (Unit {0})
notify_target user none = pure tt
notify_target user (some type) = notify_some user type

unfoldable pub send_resolution_notifications : Report → ReportResolution → Action (Unit {0})
send_resolution_notifications r resolution = do
  emit (
      notify r.reporter_id (
        if is_reporter_warned resolution
        then NotificationType.report_reporter_warned
        else NotificationType.report_resolved))
  notify_target r.target_user_id (target_notice resolution)

abbrev with_target : ℕ → Option ℕ → List ℕ
with_target reporter none = reporter ∷ []
with_target reporter (some target) = reporter ∷ target ∷ []

abbrev announce_resolution : ResolveReportDto → Option Report → Action (Unit {0})
announce_resolution dto none = pure tt
announce_resolution dto (some r) =
    send_resolution_notifications r dto.resolution
    >> emit (invalidate (with_target r.reporter_id r.target_user_id))

unfoldable pub resolve : ℕ → ℕ → ℕ → ℕ → ResolveReportDto → Action (Unit {0})
resolve now temp_days supabase_id report_id dto = do
  admin ← require_user supabase_id
  execute now temp_days report_id admin.0 dto
  emit (admin_action admin.0 AdminAction.resolve_report report_id)
  resolved ← gets (λ db. find report_id db.reports)
  announce_resolution dto resolved

unfoldable pub add_note : ℕ → ℕ → Action (Unit {0})
add_note supabase_id report_id = do
  admin ← require_user supabase_id
  load_report report_id
  add_event (event report_id ReportEventKind.admin_note admin.0)
  emit (admin_action admin.0 AdminAction.add_report_note report_id)

unfoldable pub mark_duplicate : ℕ → ℕ → ℕ → Action (Unit {0})
mark_duplicate supabase_id report_id parent_report_id = do
  admin ← require_user supabase_id
  raise_if (report_id == parent_report_id) bad_request
  load_report report_id
  or_raise (← gets (λ db. find parent_report_id db.reports)) bad_request
  update_report report_id
      (λ r. record r { status = ReportStatus.duplicate; parent_report_id = some parent_report_id })
  add_event (event report_id ReportEventKind.status_change admin.0)
  emit (admin_action admin.0 AdminAction.mark_report_duplicate report_id)
