-- ===== src/Reports/Filing.antt =====
-- `create` and `addComment` of apps/api/src/reports/reports.service.ts. How an id is written in the
-- key of a file is an argument. The texts are left out.
pub mod Guards
mod Limits
mod Again
mod Ranked
mod Tests
use pee_rahat.Prelude.{
  ℕ, ◌+◌, Bool, true, false, ◌&&◌, ◌||◌, not, ltb, leb, ◌==◌, if◌then◌else◌, is_some, or_default,
  Option, none, some, List, [], ◌∷◌, ◌++◌, Text, Table, find, fresh_id, bad_request, not_found,
  forbidden,
}
use pee_rahat.Store.{
  BookingStatus, ReportTarget, ReportCategory, ReportStatus, ReportPriority, ReportEventKind,
  NotificationType, User, Report, ReportEvent, Effect, notify, invalidate, Db, Action, ◌>>=◌, ◌>>◌,
  pure, gets, reads, or_raise, raise_if, modify, emit, require_user,
}
use pee_rahat.Reports.RateLimit.{ReportLimits, assert_can_file}
use pee_rahat.Reports.Priority.{SlaHours, ComputePriorityInput, sla_deadline_for, compute}
use pee_rahat.Reports.Targets.{ReportTargetContext, TargetResolution, resolve}

pub record CreateReportDto : Type 0 where
  pub target_type : ReportTarget
  pub target_id : ℕ
  pub category : ReportCategory
  pub evidence_keys : List Text

-- What the services take from the environment, and how an id is written.
pub record ReportConfig : Type 0 where
  pub limits : ReportLimits
  pub hours : SlaHours
  pub id_text : ℕ → Text

abbrev pub starts_with : Text → Text → Bool
starts_with [] s = true
starts_with (c ∷ cs) [] = false
starts_with (c ∷ cs) (d ∷ ds) = c == d && starts_with cs ds

abbrev every : {A : Type 0} → (A → Bool) → List A → Bool
every p [] = true
every p (x ∷ xs) = p x && every p xs

-- "reports/<id>/"
abbrev pub evidence_prefix : ReportConfig → ℕ → Text
evidence_prefix config reporter_id =
    (b'r' ∷ b'e' ∷ b'p' ∷ b'o' ∷ b'r' ∷ b't' ∷ b's' ∷ b'/' ∷ [])
    ++ config.id_text reporter_id
    ++ b'/' ∷ []

abbrev pub owns_evidence : ReportConfig → ℕ → List Text → Bool
owns_evidence config reporter_id keys =
    every (starts_with (evidence_prefix config reporter_id)) keys

abbrev is_booking : ReportTarget → Bool
is_booking ReportTarget.booking = true
is_booking _ = false

abbrev has_any : List ℕ → Bool
has_any [] = false
has_any (x ∷ xs) = true

unfoldable pub is_own_content : ReportTarget → TargetResolution → ℕ → Bool
is_own_content target_type found reporter_id =
    not (is_booking target_type)
    && has_any found.owner_user_ids
    && every (λ id. id == reporter_id) found.owner_user_ids

abbrev first_other : ℕ → List ℕ → Option ℕ
first_other x [] = none
first_other x (y ∷ ys) = let rest = first_other x ys in if y == x then rest else some y

abbrev first_owner : List ℕ → Option ℕ
first_owner [] = none
first_owner (x ∷ xs) = some x

abbrev or_else : Option ℕ → Option ℕ → Option ℕ
or_else none b = b
or_else (some a) b = some a

abbrev pub target_user : List ℕ → ℕ → Option ℕ
target_user owners reporter_id = or_else (first_other reporter_id owners) (first_owner owners)

abbrev pub is_bypass : ReportTargetContext → Bool
is_bypass (ReportTargetContext.chat_message bypass_match) = bypass_match
is_bypass _ = false

abbrev pub category_of : Bool → ReportCategory → ReportCategory
category_of true ReportCategory.other = ReportCategory.off_platform_solicitation
category_of bypass c = c

abbrev pub class_of : ReportTargetContext → Option (BookingStatus × ℕ)
class_of (ReportTargetContext.booking status scheduled_at) = some (status, scheduled_at)
class_of _ = none

abbrev is_urgent : ReportPriority → Bool
is_urgent ReportPriority.urgent = true
is_urgent _ = false

-- The priority and the deadline. No reporter counts as a minor.
unfoldable pub priority_of :
    ReportConfig → ℕ → User → ReportCategory → ReportTargetContext → ReportPriority × ℕ
priority_of config now reporter category context =
    let computed =
      compute config.hours
        (record {
          false_report_count = reporter.false_report_count;
          is_minor = false;
          category = category;
          booking = class_of context;
        })
        now in
    if is_bypass context && not (is_urgent computed.0)
    then (ReportPriority.high, sla_deadline_for config.hours ReportPriority.high now)
    else computed

abbrev pub new_report : ReportConfig → ℕ → ℕ × User → CreateReportDto → TargetResolution → Report
new_report config now reporter dto found =
    let category = category_of (is_bypass found.context) dto.category in
    let ranked = priority_of config now reporter.1 category found.context in
    record {
      reporter_id = reporter.0;
      target_type = dto.target_type;
      target_id = dto.target_id;
      target_user_id = target_user found.owner_user_ids reporter.0;
      category = category;
      status = ReportStatus.pending;
      priority = ranked.0;
      sla_deadline = ranked.1;
      assigned_to_id = none;
      resolved_at = none;
      resolution = none;
      linked_booking_id = found.booking_id;
      parent_report_id = none;
      evidence_keys = dto.evidence_keys;
      created_at = now;
    }

-- The checks of `create`, with what they find.
unfoldable pub create_checks :
    ReportConfig → ℕ → ℕ → CreateReportDto → Action ((ℕ × User) × TargetResolution)
create_checks config now supabase_id dto = do
  reporter ← require_user supabase_id
  reads (λ db. assert_can_file config.limits now reporter.0 dto.target_type dto.target_id db)
  raise_if (not (owns_evidence config reporter.0 dto.evidence_keys)) bad_request
  found ← gets (resolve dto.target_type dto.target_id)
  raise_if (not found.exists) not_found
  raise_if (is_own_content dto.target_type found reporter.0) forbidden
  pure (reporter, found)

unfoldable pub create : ReportConfig → ℕ → ℕ → CreateReportDto → Action (ℕ × ℕ)
create config now supabase_id dto = do
  checked ← create_checks config now supabase_id dto
  let row = new_report config now checked.0 dto checked.1
  id ← gets (λ db. fresh_id db.reports)
  modify (λ db. record db { reports = (id, row) ∷ db.reports })
  emit (notify checked.0.0 NotificationType.report_filed)
  emit (invalidate (checked.0.0 ∷ []))
  pure (id, row.sla_deadline)

abbrev is_commentable : ReportStatus → Bool
is_commentable ReportStatus.pending = true
is_commentable ReportStatus.under_review = true
is_commentable _ = false

abbrev pub add_event : ReportEvent → Action (Unit {0})
add_event e =
    modify (λ db. record db { report_events = (fresh_id db.report_events, e) ∷ db.report_events })

unfoldable pub add_comment : ReportConfig → ℕ → ℕ → List Text → Action (Unit {0})
add_comment config supabase_id report_id evidence_keys = do
  reporter ← require_user supabase_id
  r ← or_raise (← gets (λ db. find report_id db.reports)) not_found
  raise_if (not (r.reporter_id == reporter.0)) forbidden
  raise_if (not (is_commentable r.status)) bad_request
  raise_if (not (owns_evidence config reporter.0 evidence_keys)) bad_request
  add_event (record {
    report_id = report_id;
    kind = ReportEventKind.reporter_comment;
    author_id = reporter.0;
    evidence_keys = evidence_keys;
  })
  emit (invalidate (reporter.0 ∷ []))
