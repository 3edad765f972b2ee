-- ===== src/Reports/RateLimit.antt =====
-- Who may file a report: `assertCanFile` of apps/api/src/reports/report-rate-limit.service.ts. The
-- limits of the environment are an argument. The hours that the message names are left out.
use pee_rahat.Prelude.{
  ℕ, suc, ◌-◌, ◌*◌, Bool, true, false, ◌&&◌, ltb, leb, ◌==◌, if◌then◌else◌, Option, none, some, [],
  ◌∷◌, Table, Result, ok, err, ◌>>◌, throw_if, too_many_requests,
}
use pee_rahat.Calendar.{day_ms}
use pee_rahat.Store.{ReportTarget, ReportStatus, Report, Db}

pub record ReportLimits : Type 0 where
  pub max_per_24h : ℕ
  pub max_per_30d : ℕ
  pub rereport_cooldown_days : ℕ

-- `count`
unfoldable pub count : (Report → Bool) → Table Report → ℕ
count p [] = 0
count p ((k, r) ∷ t) = let rest = count p t in if p r then suc rest else rest

abbrev newer : Report → Option Report → Option Report
newer r none = some r
newer r (some s) = if ltb r.created_at s.created_at then some s else some r

-- `findFirst` with the newest creation first
unfoldable pub latest : (Report → Bool) → Table Report → Option Report
latest p [] = none
latest p ((k, r) ∷ t) = let rest = latest p t in if p r then newer r rest else rest

abbrev target_index : ReportTarget → ℕ
target_index ReportTarget.booking = 0
target_index ReportTarget.chat_message = 1
target_index ReportTarget.sheet = 2
target_index ReportTarget.review = 3
target_index ReportTarget.community_post = 4

abbrev pub filed_since : ℕ → ℕ → Report → Bool
filed_since reporter_id since r = r.reporter_id == reporter_id && leb since r.created_at

unfoldable pub is_about : ReportTarget → ℕ → Report → Bool
is_about target_type target_id r =
    target_index r.target_type == target_index target_type && r.target_id == target_id

abbrev pub is_escalated : ReportStatus → Bool
is_escalated ReportStatus.escalated = true
is_escalated _ = false

abbrev pub check_prior : Option Report → Result (Unit {0})
check_prior none = ok tt
check_prior (some prior) = if is_escalated prior.status then ok tt else err too_many_requests

unfoldable pub assert_can_file : ReportLimits → ℕ → ℕ → ReportTarget → ℕ → Db → Result (Unit {0})
assert_can_file limits now reporter_id target_type target_id db =
    let recent = count (filed_since reporter_id (now - day_ms)) db.reports in
    let monthly = count (filed_since reporter_id (now - 30 * day_ms)) db.reports in
    let cooldown_start = now - limits.rereport_cooldown_days * day_ms in
    throw_if (leb limits.max_per_24h recent) too_many_requests
    >> throw_if (leb limits.max_per_30d monthly) too_many_requests
    >> check_prior (
        latest (λ r. filed_since reporter_id cooldown_start r && is_about target_type target_id r)
          db.reports)
