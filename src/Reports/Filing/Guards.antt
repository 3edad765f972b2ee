-- ===== src/Reports/Filing/Guards.antt =====
-- The checks of `create` of apps/api/src/reports/reports.service.ts, and what it writes.
use pee_rahat.Prelude.{
  ℕ, ◌≡◌, true, false, ◌==◌, some, [], ◌∷◌, find_first, ok, err, Error, fresh_id, arith, inl, inr,
  ◌⊎◌, Option-cases, Result-cases,
}
use pee_rahat.Store.{User, NotificationType, notify, invalidate, Db}
use pee_rahat.Reports.RateLimit.{assert_can_file}
use pee_rahat.Reports.Targets.{TargetResolution, resolve}
use pee_rahat.Reports.Filing.{
  CreateReportDto, ReportConfig, owns_evidence, is_own_content, new_report, create_checks, create,
}

-- A report may be filed: its reporter is known and within the limits, the evidence is the reporter's,
-- and the target is there and not all the reporter's own.
pub record IsAdmitted (config : ReportConfig) (now supabase_id : ℕ) (dto : CreateReportDto)
    (db : Db) (reporter : ℕ × User) (found : TargetResolution) : Type 0 where
  pub known : find_first (λ k u. u.supabase_id == supabase_id) db.users ≡ some reporter
  pub within_limits :
      assert_can_file config.limits now reporter.0 dto.target_type dto.target_id db ≡ ok tt
  pub own_evidence : owns_evidence config reporter.0 dto.evidence_keys ≡ true
  pub resolved : resolve dto.target_type dto.target_id db ≡ found
  pub target_exists : found.exists ≡ true
  pub not_own : is_own_content dto.target_type found reporter.0 ≡ false

module _ (config : ReportConfig) (now supabase_id : ℕ) (dto : CreateReportDto) (db : Db) where
  pub create_checks-reads : (create_checks config now supabase_id dto db).1 ≡ db
  unfolding create_checks
  create_checks-reads = ground arith

  pub create_checks-IsAdmitted :
      (reporter : ℕ × User) (found : TargetResolution)
      → (create_checks config now supabase_id dto db).0 ≡ ok (reporter, found)
      → IsAdmitted config now supabase_id dto db reporter found
  unfolding create_checks
  create_checks-IsAdmitted reporter found h =
      elim (Option-cases (find_first (λ k u. u.supabase_id == supabase_id) db.users)) [
        | inl unknown ↦ absurd (ground arith)
        | inr (p, e) ↦ ground arith
      ]

  abbrev pub with_report : ℕ × User → TargetResolution → Db
  with_report reporter found = record db {
    reports = (fresh_id db.reports, new_report config now reporter dto found) ∷ db.reports;
    effects =
        invalidate (reporter.0 ∷ []) ∷ notify reporter.0 NotificationType.report_filed ∷ db.effects;
  }

  -- Either the report is filed, or nothing is written.
  pub create-cases :
      ((reporter : ℕ × User) × (found : TargetResolution) × IsAdmitted config now supabase_id dto db
          reporter found
        × (create config now supabase_id dto db ≡ (
          ok (fresh_id db.reports, (new_report config now reporter dto found).sla_deadline),
          with_report reporter found,
        )))
      ⊎ ((e : Error) × (create config now supabase_id dto db ≡ (err e, db)))
  unfolding create
  create-cases =
      let same = create_checks-reads in
      elim (Result-cases (create_checks config now supabase_id dto db).0) [
        | inr (e, h) ↦ inr (e, ground (arith, same))
        | inl ((reporter, found), h) ↦
            inl (reporter, found, create_checks-IsAdmitted reporter found h, ground (arith, same))
      ]
