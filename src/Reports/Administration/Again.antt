-- ===== src/Reports/Administration/Again.antt =====
-- A report that is opened again after its resolution.
use pee_rahat.Prelude.{
  ℕ, zero, suc, ◌+◌, ◌≡◌, refl, ◌∙◌, ap, false, ◌==◌, none, some, [], ◌∷◌, Table, find, find_first,
  update, find-update, ok, arith, inl, inr, Bool-cases,
}
use pee_rahat.Store.{User, Report, ReportStatus, ReportResolution, Db, Action, ◌>>◌, pure}
use pee_rahat.Store.Effects.{then_ok}
use pee_rahat.Reports.Resolution.{
  ResolveReportDto, execute, apply_downstream, record_resolution, close_report, is_closed,
}
use pee_rahat.Reports.Administration.{
  update_status, status_rows, resolve, send_resolution_notifications,
}

-- The reporter of a report is warned.
abbrev pub warning : ResolveReportDto
warning = record {
  resolution = ReportResolution.reporter_warned;
  refund_split = none;
  removed_reason = none;
  tutor_at_fault = none;
  suspension_days = none;
}

-- An administrator takes the report under review and warns its reporter.
unfoldable pub review_and_warn : ℕ → ℕ → ℕ → ℕ → Action (Unit {0})
review_and_warn now temp_days supabase_id report_id =
    update_status supabase_id report_id ReportStatus.under_review false
    >> resolve now temp_days supabase_id report_id warning

abbrev warned : User → User
warned u = record u { false_report_count = u.false_report_count + 1 }

find_first-update :
    (s k : ℕ) {a : ℕ × User} (t : Table User)
    → find_first (λ _ u. u.supabase_id == s) t ≡ some a
    → (b : User) × (find_first (λ _ u. u.supabase_id == s) (update k warned t) ≡ some (a.0, b))
find_first-update s k [] h = cc
find_first-update s k {a} ((j, u) ∷ t) h = elim (Bool-cases (u.supabase_id == s)) [
  | inl hit ↦ elim (Bool-cases (k == j)) [
    | inl same ↦ (warned u, ground (arith, h))
    | inr other ↦ (u, ground (arith, h))
  ]
  | inr miss ↦ let rest = find_first-update s k t (rw miss at h) in (rest.0, ground (arith, rest.1))
]

abbrev reviewed : Report → Report
reviewed r = record r { status = ReportStatus.under_review }

module _ (now temp_days supabase_id report_id : ℕ) where
  abbrev Knows : ℕ × User → Db → Type 0
  Knows admin db = find_first (λ _ u. u.supabase_id == supabase_id) db.users ≡ some admin

  update_status-lem :
      (db : Db) {admin : ℕ × User} {r : Report}
      → Knows admin db
      → find report_id db.reports ≡ some r
      → let done = update_status supabase_id report_id ReportStatus.under_review false db in
        (done.0 ≡ ok tt)
        × (done.1.users ≡ db.users)
        × (done.1.reports ≡ update report_id reviewed db.reports)
  unfolding update_status status_rows
  update_status-lem db {admin} {r} known there = ground (arith, known, there)

  resolve-lem :
      (db : Db) {admin : ℕ × User} {r : Report} {u : User}
      → Knows admin db
      → find report_id db.reports ≡ some r
      → is_closed r.status ≡ false
      → find r.reporter_id db.users ≡ some u
      → let done = resolve now temp_days supabase_id report_id warning db in
        (done.0 ≡ ok tt)
        × (done.1.users ≡ update r.reporter_id warned db.users)
        × (done.1.reports
            ≡ update report_id
                (close_report now admin.0 ReportResolution.reporter_warned)
                db.reports)
  unfolding resolve execute apply_downstream record_resolution send_resolution_notifications
  resolve-lem db {admin} {r} {u} known there open_still reporter =
      ground (arith, known, there, open_still, reporter)

  review_and_warn-lem :
      (db : Db) {admin : ℕ × User} {r : Report} {u : User}
      → Knows admin db
      → find report_id db.reports ≡ some r
      → find r.reporter_id db.users ≡ some u
      → let done = review_and_warn now temp_days supabase_id report_id db in
        (r' : Report) × (done.0 ≡ ok tt)
        × (done.1.users ≡ update r.reporter_id warned db.users)
        × (find report_id done.1.reports ≡ some r')
        × (r'.reporter_id ≡ r.reporter_id)
  unfolding review_and_warn
  review_and_warn-lem db {admin} {r} {u} known there reporter =
      let under_review = update_status supabase_id report_id ReportStatus.under_review false in
      let first = update_status-lem db known there in
      let db1 = (under_review db).1 in
      let there1 : find report_id db1.reports ≡ some (reviewed r) =
        ground (arith, first.2, there, find-update report_id report_id reviewed db.reports) in
      let second =
        resolve-lem db1 {admin = admin} {r = reviewed r} {u = u} (rw first.1 known) there1 refl
          (rw first.1 reporter) in
      let close = close_report now admin.0 ReportResolution.reporter_warned in
      let chain =
        then_ok under_review (resolve now temp_days supabase_id report_id warning) db first.0 in
      rw chain (
        close (reviewed r),
        second.0,
        rw first.1 at second.1,
        ground (arith, second.2, there1, find-update report_id report_id close db1.reports),
        refl,
      )

  unfoldable pub rounds : ℕ → Action (Unit {0})
  rounds zero = pure tt
  rounds (suc n) = review_and_warn now temp_days supabase_id report_id >> rounds n

  -- A report with a known reporter, whatever its status, can be taken under review and resolved by a
  -- warning to its reporter any number of times, and each time counts as one more false report.
  pub rounds-count :
      (n : ℕ) (db : Db) {admin : ℕ × User} {r : Report} {u : User}
      → Knows admin db
      → find report_id db.reports ≡ some r
      → find r.reporter_id db.users ≡ some u
      → let done = rounds n db in
        (done.0 ≡ ok tt)
        × (find r.reporter_id done.1.users
            ≡ some (record u { false_report_count = u.false_report_count + n }))
  unfolding rounds
  rounds-count zero db known there reporter = (refl, ground (arith, reporter))
  rounds-count (suc n) db {admin} {r} {u} known there reporter =
      let (r', first, users, there', same) = review_and_warn-lem db known there reporter in
      let db1 = (review_and_warn now temp_days supabase_id report_id db).1 in
      let (admin', known') = find_first-update supabase_id r.reporter_id db.users known in
      let reporter1 : find r'.reporter_id db1.users ≡ some (warned u) =
        ground
          (arith, users, same, reporter, find-update r.reporter_id r.reporter_id warned db.users) in
      let rest =
        rounds-count n db1 {admin = (admin.0, admin')} {r = r'} {u = warned u} (rw users known')
          there' reporter1 in
      let chain =
        then_ok (review_and_warn now temp_days supabase_id report_id) (rounds n) db first in
      rw chain (
        rest.0,
        (rw same at rest.1)
            ∙ ap (λ (c : ℕ). some (record u { false_report_count = c })) (omega arith),
      )
