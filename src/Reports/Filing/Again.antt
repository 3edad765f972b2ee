-- ===== src/Reports/Filing/Again.antt =====
-- A second report on the same target.
use pee_rahat.Prelude.{
  ℕ, ◌+◌, ◌-◌, ◌*◌, ◌≤◌, ◌≡◌, ◌≢◌, refl, true, false, update, Bool-cases, ◌&&◌, ◌==◌, some, [], ◌∷◌,
  Table, Each, fresh_id, find_first, ok, err, arith, inl, inr, Option-cases, too_many_requests,
  Bool,
}
use pee_rahat.Calendar.{day_ms}
use pee_rahat.Store.{User, Report, ReportStatus, Db}
use pee_rahat.Reports.RateLimit.{
  ReportLimits, filed_since, latest, is_about, is_escalated, assert_can_file,
}
use pee_rahat.Reports.Filing.{CreateReportDto, ReportConfig, new_report, create_checks, create}
use pee_rahat.Reports.Filing.Guards.{create-cases}

-- No report is from after an instant.
abbrev pub IsPast : ℕ → Table Report → Type 0
IsPast now reports = Each (λ k r. r.created_at ≤ now) reports

latest-IsPast :
    (now : ℕ) (p : Report → Bool) {r : Report} (t : Table Report)
    → IsPast now t
    → latest p t ≡ some r
    → r.created_at ≤ now
unfolding latest
latest-IsPast now p [] past e = cc
latest-IsPast now p {r} ((k, s) ∷ t) past e = elim (Option-cases (latest p t)) [
  | inl nothing ↦ ground (arith, past, e, nothing)
  | inr (s', found) ↦
      let before : s'.created_at ≤ now = latest-IsPast now p t past.1 found in
      ground (arith, past.0, e, found, before)
]

-- What has just been filed is the latest.
latest-cons :
    (now k : ℕ) (p : Report → Bool) (row : Report) (t : Table Report)
    → IsPast now t
    → row.created_at ≡ now
    → p row ≡ true
    → latest p ((k, row) ∷ t) ≡ some row
unfolding latest
latest-cons now k p row t past at hit = elim (Option-cases (latest p t)) [
  | inl nothing ↦ rw (hit, nothing) refl
  | inr (s, found) ↦
      let before : s.created_at ≤ now = latest-IsPast now p t past found in
      rw (hit, found) (ground (arith, at, before))
]

IsPast-update :
    (now k : ℕ) (s : ReportStatus) (t : Table Report)
    → IsPast now t
    → IsPast now (update k (λ r. record r { status = s }) t)
IsPast-update now k s [] past = tt
IsPast-update now k s ((j, r) ∷ t) past = elim (Bool-cases (k == j)) [
  | inl same ↦ rw same (past.0, IsPast-update now k s t past.1)
  | inr other ↦ rw other (past.0, IsPast-update now k s t past.1)
]

not-is_escalated : (s : ReportStatus) → s ≢ ReportStatus.escalated → is_escalated s ≡ false
not-is_escalated ReportStatus.pending other = refl
not-is_escalated ReportStatus.under_review other = refl
not-is_escalated ReportStatus.escalated other = absurd (other refl)
not-is_escalated ReportStatus.resolved other = refl
not-is_escalated ReportStatus.rejected other = refl
not-is_escalated ReportStatus.duplicate other = refl

is_about_self : (r : Report) → is_about r.target_type r.target_id r ≡ true
unfolding is_about
is_about_self r = ground arith

assert_can_file-again :
    (limits : ReportLimits) (now later k : ℕ) (row : Report) (t : Table Report) (db : Db)
    → db.reports ≡ (k, row) ∷ t
    → IsPast now t
    → row.created_at ≡ now
    → row.status ≢ ReportStatus.escalated
    → now ≤ later
    → later ≤ now + limits.rereport_cooldown_days * day_ms
    → assert_can_file limits later row.reporter_id row.target_type row.target_id db
      ≡ err too_many_requests
unfolding assert_can_file
assert_can_file-again limits now later k row t db filed past at fresh after soon =
    let start = later - limits.rereport_cooldown_days * day_ms in
    let p = λ (r : Report).
      filed_since row.reporter_id start r && is_about row.target_type row.target_id r in
    let hit : p row ≡ true = ground (arith, is_about_self row, at, after, soon) in
    let prior : latest p ((k, row) ∷ t) ≡ some row = latest-cons now k p row t past at hit in
    let open_still : is_escalated row.status ≡ false = not-is_escalated row.status fresh in
    rw (filed, prior, open_still) (ground arith)

create-refused :
    (config : ReportConfig) (now supabase_id : ℕ) (dto : CreateReportDto) (db : Db)
    (reporter : ℕ × User)
    → find_first (λ k u. u.supabase_id == supabase_id) db.users ≡ some reporter
    → assert_can_file config.limits now reporter.0 dto.target_type dto.target_id db
      ≡ err too_many_requests
    → create config now supabase_id dto db ≡ (err too_many_requests, db)
unfolding create create_checks
create-refused config now supabase_id dto db reporter known refused = ground (arith, known, refused)

-- If a report has been filed and no report is from later, and since then the users are as before and
-- of the reports at most that one has changed, in its status, to any but `escalated`, then the same user
-- cannot file another on the same target until the cooldown has passed: the call answers that there are
-- too many, and writes nothing.
pub create_again :
    (config : ReportConfig) (now later supabase_id : ℕ) (dto dto' : CreateReportDto)
    (s : ReportStatus) (db db' : Db) {filed : ℕ × ℕ}
    → IsPast now db.reports
    → (create config now supabase_id dto db).0 ≡ ok filed
    → s ≢ ReportStatus.escalated
    → db'.users ≡ db.users
    → db'.reports
      ≡ update filed.0
          (λ r. record r { status = s })
          (create config now supabase_id dto db).1.reports
    → dto'.target_type ≡ dto.target_type
    → dto'.target_id ≡ dto.target_id
    → now ≤ later
    → later ≤ now + config.limits.rereport_cooldown_days * day_ms
    → create config later supabase_id dto' db' ≡ (err too_many_requests, db')
create_again config now later supabase_id dto dto' s db db' {filed} past success kept users reports
      type id after soon =
    elim (create-cases config now supabase_id dto db) [
      | inr (e, thrown) ↦ absurd (ground (arith, thrown, success))
      | inl (reporter, found, admitted, done) ↦
          let k = fresh_id db.reports in
          let row = record (new_report config now reporter dto found) { status = s } in
          let same_id : filed.0 ≡ k = ground (arith, done, success) in
          let rows : db'.reports ≡ (k, row) ∷ update k (λ r. record r { status = s }) db.reports =
            rw (reports, same_id, done) (ground arith) in
          create-refused config later supabase_id dto' db' reporter (rw users admitted.known) (
            rw (type, id)
              (assert_can_file-again config.limits now later k row _ db' rows
                (IsPast-update now k s db.reports past) refl kept after soon))
    ]
