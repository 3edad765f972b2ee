-- ===== src/Reports/Administration/Trail.antt =====
-- What a call of an administrator leaves behind.
use pee_rahat.Prelude.{
  ℕ, ◌≤◌, ◌≡◌, ◌≢◌, refl, Bool, true, false, ◌==◌, some, [], ◌∷◌, ◌++◌, All, length, Table, find,
  find_first, fresh_id, update, find-update, ok, arith, inl, inr, ◌⊎◌, Option-cases,
}
use pee_rahat.Store.{User, Report, ReportStatus, ReportEvent, ReportEventKind, Db, Action}
use pee_rahat.Reports.Administration.{
  event, assign, update_status, status_rows, add_note, mark_duplicate,
}

pub data AdminCall : Type 0 where
  assignment : ℕ → ℕ → AdminCall
  status_change : ℕ → ReportStatus → Bool → AdminCall
  note : ℕ → AdminCall
  duplicate : ℕ → ℕ → AdminCall

-- The report that a call is about.
abbrev pub subject : AdminCall → ℕ
subject (AdminCall.assignment report_id admin_id) = report_id
subject (AdminCall.status_change report_id status has_note) = report_id
subject (AdminCall.note report_id) = report_id
subject (AdminCall.duplicate report_id parent) = report_id

unfoldable pub perform : ℕ → AdminCall → Action (Unit {0})
perform supabase_id (AdminCall.assignment report_id admin_id) =
    assign supabase_id report_id admin_id
perform supabase_id (AdminCall.status_change report_id status has_note) =
    update_status supabase_id report_id status has_note
perform supabase_id (AdminCall.note report_id) = add_note supabase_id report_id
perform supabase_id (AdminCall.duplicate report_id parent) =
    mark_duplicate supabase_id report_id parent

-- The call was made by a known user about a report that is there; it has left at least one event of
-- that report by that user, and no other report has changed.
pub record IsRecorded (supabase_id report_id : ℕ) (db db' : Db) : Type 0 where
  pub admin : ℕ × User
  pub known : find_first (λ k u. u.supabase_id == supabase_id) db.users ≡ some admin
  pub row : Report
  pub there : find report_id db.reports ≡ some row
  pub events : Table ReportEvent
  pub added : db'.report_events ≡ events ++ db.report_events
  pub some_event : 1 ≤ length events
  pub signed : All (λ e. (e.1.report_id ≡ report_id) × (e.1.author_id ≡ admin.0)) events
  pub others : (j : ℕ) → j ≢ report_id → find j db'.reports ≡ find j db.reports

-- A call that ends well has found its caller and its report.
perform-known :
    (s : ℕ) (call : AdminCall) (db : Db)
    → (perform s call db).0 ≡ ok tt
    → (admin : ℕ × User) × (report : Report) × (find_first (λ k u. u.supabase_id == s) db.users
        ≡ some admin)
      × (find (subject call) db.reports ≡ some report)
unfolding perform assign update_status add_note mark_duplicate
perform-known s call db h =
    elim (Option-cases (find_first (λ (k : ℕ) (u : User). u.supabase_id == s) db.users)) [
      | inl unknown ↦ absurd (ground (arith, unknown, h))
      | inr (admin, known) ↦ elim (Option-cases (find (subject call) db.reports)) [
        | inl gone ↦ absurd (ground (arith, known, gone, h))
        | inr (report, there) ↦ (admin, report, known, there)
      ]
    ]

others_lem :
    (k : ℕ) (f : Report → Report) (t : Table Report) (j : ℕ)
    → j ≢ k
    → find j (update k f t) ≡ find j t
others_lem k f t j other = ground (arith, other, find-update k j f t)

-- The events that a call leaves.
abbrev new_events : ℕ → AdminCall → Table ReportEvent → Table ReportEvent
new_events admin (AdminCall.assignment report_id admin_id) before =
    (fresh_id before, event report_id ReportEventKind.assignment admin) ∷ []
new_events admin (AdminCall.note report_id) before =
    (fresh_id before, event report_id ReportEventKind.admin_note admin) ∷ []
new_events admin (AdminCall.duplicate report_id parent) before =
    (fresh_id before, event report_id ReportEventKind.status_change admin) ∷ []
new_events admin (AdminCall.status_change report_id status false) before =
    (fresh_id before, event report_id ReportEventKind.status_change admin) ∷ []
new_events admin (AdminCall.status_change report_id status true) before =
    let change : ℕ × ReportEvent =
      (fresh_id before, event report_id ReportEventKind.status_change admin) in
    (fresh_id (change ∷ before), event report_id ReportEventKind.admin_note admin) ∷ change ∷ []

perform-events :
    (s : ℕ) (call : AdminCall) (db : Db) {admin : ℕ × User} {report : Report}
    → (perform s call db).0 ≡ ok tt
    → find_first (λ k u. u.supabase_id == s) db.users ≡ some admin
    → find (subject call) db.reports ≡ some report
    → (perform s call db).1.report_events
      ≡ new_events admin.0 call db.report_events ++ db.report_events
unfolding perform assign update_status status_rows add_note mark_duplicate
perform-events s call db h known there = ground (arith, h, known, there)

perform-reports :
    (s : ℕ) (call : AdminCall) (db : Db) {admin : ℕ × User} {report : Report}
    → (perform s call db).0 ≡ ok tt
    → find_first (λ k u. u.supabase_id == s) db.users ≡ some admin
    → find (subject call) db.reports ≡ some report
    → ((f : Report → Report) × ((perform s call db).1.reports ≡ update (subject call) f db.reports))
      ⊎ ((perform s call db).1.reports ≡ db.reports)
unfolding perform assign update_status status_rows add_note mark_duplicate
perform-reports s (AdminCall.assignment report_id admin_id) db h known there =
    inl (λ r. record r { assigned_to_id = some admin_id }, ground (arith, h, known, there))
perform-reports s (AdminCall.status_change report_id status has_note) db h known there =
    inl (λ r. record r { status = status }, ground (arith, h, known, there))
perform-reports s (AdminCall.note report_id) db h known there =
    inr (ground (arith, h, known, there))
perform-reports s (AdminCall.duplicate report_id parent) db h known there = inl (
  λ r. record r { status = ReportStatus.duplicate; parent_report_id = some parent },
  ground (arith, h, known, there),
)

-- An assignment, a change of the status, a note and a mark as a duplicate that end well have been made
-- by a known user about a report that is there, leave an event of that report by that user, and change
-- no other report.
perform-IsRecorded :
    (supabase_id : ℕ) (call : AdminCall) (db : Db)
    → (perform supabase_id call db).0 ≡ ok tt
    → IsRecorded supabase_id (subject call) db (perform supabase_id call db).1
perform-IsRecorded s call db h =
    let (admin, report, known, there) = perform-known s call db h in
    record {
      admin = admin;
      known = known;
      row = report;
      there = there;
      events = new_events admin.0 call db.report_events;
      added = perform-events s call db h known there;
      some_event = ground arith;
      signed = ground arith;
      others = λ j other. elim (perform-reports s call db h known there) [
        | inl (f, changed) ↦ rw changed (others_lem (subject call) f db.reports j other)
        | inr same ↦ rw same refl
      ];
    }
