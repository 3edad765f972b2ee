-- ===== src/Reports/Cron/Overdue.antt =====
-- Reports past their deadline.
use pee_rahat.Prelude.{
  ℕ, ◌+◌, ◌*◌, ◌≤◌, ◌<◌, ◌≡◌, ◌↔◌, refl, ap, ◌∙◌, Bool, true, false, ◌&&◌, ◌||◌, not, ltb, leb,
  ◌==◌, if◌then◌else◌, is_some, Option, none, some, [], ◌∷◌, Table, find, find_where, update,
  find-update, HasUniqueIds, ok, arith, inl, inr, Bool-cases, Option-cases,
}
use pee_rahat.Calendar.{minute_ms}
use pee_rahat.Store.{
  NotificationType, notify, User, Report, ReportStatus, ReportPriority, Db, Action, ◌>>◌, pure,
}
use pee_rahat.Store.Effects.{then_ok}
use pee_rahat.Reports.Cron.{
  is_waiting, is_just_overdue, sla_window_ms, is_urgent, notify_each, escalate, escalate_each,
  sla_check,
}

-- Runs half an hour apart: a report that waits is found by both exactly if the earlier one comes at
-- most five minutes after its deadline.
is_just_overdue_twice :
    (now : ℕ) (r : Report)
    → sla_window_ms ≤ now
    → ((is_just_overdue now r && is_just_overdue (now + 30 * minute_ms) r) ≡ true) ↔ (
        (is_waiting r.status ≡ true)
        × (r.sla_deadline < now)
        × (now ≤ r.sla_deadline + 5 * minute_ms))
unfolding is_just_overdue
is_just_overdue_twice now r late = ground (arith, late)

notify_each-lem :
    (admins : Table User) (db : Db)
    → ((notify_each admins db).0 ≡ ok tt) × ((notify_each admins db).1.reports ≡ db.reports)
notify_each-lem [] db = (refl, refl)
notify_each-lem ((id, u) ∷ rest) db =
    notify_each-lem rest
      (record db { effects = notify id NotificationType.report_sla_overdue ∷ db.effects })

abbrev to_urgent : Report → Report
to_urgent r = record r { priority = ReportPriority.urgent }

abbrev needs : Report → Bool
needs r = not (is_some r.assigned_to_id) && not (is_urgent r.priority)

escalate-lem :
    (admins : Table User) (id : ℕ) (r : Report) (db : Db)
    → ((escalate admins id r r.assigned_to_id db).0 ≡ ok tt)
      × ((escalate admins id r r.assigned_to_id db).1.reports
          ≡ (if needs r then update id to_urgent db.reports else db.reports))
escalate-lem admins id r db =
    let updated = record db { reports = update id to_urgent db.reports } in
    ground (arith, notify_each-lem admins db, notify_each-lem admins updated)

-- Is the report one of those that become urgent?
abbrev hits : ℕ → Table Report → Bool
hits j [] = false
hits j ((id, r) ∷ rest) = j == id && needs r || hits j rest

abbrev urgent_if : Bool → Option Report → Option Report
urgent_if c none = none
urgent_if c (some r) = some (if c then to_urgent r else r)

urgent_if-update :
    (j id : ℕ) (r : Report) (rest t : Table Report)
    → urgent_if (hits j rest) (find j (if needs r then update id to_urgent t else t))
      ≡ urgent_if (hits j ((id, r) ∷ rest)) (find j t)
urgent_if-update j id r rest t = elim (Option-cases (find j t)) [
  | inl gone ↦ ground (arith, gone, find-update id j to_urgent t)
  | inr (s, there) ↦ ground (arith, there, find-update id j to_urgent t)
]

escalate_each-lem :
    (admins : Table User) (j : ℕ) (xs : Table Report) (db : Db)
    → ((escalate_each admins xs db).0 ≡ ok tt)
      × (find j (escalate_each admins xs db).1.reports ≡ urgent_if (hits j xs) (find j db.reports))
unfolding escalate_each
escalate_each-lem admins j [] db = (refl, ground arith)
escalate_each-lem admins j ((id, r) ∷ rest) db =
    let (done, reports) = escalate-lem admins id r db in
    let db1 = (escalate admins id r r.assigned_to_id db).1 in
    let more = escalate_each-lem admins j rest db1 in
    rw (then_ok (escalate admins id r r.assigned_to_id) (escalate_each admins rest) db done) (
      more.0,
      more.1
          ∙ ap (λ (t : Table Report). urgent_if (hits j rest) (find j t)) reports
          ∙ urgent_if-update j id r rest db.reports,
    )

hits-gone :
    (p : ℕ → Report → Bool) (j : ℕ) (t : Table Report)
    → find j t ≡ none
    → hits j (find_where p t) ≡ false
hits-gone p j [] h = refl
hits-gone p j ((k, s) ∷ t) h = ground (arith, h, hits-gone p j t)

hits-lem :
    (p : ℕ → Report → Bool) (j : ℕ) {r : Report} (t : Table Report)
    → HasUniqueIds t
    → find j t ≡ some r
    → hits j (find_where p t) ≡ (p j r && needs r)
hits-lem p j [] unique h = cc
hits-lem p j {r} ((k, s) ∷ t) unique h = elim (Bool-cases (j == k)) [
  | inl same ↦
      let at : j ≡ k = ground arith in
      let it : s ≡ r = ground (arith, h, same) in
      let gone : hits k (find_where p t) ≡ false = hits-gone p k t unique.0 in
      rw (← it, at) (ground (arith, gone))
  | inr other ↦
      let rest : hits j (find_where p t) ≡ (p j r && needs r) =
        hits-lem p j t unique.1 (rw other at h) in
      ground (arith, other, rest)
]

then_pure :
    {A : Type 0} (m : Action (Unit {0})) (a : A) (db : Db)
    → (m db).0 ≡ ok tt
    → ((m >> pure a) db).1 ≡ (m db).1
then_pure m a db h = ap (λ x. x.1) (then_ok m (pure a) db h)

is_urgent-lem : (p : ReportPriority) → is_urgent p ≡ true → ReportPriority.urgent ≡ p
is_urgent-lem p h = ground (arith, h)

urgent_if-needs :
    (c : Bool) (r : Report)
    → urgent_if (c && needs r) (some r)
      ≡ some (
          if c && not (is_some r.assigned_to_id)
          then record r { priority = ReportPriority.urgent }
          else r)
urgent_if-needs c r = elim (Bool-cases (is_urgent r.priority)) [
  | inr other ↦ ground (arith, other)
  | inl already ↦
      let same : to_urgent r ≡ r =
        ap (λ (p : ReportPriority). record r { priority = p }) (is_urgent-lem r.priority already) in
      ground (arith, already, same)
]

-- The states of a report that still waits for a decision: nobody has taken it, or one reviews it.
abbrev pub is_undecided : ReportStatus → Bool
is_undecided ReportStatus.pending = true
is_undecided ReportStatus.under_review = true
is_undecided ReportStatus.escalated = false
is_undecided ReportStatus.resolved = false
is_undecided ReportStatus.rejected = false
is_undecided ReportStatus.duplicate = false

is_just_overdue-lem :
    (now : ℕ) (r : Report)
    → is_just_overdue now r
      ≡ (is_undecided r.status && ltb r.sla_deadline now && leb now (r.sla_deadline + 35 * 60000))
unfolding is_just_overdue
is_just_overdue-lem now r = ground arith

-- In a database whose reports have ids of their own, after the job each report is urgent if it is
-- pending or under review, its deadline is earlier than now, by 35 minutes at most, and it has no
-- assignee; every other report is as before.
pub sla_check-urgent :
    (now j : ℕ) (db : Db) {r : Report}
    → HasUniqueIds db.reports
    → find j db.reports ≡ some r
    → find j (sla_check now db).1.reports
      ≡ some (
          if (is_undecided r.status
              && ltb r.sla_deadline now
              && leb now (r.sla_deadline + 35 * 60000))
            && not (is_some r.assigned_to_id)
          then record r { priority = ReportPriority.urgent }
          else r)
unfolding sla_check
sla_check-urgent now j db {r} unique there =
    let p = λ (k : ℕ) (s : Report). is_just_overdue now s in
    let overdue = find_where p db.reports in
    let admins = find_where (λ (k : ℕ) (u : User). u.is_admin) db.users in
    let (done, reports) = escalate_each-lem admins j overdue db in
    ap (λ (after : Db). find j after.reports) (then_pure (escalate_each admins overdue) _ db done)
    ∙ reports
    ∙ rw (hits-lem p j db.reports unique there, there, is_just_overdue-lem now r)
        (urgent_if-needs _ r)
