-- ===== src/Reports/Filing/Limits.antt =====
-- The volume limits over time.
use pee_rahat.Prelude.{
  ℕ, ◌+◌, ◌-◌, ◌*◌, ◌≤◌, ◌<◌, ◌≡◌, refl, Bool, true, ◌&&◌, leb, ◌==◌, [], ◌∷◌, Table, ok, arith,
  inl, inr, Bool-cases, fresh_id,
}
use pee_rahat.Calendar.{day_ms}
use pee_rahat.Store.{Report, ReportTarget, Db}
use pee_rahat.Reports.RateLimit.{ReportLimits, count, filed_since, assert_can_file}
use pee_rahat.Reports.Filing.{CreateReportDto, ReportConfig, new_report, create}
use pee_rahat.Reports.Filing.Guards.{create-cases}

abbrev pub within : ℕ → ℕ → ℕ → Report → Bool
within reporter_id from span r =
    r.reporter_id == reporter_id && leb from r.created_at && leb r.created_at (from + span)

-- Nobody has filed more than `most` reports in any interval of a length, wherever it begins.
unfoldable pub IsLimited : ℕ → ℕ → Table Report → Type 0
IsLimited most span reports =
    (reporter_id from : ℕ) → count (within reporter_id from span) reports ≤ most

count-le :
    (p q : Report → Bool) (t : Table Report)
    → ((r : Report) → p r ≡ true → q r ≡ true)
    → count p t ≤ count q t
unfolding count
count-le p q [] h = omega arith
count-le p q ((k, r) ∷ t) h = let implied = h r in ground (arith, count-le p q t h)

-- A report is added while its reporter has filed fewer in the interval that ends with it.
IsLimited-cons :
    (most span now k : ℕ) (row : Report) (t : Table Report)
    → row.created_at ≡ now
    → count (filed_since row.reporter_id (now - span)) t < most
    → IsLimited most span t
    → IsLimited most span ((k, row) ∷ t)
unfolding IsLimited count
IsLimited-cons most span now k row t at room h reporter_id from =
    elim (Bool-cases (within reporter_id from span row)) [
      | inl hit ↦
          let fewer =
            count-le (within reporter_id from span) (filed_since row.reporter_id (now - span)) t
              (λ r seen. ground (arith, at, hit, seen)) in
          rw hit (ground (arith, fewer, room))
      | inr miss ↦ rw miss (h reporter_id from)
    ]

assert_can_file-lt :
    (limits : ReportLimits) (now reporter_id : ℕ) (type : ReportTarget) (id : ℕ) (db : Db)
    → assert_can_file limits now reporter_id type id db ≡ ok tt
    → (count (filed_since reporter_id (now - day_ms)) db.reports < limits.max_per_24h)
      × (count (filed_since reporter_id (now - 30 * day_ms)) db.reports < limits.max_per_30d)
unfolding assert_can_file
assert_can_file-lt limits now reporter_id type id db h = ground (arith, h)

-- If nobody has ever filed more than the limits in any 24 hours and in any 30 days, nobody has after a
-- call of `create`, whatever its request and its outcome.
pub create-IsLimited :
    (config : ReportConfig) (now supabase_id : ℕ) (dto : CreateReportDto) (db : Db)
    → IsLimited config.limits.max_per_24h day_ms db.reports
    → IsLimited config.limits.max_per_30d (30 * day_ms) db.reports
    → let after = (create config now supabase_id dto db).1.reports in
      IsLimited config.limits.max_per_24h day_ms after
      × IsLimited config.limits.max_per_30d (30 * day_ms) after
create-IsLimited config now supabase_id dto db daily monthly =
    elim (create-cases config now supabase_id dto db) [
      | inr (e, thrown) ↦ rw thrown (daily, monthly)
      | inl (reporter, found, admitted, filed) ↦
          let row = new_report config now reporter dto found in
          let room =
            assert_can_file-lt config.limits now reporter.0 dto.target_type dto.target_id db
              admitted.within_limits in
          let add = λ (most span : ℕ).
            IsLimited-cons most span now (fresh_id db.reports) row db.reports refl in
          rw filed (add _ _ room.0 daily, add _ _ room.1 monthly)
    ]
