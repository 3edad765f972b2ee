-- ===== src/Reports/Filing/Tests.antt =====
-- Reports that are filed in the sample database.
use pee_rahat.Prelude.{
  ℕ, ◌+◌, ◌*◌, ◌≡◌, refl, update, true, some, [], ◌∷◌, ok, err, too_many_requests, arith,
}
use pee_rahat.Calendar.{day_ms}
use pee_rahat.Store.{User, Report, ReportTarget, ReportCategory, ReportStatus, Db}
use pee_rahat.Samples.{pair_thread, base_db, monday}
use pee_rahat.Reports.RateLimit.{assert_can_file, count, latest}
use pee_rahat.Reports.Priority.{compute, resolve_priority, sla_deadline_for}
use pee_rahat.Reports.Targets.{TargetResolution, resolve}
use pee_rahat.Reports.Filing.{
  CreateReportDto, ReportConfig, create_checks, create, is_own_content, priority_of,
}
use pee_rahat.Reports.Filing.Guards.{IsAdmitted}
use pee_rahat.Reports.Filing.Limits.{IsLimited, create-IsLimited}
use pee_rahat.Reports.Filing.Again.{create_again}
use pee_rahat.Reports.Filing.Ranked.{IsRanked, create-IsRanked}

abbrev config : ReportConfig
config = record {
  limits = record { max_per_24h = 5; max_per_30d = 20; rereport_cooldown_days = 30 };
  hours = record { low = 72; normal = 48; high = 12; urgent = 4 };
  id_text = λ n. (b'0' + n) ∷ [];
}

-- The tutor's message in the thread of class 10 was caught by the filter.
abbrev chat_db : Db
chat_db = record base_db {
  threads = (80, pair_thread (some 10)) ∷ [];
  messages =
      (
        90,
        record {
          thread_id = 80;
          author_id = 2;
          is_user_kind = true;
          created_at = 0;
          redacted = true;
        },
      )
      ∷ [];
}

-- The evidence is "reports/1/a".
abbrev message_report : CreateReportDto
message_report = record {
  target_type = ReportTarget.chat_message;
  target_id = 90;
  category = ReportCategory.other;
  evidence_keys =
      (b'r' ∷ b'e' ∷ b'p' ∷ b'o' ∷ b'r' ∷ b't' ∷ b's' ∷ b'/' ∷ b'1' ∷ b'/' ∷ b'a' ∷ []) ∷ [];
}

filed : (create config monday 101 message_report chat_db).0 ≡ ok (0, 1779721200000)
unfolding create create_checks assert_can_file count latest resolve is_own_content priority_of
    compute resolve_priority sla_deadline_for
filed = refl

none_filed : (most span : ℕ) → IsLimited most span []
unfolding IsLimited count
none_filed most span = λ reporter from. omega arith

create-IsLimited_example :
    let after = (create config monday 101 message_report chat_db).1.reports in
    IsLimited 5 day_ms after × IsLimited 20 (30 * day_ms) after
create-IsLimited_example =
    create-IsLimited config monday 101 message_report chat_db (none_filed 5 day_ms)
      (none_filed 20 (30 * day_ms))

-- The report has been taken under review.
abbrev reviewed_db : Db
reviewed_db = record chat_db {
  reports =
      update 0 (λ r. record r { status = ReportStatus.under_review })
        (create config monday 101 message_report chat_db).1.reports;
}

create_again_example :
    create config (monday + day_ms) 101 message_report reviewed_db
    ≡ (err too_many_requests, reviewed_db)
create_again_example =
    create_again config monday (monday + day_ms) 101 message_report message_report
      ReportStatus.under_review chat_db reviewed_db tt filed (λ same. cc) refl refl refl refl
      (omega arith) (omega arith)

create-IsRanked_example :
    (reporter : ℕ × User) × (found : TargetResolution) × (row : Report) × IsAdmitted config monday
      101 message_report chat_db reporter found
    × ((create config monday 101 message_report chat_db).1.reports ≡ (0, row) ∷ [])
    × (row.status ≡ ReportStatus.pending)
    × (row.sla_deadline ≡ 1779721200000)
    × IsRanked config.hours monday reporter.1 found.context row
create-IsRanked_example = create-IsRanked config monday 101 message_report chat_db filed
