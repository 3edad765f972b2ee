-- ===== src/Reports/Administration/Tests.antt =====
-- Calls of administrators on the sample report.
use pee_rahat.Prelude.{◌≡◌, refl, some, find, ok}
use pee_rahat.Samples.{student_row, reported_db, monday}
use pee_rahat.Reports.Administration.Again.{rounds, rounds-count}

rounds-count_example :
    ((rounds monday 7 102 70 3 reported_db).0 ≡ ok tt)
    × (find 1 (rounds monday 7 102 70 3 reported_db).1.users
        ≡ some (record student_row { false_report_count = 3 }))
rounds-count_example = rounds-count monday 7 102 70 3 reported_db refl refl refl
