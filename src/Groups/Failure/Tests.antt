-- ===== src/Groups/Failure/Tests.antt =====
-- Runs of `failGroup`.
use pee_rahat.Store.{GroupStatus, ParticipantStatus, Db}
use pee_rahat.Samples.{group_db}

abbrev reviewed_db : Db
reviewed_db = group_db GroupStatus.tutor_review ParticipantStatus.accepted
