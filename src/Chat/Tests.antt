-- ===== src/Chat/Tests.antt =====
-- Threads in the sample database.
use pee_rahat.Prelude.{◌≡◌, refl, ok, err, plain, inl}
use pee_rahat.Store.{GroupStatus, ParticipantStatus, Db}
use pee_rahat.Samples.{group_db}
use pee_rahat.Chat.{
  create_group_thread, create_thread, join_all, group_members, ensure_thread_for_booking,
}
use pee_rahat.Chat.Threads.{create_group_thread-ensure}

abbrev confirmed_db : Db
confirmed_db = group_db GroupStatus.confirmed ParticipantStatus.accepted

thread_made : (create_group_thread 10 confirmed_db).0 ≡ ok 0
unfolding create_group_thread create_thread join_all group_members
thread_made = refl

create_group_thread-ensure_example :
    ensure_thread_for_booking 10 (create_group_thread 10 confirmed_db).1
    ≡ (err plain, (create_group_thread 10 confirmed_db).1)
create_group_thread-ensure_example =
    create_group_thread-ensure 10 0 confirmed_db refl thread_made refl refl (inl refl)
