-- ===== src/Chat.antt =====
-- The threads of the chat: the operations of apps/api/src/chat/chat.service.ts that change something.
-- A body is a number; whether the filter redacts it is an argument. A database column that is unique
-- makes a write of a value that another row has throw.
mod Threads
mod Tests
use pee_rahat.Prelude.{
  ℕ, or_default, Bool, true, false, ◌&&◌, ◌||◌, not, ltb, ◌==◌, if◌then◌else◌, is_some, Option,
  none, some, List, [], ◌∷◌, map, any, Table, find, find_first, find_where, update, fresh_id,
  bad_request, not_found, forbidden, plain, missing_row,
}
use pee_rahat.Store.{
  SessionType, ParticipantStatus, is_group, User, TutorProfile, Booking, BookingParticipant,
  ChatThread, ChatThreadParticipant, ChatMessage, Effect, invalidate, Db, Action, ◌>>=◌, ◌>>◌, pure,
  raise, gets, or_raise, raise_if, modify, emit, dedup, require_user,
}
use pee_rahat.Postpone.Resolve.{is_id}

abbrev with_student : Option ℕ → List ℕ → List ℕ
with_student none ids = ids
with_student (some id) ids = id ∷ ids

abbrev pub members_of : Db → ℕ → Table ChatThreadParticipant
members_of db thread_id = find_where (λ _ p. p.thread_id == thread_id) db.thread_participants

unfoldable pub thread_rows : ℕ → Option ChatThread → Db → Db
thread_rows id none db = db
thread_rows id (some thread) db = elim (find thread.tutor_id db.tutors) [
  | none ↦ db
  | some t ↦
      let users = map (λ (p : ℕ × ChatThreadParticipant). p.1.user_id) (members_of db id) in
      record db {
        effects =
            invalidate (dedup (with_student thread.student_id (t.user_id ∷ users))) ∷ db.effects;
      }
]

unfoldable pub fanout_thread_change : ℕ → Action (Unit {0})
fanout_thread_change id = modify (λ db. thread_rows id (find id db.threads) db)

abbrev is_tutor : Option TutorProfile → ℕ → Bool
is_tutor none user_id = false
is_tutor (some t) user_id = t.user_id == user_id

unfoldable pub is_participant : Db → ℕ → ChatThread → ℕ → Bool
is_participant db id thread user_id =
    any (λ (p : ℕ × ChatThreadParticipant). p.1.user_id == user_id) (members_of db id)
    || is_id thread.student_id user_id
    || is_tutor (find thread.tutor_id db.tutors) user_id

unfoldable pub assert_participant : ℕ → ℕ → Action ((ℕ × User) × ChatThread)
assert_participant supabase_id id = do
  user ← require_user supabase_id
  thread ← or_raise (← gets (λ db. find id db.threads)) not_found
  raise_if (← gets (λ db. not (is_participant db id thread user.0))) forbidden
  pure (user, thread)

abbrev update_thread : ℕ → (ChatThread → ChatThread) → Action (Unit {0})
update_thread id f = modify (λ db. record db { threads = update id f db.threads })

-- The row of a member of a group; an update without one throws.
abbrev read_as_member : ℕ → Option (ℕ × ChatThreadParticipant) → Action (Unit {0})
read_as_member now none = raise missing_row
read_as_member now (some (k, _)) = modify (λ db. record db {
  thread_participants = update k (λ p. record p { last_read_at = some now }) db.thread_participants;
})

abbrev read_as_side : ℕ → Bool → ChatThread → ChatThread
read_as_side now true thread = record thread { student_last_read_at = some now }
read_as_side now false thread = record thread { tutor_last_read_at = some now }

unfoldable pub mark_read : ℕ → ℕ → ℕ → Action (Unit {0})
mark_read now supabase_id id = do
  found ← assert_participant supabase_id id
  member ←
      gets (λ db.
        find_first (λ _ p. p.thread_id == id && p.user_id == found.0.0) db.thread_participants)
  if is_group found.1.session_type
      then read_as_member now member
      else update_thread id (read_as_side now (is_id found.1.student_id found.0.0))

abbrev is_member : Db → ℕ → ℕ → Bool
is_member db id user_id =
    any (λ (p : ℕ × ChatThreadParticipant). p.1.user_id == user_id) (members_of db id)

abbrev new_member : ℕ → ℕ → ChatThreadParticipant
new_member id user_id = record { thread_id = id; user_id = user_id; last_read_at = none }

abbrev join : ℕ → ℕ → Db → Db
join id user_id db = record db {
  thread_participants =
      (fresh_id db.thread_participants, new_member id user_id) ∷ db.thread_participants;
}

-- `createMany` with `skipDuplicates`
unfoldable pub ensure_member : ℕ → ℕ → Action (Unit {0})
ensure_member id user_id = modify (λ db. if is_member db id user_id then db else join id user_id db)

abbrev ensure_one_on_one_participants : ℕ → ℕ → ℕ → Action (Unit {0})
ensure_one_on_one_participants id student tutor = ensure_member id student >> ensure_member id tutor

unfoldable pub join_all : ℕ → List ℕ → Action (Unit {0})
join_all id [] = pure tt
join_all id (u ∷ us) = modify (join id u) >> join_all id us

abbrev is_for : ℕ → Option ℕ → Bool
is_for k none = false
is_for k (some j) = j == k

-- Is the class or the pair taken by a thread?
abbrev pub has_class : Db → ℕ → Bool
has_class db k = any (λ (c : ℕ × ChatThread). is_for k c.1.booking_id) db.threads

abbrev taken_class : Db → Option ℕ → Bool
taken_class db none = false
taken_class db (some k) = has_class db k

abbrev taken_pair : Db → Option ℕ → ℕ → Bool
taken_pair db none tutor_id = false
taken_pair db (some s) tutor_id =
    any (λ (c : ℕ × ChatThread). is_id c.1.student_id s && c.1.tutor_id == tutor_id) db.threads

abbrev pub new_thread : Option ℕ → ℕ → Option ℕ → SessionType → ChatThread
new_thread student_id tutor_id booking_id session_type = record {
  student_id = student_id;
  tutor_id = tutor_id;
  booking_id = booking_id;
  session_type = session_type;
  student_last_read_at = none;
  tutor_last_read_at = none;
  closed_at = none;
}

-- `chatThread.create` with its participants
unfoldable pub create_thread : ChatThread → List ℕ → Action ℕ
create_thread thread users = do
  raise_if (← gets (λ db. taken_class db thread.booking_id)) plain
  raise_if (← gets (λ db. taken_pair db thread.student_id thread.tutor_id)) plain
  id ← gets (λ db. fresh_id db.threads)
  modify (λ db. record db { threads = (id, thread) ∷ db.threads })
  join_all id users
  emit (invalidate users)
  pure id

abbrev find_pair : Db → ℕ → ℕ → Option (ℕ × ChatThread)
find_pair db student tutor_id =
    find_first (λ _ c. is_id c.student_id student && c.tutor_id == tutor_id) db.threads

abbrev open_found : ℕ → ℕ → ℕ → Option (ℕ × ChatThread) → Action ℕ
open_found student tutor_id tutor_user none =
    create_thread (new_thread (some student) tutor_id none SessionType.one_on_one)
      (student ∷ tutor_user ∷ [])
open_found student tutor_id tutor_user (some (id, thread)) =
    ensure_one_on_one_participants id student tutor_user >> pure id

unfoldable pub open_with_tutor : ℕ → ℕ → Action ℕ
open_with_tutor supabase_id tutor_id = do
  user ← require_user supabase_id
  t ← or_raise (← gets (λ db. find tutor_id db.tutors)) not_found
  raise_if (t.user_id == user.0) forbidden
  existing ← gets (λ db. find_pair db user.0 tutor_id)
  open_found user.0 tutor_id t.user_id existing

abbrev add_message : ChatMessage → Action (Unit {0})
add_message m = modify (λ db. record db { messages = (fresh_id db.messages, m) ∷ db.messages })

unfoldable pub send : (ℕ → Bool) → ℕ → ℕ → ℕ → ℕ → Action (Unit {0})
send redacts now supabase_id id body = do
  found ← assert_participant supabase_id id
  raise_if (is_some found.1.closed_at) forbidden
  add_message (record {
    thread_id = id;
    author_id = found.0.0;
    is_user_kind = true;
    created_at = now;
    redacted = redacts body;
  })
  fanout_thread_change id

-- Open again, and for the class unless it is for one.
abbrev reopened : ℕ → ChatThread → ChatThread
reopened k thread = record thread {
  closed_at = none;
  booking_id = some (or_default thread.booking_id k);
}

abbrev must_reopen : ℕ → ChatThread → Bool
must_reopen k thread = is_some thread.closed_at || not (is_for k thread.booking_id)

abbrev reopen : ℕ → ℕ → ChatThread → Action (Unit {0})
reopen k id thread = do
  raise_if (← gets (λ db. not (is_some thread.booking_id) && has_class db k)) plain
  update_thread id (reopened k)

abbrev ensure_found : ℕ → Booking → TutorProfile → Option (ℕ × ChatThread) → Action ℕ
ensure_found k b t none =
    create_thread (new_thread (some b.student_id) b.tutor_id (some k) SessionType.one_on_one)
      (b.student_id ∷ t.user_id ∷ [])
ensure_found k b t (some (id, thread)) =
    (if must_reopen k thread then reopen k id thread else pure tt)
    >> ensure_one_on_one_participants id b.student_id t.user_id
    >> pure id

unfoldable pub ensure_thread_for_booking : ℕ → Action ℕ
ensure_thread_for_booking k = do
  b ← or_raise (← gets (λ db. find k db.bookings)) missing_row
  t ← or_raise (← gets (λ db. find b.tutor_id db.tutors)) missing_row
  existing ← gets (λ db. find_pair db b.student_id b.tutor_id)
  ensure_found k b t existing

unfoldable pub post_system_message : ℕ → ℕ → ℕ → Action (Unit {0})
post_system_message now id actor = do
  add_message (record {
    thread_id = id;
    author_id = actor;
    is_user_kind = false;
    created_at = now;
    redacted = false;
  })
  fanout_thread_change id

unfoldable pub close_thread : ℕ → ℕ → Action (Unit {0})
close_thread now id = do
  or_raise (← gets (λ db. find id db.threads)) missing_row
  update_thread id (λ thread. record thread { closed_at = some now })
  fanout_thread_change id

abbrev has_seat : ParticipantStatus → Bool
has_seat ParticipantStatus.paid = true
has_seat ParticipantStatus.accepted = true
has_seat _ = false

unfoldable pub group_members : Db → ℕ → TutorProfile → List ℕ
group_members db k t = dedup (
    t.user_id
    ∷ map (λ (p : ℕ × BookingParticipant). p.1.student_id)
        (find_where (λ _ p. p.booking_id == k && has_seat p.status) db.participants))

abbrev create_if_none : ℕ → Option (ℕ × ChatThread) → Action ℕ
create_if_none k (some (id, _)) = pure id
create_if_none k none = do
  b ← or_raise (← gets (λ db. find k db.bookings)) not_found
  t ← or_raise (← gets (λ db. find b.tutor_id db.tutors)) missing_row
  raise_if (not (is_group b.session_type)) bad_request
  users ← gets (λ db. group_members db k t)
  create_thread (new_thread none b.tutor_id (some k) SessionType.group) users

unfoldable pub create_group_thread : ℕ → Action ℕ
create_group_thread k = do
  existing ← gets (λ db. find_first (λ _ c. is_for k c.booking_id) db.threads)
  create_if_none k existing
