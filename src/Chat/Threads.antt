-- ===== src/Chat/Threads.antt =====
-- Threads of groups and of pairs, and closed threads.
use pee_rahat.Prelude.{
  ℕ, ◌≡◌, refl, Bool, true, none, some, List, [], ◌∷◌, find, find_first, find-update, fresh_id, ok,
  err, Error, plain, forbidden, arith, inl, inr, ◌⊎◌, Option-cases, Result-cases,
}
use pee_rahat.Store.{SessionType, User, TutorProfile, Booking, ChatThread, Db}
use pee_rahat.Chat.{
  thread_rows, fanout_thread_change, assert_participant, join, join_all, is_for, has_class,
  new_thread, create_thread, find_pair, send, ensure_thread_for_booking, close_thread,
  create_group_thread, group_members,
}

-- The tables that joining a thread leaves alone.
abbrev SameBut : Db → Db → Type 0
SameBut db db' =
    (db'.threads ≡ db.threads) × (db'.bookings ≡ db.bookings) × (db'.tutors ≡ db.tutors)

join_all-lem :
    (id : ℕ) (us : List ℕ) (db : Db)
    → ((join_all id us db).0 ≡ ok tt) × SameBut db (join_all id us db).1
unfolding join_all
join_all-lem id [] db = (refl, (refl, refl, refl))
join_all-lem id (u ∷ us) db = join_all-lem id us (join id u db)

-- A class with a thread cannot be given to the thread of its pair.
ensure_thread_for_booking-taken :
    (k : ℕ) (db : Db) {b : Booking} {t : TutorProfile}
    → find k db.bookings ≡ some b
    → find b.tutor_id db.tutors ≡ some t
    → has_class db k ≡ true
    → (find_pair db b.student_id b.tutor_id ≡ none)
      ⊎ ((found : ℕ × ChatThread) × (find_pair db b.student_id b.tutor_id ≡ some found)
          × (found.1.booking_id ≡ none))
    → ensure_thread_for_booking k db ≡ (err plain, db)
unfolding ensure_thread_for_booking create_thread
ensure_thread_for_booking-taken k db there tutor taken (inl nothing) =
    ground (arith, there, tutor, taken, nothing)
ensure_thread_for_booking-taken k db there tutor taken (inr (found, pair, unbound)) =
    ground (arith, there, tutor, taken, pair, unbound)

create_thread-lem :
    (thread : ChatThread) (us : List ℕ) (db : Db) {id : ℕ}
    → (create_thread thread us db).0 ≡ ok id
    → let after = (create_thread thread us db).1 in
      (after.threads ≡ (id, thread) ∷ db.threads)
      × (after.bookings ≡ db.bookings)
      × (after.tutors ≡ db.tutors)
unfolding create_thread
create_thread-lem thread us db success =
    let id = fresh_id db.threads in
    let with_thread = record db { threads = (id, thread) ∷ db.threads } in
    let (joined, (threads, bookings, tutors)) = join_all-lem id us with_thread in
    ground (arith, success, joined, threads, bookings, tutors)

create_group_thread-lem :
    (k : ℕ) (db : Db) {id : ℕ}
    → find_first (λ _ c. is_for k c.booking_id) db.threads ≡ none
    → (create_group_thread k db).0 ≡ ok id
    → let after = (create_group_thread k db).1 in
      (b : Booking) × (after.threads
        ≡ (id, new_thread none b.tutor_id (some k) SessionType.group) ∷ db.threads)
      × (after.bookings ≡ db.bookings)
      × (after.tutors ≡ db.tutors)
unfolding create_group_thread
create_group_thread-lem k db {id} free success = elim (Option-cases (find k db.bookings)) [
  | inl gone ↦ absurd (ground (arith, free, gone, success))
  | inr (b, there) ↦ elim (Option-cases (find b.tutor_id db.tutors)) [
    | inl gone ↦ absurd (ground (arith, free, there, gone, success))
    | inr (t, tutor) ↦
        let thread = new_thread none b.tutor_id (some k) SessionType.group in
        let made : (create_thread thread (group_members db k t) db).0 ≡ ok id =
          ground (arith, free, there, tutor, success) in
        let (threads, bookings, tutors) = create_thread-lem thread (group_members db k t) db made in
        let made_so : (create_group_thread k db).1
            ≡ (create_thread thread (group_members db k t) db).1 =
          ground (arith, free, there, tutor) in
        (b, rw made_so threads, rw made_so bookings, rw made_so tutors)
  ]
]

module _ (supabase_id id : ℕ) (db : Db) where
  assert_participant-reads : (assert_participant supabase_id id db).1 ≡ db
  unfolding assert_participant
  assert_participant-reads = ground arith

  assert_participant-thread :
      {found : (ℕ × User) × ChatThread}
      → (assert_participant supabase_id id db).0 ≡ ok found
      → find id db.threads ≡ some found.1
  unfolding assert_participant
  assert_participant-thread {found} success = elim (Option-cases (find id db.threads)) [
    | inl gone ↦ absurd (ground (arith, gone, success))
    | inr (thread, there) ↦ ground (arith, there, success)
  ]

close_thread-closed :
    (now id : ℕ) (db : Db)
    → (close_thread now id db).0 ≡ ok tt
    → (thread : ChatThread) × (find id (close_thread now id db).1.threads
        ≡ some (record thread { closed_at = some now }))
unfolding close_thread fanout_thread_change thread_rows
close_thread-closed now id db closed = elim (Option-cases (find id db.threads)) [
  | inl gone ↦ absurd (ground (arith, gone, closed))
  | inr (thread, there) ↦
      let update_at =
        find-update id id (λ (c : ChatThread). record c { closed_at = some now }) db.threads in
      (thread, ground (arith, there, update_at))
]

-- Once a thread has been closed, whoever sends a message to it is refused, and nothing is written.
close_thread-send :
    (redacts : ℕ → Bool) (now later supabase_id id body : ℕ) (db : Db)
    → (close_thread now id db).0 ≡ ok tt
    → let after = (close_thread now id db).1 in
      (e : Error) × (send redacts later supabase_id id body after ≡ (err e, after))
unfolding send
close_thread-send redacts now later supabase_id id body db closed =
    let after = (close_thread now id db).1 in
    let (thread, shut) = close_thread-closed now id db closed in
    let same : (assert_participant supabase_id id after).1 ≡ after =
      assert_participant-reads supabase_id id after in
    elim (Result-cases (assert_participant supabase_id id after).0) [
      | inr (e, thrown) ↦ (e, ground (arith, same, thrown))
      | inl (found, known) ↦
          let there : find id after.threads ≡ some found.1 =
            assert_participant-thread supabase_id id after known in
          (forbidden, ground (arith, same, known, there, shut))
    ]

-- If a group's thread was made, and its host has no thread with the tutor or one that is for no class,
-- the class gets no thread for that pair: the call throws, and writes nothing.
pub create_group_thread-ensure :
    (k id : ℕ) (db : Db) {b : Booking} {t : TutorProfile}
    → find_first (λ _ c. is_for k c.booking_id) db.threads ≡ none
    → (create_group_thread k db).0 ≡ ok id
    → find k db.bookings ≡ some b
    → find b.tutor_id db.tutors ≡ some t
    → (find_pair db b.student_id b.tutor_id ≡ none)
      ⊎ ((found : ℕ × ChatThread) × (find_pair db b.student_id b.tutor_id ≡ some found)
          × (found.1.booking_id ≡ none))
    → let after = (create_group_thread k db).1 in
      ensure_thread_for_booking k after ≡ (err plain, after)
create_group_thread-ensure k id db {b} {t} free success there tutor pair =
    let (g, threads, bookings, tutors) = create_group_thread-lem k db free success in
    let after = (create_group_thread k db).1 in
    let taken : has_class after k ≡ true = rw threads (ground arith) in
    let unchanged : find_pair after b.student_id b.tutor_id ≡ find_pair db b.student_id b.tutor_id =
      rw threads refl in
    ensure_thread_for_booking-taken k after {b = b} {t = t} (rw bookings there) (rw tutors tutor)
      taken (rw unchanged pair)
