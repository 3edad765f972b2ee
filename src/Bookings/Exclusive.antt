-- ===== src/Bookings/Exclusive.antt =====
-- The invariant that the overlap checks of apps/api/src/bookings/bookings.service.ts serve: no user
-- holds two live classes at one time.
use pee_rahat.Prelude.{
  ℕ, ◌≡◌, ◌≢◌, refl, sym, subst, Bool, true, false, some, ◌∷◌, find, ◌⊎◌, inl, inr, arith, update,
  find-cons, find-update_cases, ◌∙◌,
}
use pee_rahat.Store.{BookingStatus, Booking, TutorProfile, Db}
use pee_rahat.Bookings.Overlap.{involves, end_of}
use pee_rahat.Bookings.Overlap.Soundness.{Disjoint, is_blocking}

-- The class is still to be held: the active statuses without `postponed`, whose class has moved.
abbrev pub is_live : BookingStatus → Bool
is_live BookingStatus.requested = true
is_live BookingStatus.accepted = true
is_live BookingStatus.paid = true
is_live BookingStatus.postpone_pending = true
is_live _ = false

pub is_blocking_of_is_live : (s : BookingStatus) → is_live s ≡ true → is_blocking s ≡ true
is_blocking_of_is_live BookingStatus.requested h = refl
is_blocking_of_is_live s h = ground arith

-- Two bookings hold disjoint intervals.
abbrev pub Apart : Booking → Booking → Type 0
Apart b c = Disjoint b.scheduled_at (end_of b) c.scheduled_at (end_of c)

pub Apart-symm : (b c : Booking) → Apart b c → Apart c b
Apart-symm b c (inl h) = inr h
Apart-symm b c (inr h) = inl h

-- No user is the student or the tutor of two live bookings whose intervals meet.
pub record NoDoubleBooking (db : Db) : Type 0 where
  pub apart :
      (u i j : ℕ) (b c : Booking)
      → i ≢ j
      → find i db.bookings ≡ some b
      → find j db.bookings ≡ some c
      → is_live b.status ≡ true
      → is_live c.status ≡ true
      → involves db u b ≡ true
      → involves db u c ≡ true
      → Apart b c

-- The new row holds an interval that is free of every other live booking of its two users.
abbrev pub FitsIn : Db → ℕ → Booking → Type 0
FitsIn db k row =
    (u j : ℕ) (c : Booking)
    → k ≢ j
    → find j db.bookings ≡ some c
    → is_live c.status ≡ true
    → involves db u row ≡ true
    → involves db u c ≡ true
    → Apart row c

-- What a change of a booking that is no new reservation keeps.
pub record Keeps (b b' : Booking) : Type 0 where
  pub same_student : b'.student_id ≡ b.student_id
  pub same_tutor : b'.tutor_id ≡ b.tutor_id
  pub same_start : b'.scheduled_at ≡ b.scheduled_at
  pub same_minutes : b'.duration_minutes ≡ b.duration_minutes
  pub live : is_live b'.status ≡ true → is_live b.status ≡ true

Keeps-refl : (b : Booking) → Keeps b b
Keeps-refl b = record {
  same_student = refl;
  same_tutor = refl;
  same_start = refl;
  same_minutes = refl;
  live = λ h. h;
}

kept :
    (k i : ℕ) (f : Booking → Booking) (a b : Booking)
    → ((b : Booking) → Keeps b (f b))
    → (i ≡ k) × (f a ≡ b) ⊎ (i ≢ k) × (a ≡ b)
    → Keeps a b
kept k i f a b keeps (inl (here, e)) = subst (Keeps a) e (keeps a)
kept k i f a b keeps (inr (other, e)) = subst (Keeps a) e (Keeps-refl a)

Apart-Keeps : (b b' c c' : Booking) → Keeps b b' → Keeps c c' → Apart b c → Apart b' c'
Apart-Keeps b b' c c' kb kc h = omega arith

involves_of_kept :
    (db : Db) (u : ℕ) (b b' : Booking)
    → Keeps b b'
    → involves db u b' ≡ true
    → involves db u b ≡ true
involves_of_kept db u b b' kb h = rw (← kb.same_student, ← kb.same_tutor) h

module _ (db db' : Db) (same_tutors : db'.tutors ≡ db.tutors) where
  involves_same : (u : ℕ) (b : Booking) → involves db' u b ≡ involves db u b
  involves_same u b = rw same_tutors refl

  pub NoDoubleBooking-same : db'.bookings ≡ db.bookings → NoDoubleBooking db → NoDoubleBooking db'
  NoDoubleBooking-same e h = record {
    apart = λ u i j b c ne fb fc lb lc ib ic.
        h.apart u i j b c ne (rw e at fb) (rw e at fc) lb lc (rw (involves_same u b) at ib)
          (rw (involves_same u c) at ic);
  }

  -- A row that fits in may be added.
  pub NoDoubleBooking-insert :
      (k : ℕ) (row : Booking)
      → db'.bookings ≡ (k, row) ∷ db.bookings
      → FitsIn db k row
      → NoDoubleBooking db
      → NoDoubleBooking db'
  NoDoubleBooking-insert k row e fits h = record {
    apart = λ u i j b c ne fb fc lb lc ib ic.
        split u i j b c ne (rw e at fb) (rw e at fc) lb lc (rw (involves_same u b) at ib)
          (rw (involves_same u c) at ic);
  }
    where
      split :
          (u i j : ℕ) (b c : Booking)
          → i ≢ j
          → find i ((k, row) ∷ db.bookings) ≡ some b
          → find j ((k, row) ∷ db.bookings) ≡ some c
          → is_live b.status ≡ true
          → is_live c.status ≡ true
          → involves db u b ≡ true
          → involves db u c ≡ true
          → Apart b c
      split u i j b c ne fb fc lb lc ib ic = elim (find-cons k i row db.bookings fb) [
        | inl (here, new_b) ↦ elim (find-cons k j row db.bookings fc) [
          | inl (there, new_c) ↦ absurd (ne (sym here ∙ there))
          | inr (ne', old_c) ↦
              subst (λ x. Apart x c) new_b
                (fits u j c ne' old_c lc (subst (λ x. involves db u x ≡ true) (sym new_b) ib) ic)
        ]
        | inr (ne', old_b) ↦ elim (find-cons k j row db.bookings fc) [
          | inl (there, new_c) ↦
              subst (λ x. Apart b x) new_c
                (Apart-symm row b
                  (fits u i b ne' old_b lb (subst (λ x. involves db u x ≡ true) (sym new_c) ic) ib))
          | inr (ne'', old_c) ↦ h.apart u i j b c ne old_b old_c lb lc ib ic
        ]
      ]

  -- A row may be changed if it keeps its users and its interval and does not come to life.
  pub NoDoubleBooking-update :
      (k : ℕ) (f : Booking → Booking)
      → db'.bookings ≡ update k f db.bookings
      → ((b : Booking) → Keeps b (f b))
      → NoDoubleBooking db
      → NoDoubleBooking db'
  NoDoubleBooking-update k f e keeps h = record {
    apart = λ u i j b c ne fb fc lb lc ib ic.
        let (b0, found_b, is_b) = find-update_cases k i f db.bookings (rw e at fb) in
        let (c0, found_c, is_c) = find-update_cases k j f db.bookings (rw e at fc) in
        let kb = kept k i f b0 b keeps is_b in
        let kc = kept k j f c0 c keeps is_c in
        Apart-Keeps b0 b c0 c kb kc (
          h.apart u i j b0 c0 ne found_b found_c (kb.live lb) (kc.live lc)
            (involves_of_kept db u b0 b kb (rw (involves_same u b) at ib))
            (involves_of_kept db u c0 c kc (rw (involves_same u c) at ic)));
  }

-- The users of a booking are its student and the user of its tutor.
pub users_of_booking :
    (db : Db) (u : ℕ) (b : Booking) {t : TutorProfile}
    → find b.tutor_id db.tutors ≡ some t
    → involves db u b ≡ true
    → (b.student_id ≡ u) ⊎ (t.user_id ≡ u)
users_of_booking db u b e h = ground arith
