-- ===== src/Bookings/Busy/Covers.antt =====
-- The listing of `collectBusyForUserId` against the searches of `assertNoOverlap`.
use mathlib.Core.List.{Memᴰ}
use pee_rahat.Prelude.{
  ℕ, ◌≤◌, ◌≡◌, refl, Bool, true, false, ◌||◌, ltb, any, none, List, [], ◌∷◌, ◌++◌, Table,
  find_where, arith, inl, inr, Bool-cases,
}
use pee_rahat.Store.{TutorUnavailability, Booking, Db}
use pee_rahat.Calendar.{BusySlot, intervals_overlap, expand_weekly_rules}
use pee_rahat.Calendar.Rules.{Occurs, expand_weekly_rules_complete, expand_weekly_rules_sound}
use pee_rahat.Bookings.Overlap.{is_booking_hit, is_found, is_rule_hit, rules_of, end_of}
use pee_rahat.Bookings.Overlap.Soundness.{any-false}
use pee_rahat.Bookings.Busy.{is_queried, busy_of, busy_of_all, own_slot, collect_busy_for_user_id}

module _ {ℓ} {A : Type ℓ} (p : A → Bool) where
  any-append : (xs ys : List A) → any p (xs ++ ys) ≡ (any p xs || any p ys)
  any-append [] ys = refl
  any-append (x ∷ xs) ys = ground (arith, any-append xs ys)

  false-any : (xs : List A) → ((a : A) → Memᴰ a xs → p a ≡ false) → any p xs ≡ false
  false-any [] h = refl
  false-any (x ∷ xs) h =
      let here = h x (Memᴰ.head refl) in
      let rest = false-any xs (λ a m. h a (Memᴰ.tail m)) in ground arith

-- Some interval of the list meets the one from `start` to `end`.
abbrev pub meets_any : ℕ → ℕ → List BusySlot → Bool
meets_any start end busy = any (λ s. intervals_overlap start end s.start s.end) busy

module _ (db : Db) (user from to start end : ℕ) (after : from ≤ start) (before : end ≤ to) where
  busy_of-hit :
      (k : ℕ) (b : Booking)
      → is_booking_hit db user start end none k b ≡ true
      → meets_any start end (busy_of db from to b) ≡ true
  unfolding busy_of is_booking_hit intervals_overlap
  busy_of-hit k b hit =
      let own = own_slot b in
      let later : ltb from (end_of b) ≡ true = ground arith in rw later (ground arith)

  hit-is_queried :
      (k : ℕ) (b : Booking)
      → is_booking_hit db user start end none k b ≡ true
      → is_queried db user to k b ≡ true
  unfolding is_queried is_booking_hit
  hit-is_queried k b hit = ground arith

  no_booking_hit :
      (t : Table Booking)
      → meets_any start end (busy_of_all db from to (find_where (is_queried db user to) t)) ≡ false
      → is_found (find_where (is_booking_hit db user start end none) t) ≡ false
  unfolding busy_of_all
  no_booking_hit [] h = refl
  no_booking_hit ((k, b) ∷ t) h = elim (Bool-cases (is_queried db user to k b)) [
    | inr unlisted ↦ elim (Bool-cases (is_booking_hit db user start end none k b)) [
      | inl hit ↦ let listed = hit-is_queried k b hit in absurd (ground arith)
      | inr miss ↦ rw miss (no_booking_hit t (rw unlisted at h))
    ]
    | inl listed ↦
        let rest = busy_of_all db from to (find_where (is_queried db user to) t) in
        let both : meets_any start end (busy_of db from to b ++ rest) ≡ false = rw listed at h in
        let split =
          any-append (λ (s : BusySlot). intervals_overlap start end s.start s.end)
            (busy_of db from to b) rest in
        elim (Bool-cases (is_booking_hit db user start end none k b)) [
          | inl hit ↦ let meets = busy_of-hit k b hit in absurd (ground arith)
          | inr miss ↦ rw miss (no_booking_hit t (ground arith))
        ]
  ]

  no_rule_hit :
      ((r : TutorUnavailability) → Memᴰ r (rules_of db user) → r.end_minute ≤ 1440)
      → meets_any start end (expand_weekly_rules (rules_of db user) from to) ≡ false
      → is_rule_hit db user start end ≡ false
  unfolding is_rule_hit
  no_rule_hit ends h =
      false-any (λ s. intervals_overlap start end s.start s.end) _
        (λ s m.
          let o = expand_weekly_rules_sound (rules_of db user) start end m in
          let wider : Occurs from to o.day o.rule = record {
            on_weekday = o.occurs.on_weekday;
            starts_before = omega (arith, o.occurs.starts_before);
            ends_after = omega (arith, o.occurs.ends_after);
          } in
          let emitted =
            expand_weekly_rules_complete (rules_of db user) from to o.day o.listed
              (ends o.rule o.listed) wider in
          let begins = o.same_start in
          let ends_at = o.same_end in
          rw (begins, ends_at)
            (any-false (λ s. intervals_overlap start end s.start s.end) _ h emitted))

-- If an interval within the window meets no interval that is listed as busy, then the overlap check
-- over it finds no booking and no weekly rule of the user in the way; the rules are to end within
-- their day.
pub collect_busy_covers :
    (db : Db) (user from to start end : ℕ)
    → from ≤ start
    → end ≤ to
    → ((r : TutorUnavailability) → Memᴰ r (rules_of db user) → r.end_minute ≤ 1440)
    → meets_any start end (collect_busy_for_user_id db user from to) ≡ false
    → (is_found (find_where (is_booking_hit db user start end none) db.bookings) ≡ false)
      × (is_rule_hit db user start end ≡ false)
unfolding collect_busy_for_user_id
collect_busy_covers db user from to start end after before ends h =
    let p : BusySlot → Bool = λ s. intervals_overlap start end s.start s.end in
    let own = busy_of_all db from to (find_where (is_queried db user to) db.bookings) in
    let split = any-append p own (expand_weekly_rules (rules_of db user) from to) in
    (
      no_booking_hit db user from to start end after before db.bookings (ground arith),
      no_rule_hit db user from to start end after before ends (ground arith),
    )
