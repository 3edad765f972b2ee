-- ===== src/Bookings/Overlap/Soundness.antt =====
-- What a passed call of `assertNoOverlap` (apps/api/src/bookings/bookings.service.ts) says of the
-- database.
use mathlib.Core.List.{Memᴰ}
use pee_rahat.Prelude.{
  ℕ, ◌+◌, ◌*◌, ◌%◌, ◌≤◌, ◌<◌, ◌≡◌, ◌≢◌, refl, ◌==◌, Bool, true, false, ◌&&◌, ltb, any, Option, none,
  some, List, [], ◌∷◌, Table, find, find_where, Each, Each-find, ok, arith, inl, inr, ◌⊎◌,
  Bool-cases,
}
use pee_rahat.Store.{
  BookingStatus, PostponeStatus, Booking, PostponeRequest, Db, TutorUnavailability,
}
use pee_rahat.Calendar.{minute_ms, day_ms, BusySlot, intervals_overlap, slot_on}
use pee_rahat.Calendar.Rules.{Occurs, expand_weekly_rules_complete}
use pee_rahat.Bookings.Overlap.{
  is_active, involves, is_not_excluded, is_booking_hit, is_proposal_hit, is_request_hit, request_of,
  proposed_slot, is_slot_hit, is_found, rules_of, is_rule_hit, assert_no_overlap,
}

-- Two half-open intervals have no instant in common.
abbrev pub Disjoint : ℕ → ℕ → ℕ → ℕ → Type 0
Disjoint a_start a_end b_start b_end = (a_end ≤ b_start) ⊎ (b_end ≤ a_start)

-- `intervalsOverlap` holds exactly of two intervals that share an instant, if both are not empty.
pub intervals_overlap_iff :
    (a a' b b' : ℕ)
    → a < a'
    → b < b'
    → (intervals_overlap a a' b b' ≡ false → Disjoint a a' b b')
      × (Disjoint a a' b b' → intervals_overlap a a' b b' ≡ false)
unfolding intervals_overlap
intervals_overlap_iff a a' b b' ha hb = (λ h. ground arith, λ h. ground arith)

module _ {ℓ} {R : Type ℓ} where
  is_found-Each :
      (p : ℕ → R → Bool) (t : Table R)
      → is_found (find_where p t) ≡ false
      → Each (λ k r. p k r ≡ false) t
  is_found-Each p [] h = tt
  is_found-Each p ((k, r) ∷ t) h = elim (Bool-cases (p k r)) [
    | inl hit ↦ ground arith
    | inr miss ↦ (miss, is_found-Each p t (rw miss at h))
  ]

module _ {ℓ} {A : Type ℓ} where
  pub any-false : (p : A → Bool) {a : A} (xs : List A) → any p xs ≡ false → Memᴰ a xs → p a ≡ false
  any-false p [] h m = elim m [ ]
  any-false p (x ∷ xs) h (Memᴰ.head e) = let here : p x ≡ false = ground arith in rw e here
  any-false p (x ∷ xs) h (Memᴰ.tail m) = any-false p xs (ground arith) m

-- The states in which a booking blocks its interval for others.
abbrev pub is_blocking : BookingStatus → Bool
is_blocking BookingStatus.requested = true
is_blocking BookingStatus.accepted = true
is_blocking BookingStatus.paid = true
is_blocking BookingStatus.postpone_pending = true
is_blocking BookingStatus.postponed = true
is_blocking _ = false

is_active_of_is_blocking : (s : BookingStatus) → is_blocking s ≡ true → is_active s ≡ true
is_active_of_is_blocking s h = ground arith

not_excluded : (exclude : Option ℕ) (k : ℕ) → exclude ≢ some k → is_not_excluded exclude k ≡ true
not_excluded none k other = refl
not_excluded (some x) k other = elim (Bool-cases (k == x)) [
  | inl same ↦ absurd (other (ground arith))
  | inr apart ↦ rw apart refl
]

-- The interval from `start` to `end` is free for the user, the excluded booking apart: it meets no
-- interval that another active booking of the user holds, none that an open request to postpone another
-- booking of the user proposes, and none that a weekly rule of the user which ends within its day
-- (minute 1440 at most) blocks.
pub record IsFree (db : Db) (user start end : ℕ) (exclude : Option ℕ) : Type 0 where
  pub bookings_free :
      (k : ℕ) (b : Booking)
      → find k db.bookings ≡ some b
      → involves db user b ≡ true
      → is_blocking b.status ≡ true
      → exclude ≢ some k
      → Disjoint start end b.scheduled_at (b.scheduled_at + b.duration_minutes * minute_ms)
  pub proposals_free :
      (k id at minutes : ℕ) (b : Booking) (r : PostponeRequest)
      → find k db.bookings ≡ some b
      → involves db user b ≡ true
      → exclude ≢ some k
      → b.postpone_request_id ≡ some id
      → find id db.requests ≡ some r
      → r.status ≡ PostponeStatus.negotiating
      → r.proposed_at ≡ some at
      → r.proposed_duration ≡ some minutes
      → Disjoint start end at (at + minutes * minute_ms)
  pub rules_free :
      (r : TutorUnavailability) (day : ℕ)
      → Memᴰ r (rules_of db user)
      → r.end_minute ≤ 1440
      → r.weekday ≡ (day + 4) % 7
      → Disjoint start end
          (day * day_ms + r.start_minute * minute_ms)
          (day * day_ms + r.end_minute * minute_ms)

module _ (db : Db) (user start end : ℕ) (exclude : Option ℕ) where
  booking_free :
      (k : ℕ) (b : Booking)
      → is_booking_hit db user start end exclude k b ≡ false
      → involves db user b ≡ true
      → is_blocking b.status ≡ true
      → exclude ≢ some k
      → Disjoint start end b.scheduled_at (b.scheduled_at + b.duration_minutes * minute_ms)
  unfolding is_booking_hit
  booking_free k b h i a x =
      let other = not_excluded exclude k x in
      let active = is_active_of_is_blocking b.status a in ground arith

  rule_free :
      (r : TutorUnavailability) (day : ℕ)
      → is_rule_hit db user start end ≡ false
      → Memᴰ r (rules_of db user)
      → r.end_minute ≤ 1440
      → r.weekday ≡ (day + 4) % 7
      → Disjoint start end
          (day * day_ms + r.start_minute * minute_ms)
          (day * day_ms + r.end_minute * minute_ms)
  unfolding is_rule_hit intervals_overlap
  rule_free r day h m e w =
      elim (Bool-cases (ltb (slot_on day r).start end && ltb start (slot_on day r).end)) [
        | inr apart ↦ ground arith
        | inl meets ↦
            let o : Occurs start end day r = ground arith in
            let emitted = expand_weekly_rules_complete (rules_of db user) start end day m e o in
            let miss = any-false (λ s. intervals_overlap start end s.start s.end) _ h emitted in
            ground arith
      ]

  proposal_free :
      (k id at minutes : ℕ) (b : Booking) (r : PostponeRequest)
      → is_proposal_hit db user start end exclude k b ≡ false
      → involves db user b ≡ true
      → exclude ≢ some k
      → b.postpone_request_id ≡ some id
      → find id db.requests ≡ some r
      → r.status ≡ PostponeStatus.negotiating
      → r.proposed_at ≡ some at
      → r.proposed_duration ≡ some minutes
      → Disjoint start end at (at + minutes * minute_ms)
  unfolding is_proposal_hit
  proposal_free k id at minutes b r h i x linked there n pa pd =
      let s : BusySlot = record { start = at; end = at + minutes * minute_ms } in
      let e : request_of db b ≡ some r = rw linked there in
      let p : proposed_slot r.proposed_at r.proposed_duration ≡ some s = rw (pa, pd) refl in
      let other = not_excluded exclude k x in
      let h1 : is_request_hit start end (request_of db b) ≡ false = ground arith in
      let h2 : is_request_hit start end (some r) ≡ false = rw e at h1 in
      let h3 : is_slot_hit start end (proposed_slot r.proposed_at r.proposed_duration) ≡ false =
        ground arith in
      let h4 : is_slot_hit start end (some s) ≡ false = rw p at h3 in ground arith

-- If the check passes, the interval meets no active booking of the user but the excluded one, no
-- interval that an open request proposes for a booking of the user but the excluded one, and no interval
-- of a weekly rule of the user that ends within its day (minute 1440 at most).
pub assert_no_overlap-IsFree :
    (db : Db) (user start minutes : ℕ) (exclude : Option ℕ)
    → assert_no_overlap db user start minutes exclude ≡ ok tt
    → IsFree db user start (start + minutes * minute_ms) exclude
unfolding assert_no_overlap
assert_no_overlap-IsFree db user start minutes exclude h =
    let end = start + minutes * minute_ms in
    let h1 : is_found (find_where (is_booking_hit db user start end exclude) db.bookings) ≡ false =
      ground arith in
    let h2 : is_found (find_where (is_proposal_hit db user start end exclude) db.bookings) ≡ false =
      ground arith in
    let h3 : is_rule_hit db user start end ≡ false = ground arith in
    let no_booking = is_found-Each (is_booking_hit db user start end exclude) _ h1 in
    let no_proposal = is_found-Each (is_proposal_hit db user start end exclude) _ h2 in
    record {
      bookings_free = λ k b e i a x.
          booking_free db user start end exclude k b
            (Each-find (λ k r. is_booking_hit db user start end exclude k r ≡ false) k _ no_booking
              e)
            i a x;
      proposals_free = λ k id at minutes b r e.
          proposal_free db user start end exclude k id at minutes b r (
            Each-find (λ k r. is_proposal_hit db user start end exclude k r ≡ false) k _ no_proposal
              e);
      rules_free = λ r day. rule_free db user start end exclude r day h3;
    }
