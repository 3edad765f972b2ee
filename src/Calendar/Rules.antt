-- ===== src/Calendar/Rules.antt =====
-- The intervals that `expandWeeklyRules` of apps/api/src/bookings/bookings.service.ts emits.
use mathlib.Core.List.{Memᴰ}
use mathlib.Core.List.Memᴰ
use pee_rahat.Prelude.{
  ℕ, zero, suc, ◌+◌, ◌*◌, ◌/◌, ◌%◌, ◌≤◌, ◌<◌, ◌≡◌, refl, sym, ap, subst, true, ◌&&◌, ltb, ◌==◌,
  List, [], ◌∷◌, arith, inl, inr, Bool-cases,
}
use pee_rahat.Store.{TutorUnavailability}
use pee_rahat.Calendar.{
  BusySlot, minute_ms, day_ms, weekday_of, slot_on, meets_window, day_slots, expand_days,
  expand_weekly_rules,
}

-- A rule applies on a day, counted from 1970-01-01, a Thursday; its interval there, which lies between
-- its two minutes of that day, meets the window.
pub record Occurs (from to day : ℕ) (r : TutorUnavailability) : Type 0 where
  pub on_weekday : r.weekday ≡ (day + 4) % 7
  pub starts_before : day * day_ms + r.start_minute * minute_ms < to
  pub ends_after : from < day * day_ms + r.end_minute * minute_ms

mem-day_slots :
    (rules : List TutorUnavailability) {r : TutorUnavailability} (day from to : ℕ)
    → Memᴰ r rules
    → Occurs from to day r
    → Memᴰ (slot_on day r) (day_slots rules day from to)
unfolding day_slots
mem-day_slots [] day from to m o = elim m [ ]
mem-day_slots (x ∷ rs) {r} day from to (Memᴰ.head e) o =
    let test : (x.weekday == weekday_of day && meets_window from to (slot_on day x)) ≡ true =
      subst (λ y. (y.weekday == weekday_of day && meets_window from to (slot_on day y)) ≡ true) e
        (ground arith) in
    rw test (Memᴰ.head (λ i. slot_on day (e i)))
mem-day_slots (x ∷ rs) {r} day from to (Memᴰ.tail m) o =
    elim (Bool-cases (x.weekday == weekday_of day && meets_window from to (slot_on day x))) [
      | inl h ↦ rw h (Memᴰ.tail (mem-day_slots rs day from to m o))
      | inr h ↦ rw h (mem-day_slots rs day from to m o)
    ]

mem-expand_days :
    (left : ℕ) (rules : List TutorUnavailability) {s : BusySlot} (first day from to : ℕ)
    → first ≤ day
    → day < first + left
    → day * day_ms < to
    → Memᴰ s (day_slots rules day from to)
    → Memᴰ s (expand_days left rules first from to)
unfolding expand_days
mem-expand_days zero rules first day from to h k lt m = absurd (omega arith)
mem-expand_days (suc left) rules {s} first day from to h k lt m =
    let test : ltb (first * day_ms) to ≡ true = ground arith in
    rw test (elim (Bool-cases (first == day)) [
      | inl same ↦
          let e : first ≡ day = ground arith in
          Memᴰ.append_left _ (subst (λ d. Memᴰ s (day_slots rules d from to)) (sym e) m)
      | inr other ↦
          Memᴰ.append_right _
            (mem-expand_days left rules (first + 1) day from to (ground arith) (omega arith) lt m)
    ])

-- If a listed rule ends within its day (minute 1440 at most) and applies on a day, and its interval
-- there meets the window [from, to), then that interval is emitted: it begins at the rule's first minute
-- of the day and ends at its last.
pub expand_weekly_rules_complete :
    (rules : List TutorUnavailability) {r : TutorUnavailability} (from to day : ℕ)
    → Memᴰ r rules
    → r.end_minute ≤ 1440
    → Occurs from to day r
    → Memᴰ
        (record {
          start = day * day_ms + r.start_minute * minute_ms;
          end = day * day_ms + r.end_minute * minute_ms;
        })
        (expand_weekly_rules rules from to)
unfolding expand_weekly_rules
expand_weekly_rules_complete [] from to day m h o = elim m [ ]
expand_weekly_rules_complete (x ∷ rs) from to day m h o =
    mem-expand_days _ (x ∷ rs) (from / day_ms) day from to (omega arith) (omega arith) (omega arith)
      (mem-day_slots (x ∷ rs) day from to m o)

-- A slot is the interval of a listed rule on a day on which it applies, and meets the window.
pub record IsOccurrence (rules : List TutorUnavailability) (from to : ℕ) (s : BusySlot)
    : Type 0 where
  pub rule : TutorUnavailability
  pub day : ℕ
  pub listed : Memᴰ rule rules
  pub occurs : Occurs from to day rule
  pub same_start : s.start ≡ day * day_ms + rule.start_minute * minute_ms
  pub same_end : s.end ≡ day * day_ms + rule.end_minute * minute_ms

day_slots_sound :
    (rules : List TutorUnavailability) {s : BusySlot} (day from to : ℕ)
    → Memᴰ s (day_slots rules day from to)
    → IsOccurrence rules from to s
unfolding day_slots
day_slots_sound [] day from to m = elim m [ ]
day_slots_sound (x ∷ rs) {s} day from to m =
    elim (Bool-cases (x.weekday == weekday_of day && meets_window from to (slot_on day x))) [
      | inr h ↦ later (day_slots_sound rs day from to (rw h at m))
      | inl h ↦ elim (Memᴰ.cases_cons (rw h at m)) [
        | inl e ↦ record {
          rule = x;
          day = day;
          listed = Memᴰ.head refl;
          occurs = ground arith;
          same_start = ap (λ (x : BusySlot). x.start) e;
          same_end = ap (λ (x : BusySlot). x.end) e;
        }
        | inr m' ↦ later (day_slots_sound rs day from to m')
      ]
    ]
  where
    later : IsOccurrence rs from to s → IsOccurrence (x ∷ rs) from to s
    later o = record {
      rule = o.rule;
      day = o.day;
      listed = Memᴰ.tail o.listed;
      occurs = o.occurs;
      same_start = o.same_start;
      same_end = o.same_end;
    }

expand_days_sound :
    (left : ℕ) (rules : List TutorUnavailability) {s : BusySlot} (first from to : ℕ)
    → Memᴰ s (expand_days left rules first from to)
    → IsOccurrence rules from to s
unfolding expand_days
expand_days_sound zero rules first from to m = elim m [ ]
expand_days_sound (suc left) rules first from to m = elim (Bool-cases (ltb (first * day_ms) to)) [
  | inr h ↦ elim (rw h at m) [ ]
  | inl h ↦ elim (Memᴰ.append_cases (day_slots rules first from to) (rw h at m)) [
    | inl now ↦ day_slots_sound rules first from to now
    | inr later ↦ expand_days_sound left rules (first + 1) from to later
  ]
]

-- Every emitted interval begins at the first minute of a listed rule and ends at its last, on a day of
-- the rule's weekday, and meets the window [from, to).
pub expand_weekly_rules_sound :
    (rules : List TutorUnavailability) {s : BusySlot} (from to : ℕ)
    → Memᴰ s (expand_weekly_rules rules from to)
    → IsOccurrence rules from to s
unfolding expand_weekly_rules
expand_weekly_rules_sound [] from to m = elim m [ ]
expand_weekly_rules_sound (x ∷ rs) from to m = expand_days_sound _ (x ∷ rs) _ from to m
