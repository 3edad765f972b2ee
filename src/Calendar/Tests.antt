-- ===== src/Calendar/Tests.antt =====
-- Runs of the calendar functions.
use mathlib.Core.List.{Memᴰ}
use pee_rahat.Prelude.{◌≡◌, refl, sym, subst, arith, [], ◌∷◌}
use pee_rahat.Store.{TutorUnavailability}
use pee_rahat.Calendar.{BusySlot, start_of_tomorrow_bangkok, expand_weekly_rules}
use pee_rahat.Calendar.Rules.{IsOccurrence, expand_weekly_rules_complete, expand_weekly_rules_sound}

-- 2026-05-25T16:30Z is 23:30 in Bangkok; its next midnight is 17:00Z.
tomorrow_at_2330 : start_of_tomorrow_bangkok 1779726600000 ≡ 1779728400000
unfolding start_of_tomorrow_bangkok
tomorrow_at_2330 = refl

abbrev monday_morning : TutorUnavailability
monday_morning = record { tutor_id = 1; weekday = 1; start_minute = 540; end_minute = 600 }

-- 2026-05-25 was a Monday (day 20598).
expand_monday :
    expand_weekly_rules (monday_morning ∷ []) 1779580800000 1779840000000
    ≡ record { start = 1779699600000; end = 1779703200000 } ∷ []
unfolding expand_weekly_rules
expand_monday = refl

abbrev monday_slot : BusySlot
monday_slot = record { start = 1779699600000; end = 1779703200000 }

expand_weekly_rules_complete_example :
    Memᴰ monday_slot (expand_weekly_rules (monday_morning ∷ []) 1779580800000 1779840000000)
expand_weekly_rules_complete_example =
    expand_weekly_rules_complete (monday_morning ∷ []) 1779580800000 1779840000000 20598
      (Memᴰ.head refl) (omega arith)
      (record { on_weekday = refl; starts_before = omega arith; ends_after = omega arith })

expand_weekly_rules_sound_example :
    IsOccurrence (monday_morning ∷ []) 1779580800000 1779840000000 monday_slot
expand_weekly_rules_sound_example =
    expand_weekly_rules_sound (monday_morning ∷ []) 1779580800000 1779840000000
      (subst (Memᴰ monday_slot) (sym expand_monday) (Memᴰ.head refl))
