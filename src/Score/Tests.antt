-- ===== src/Score/Tests.antt =====
-- The score's theorems on concrete inputs, with numbers in hundredths.
use pee_rahat.Prelude.{
  ℕ, ◌+◌, ◌-◌, ◌*◌, ◌/◌, ◌≡◌, refl, true, false, ltb, leb, ◌==◌, if◌then◌else◌, Option, none, some,
  [], ◌∷◌, Text, text_eq,
}
use pee_rahat.Score.{
  Numbers, ScoreProgram, ScoreInput, ScoreFailReason, calculate_score, is_gpax_code, max_score_for,
  normalize, sanitize, raw_score_for, check_subject, entry, gather_subjects, conclude,
}
use pee_rahat.Score.Checks.{checks, first_of}
use pee_rahat.Score.Decided.{IsDecided, calculate_score-IsDecided}

abbrev hundredths : Numbers ℕ
hundredths = record {
  of_hundredths = λ k. k;
  add = λ a b. a + b;
  sub = λ a b. a - b;
  mul = λ a b. a * b / 100;
  div = λ a b. a * 100 / b;
  abs = λ a. a;
  less = ltb;
  less_eq = leb;
  equal = λ a b. a == b;
  is_nan = λ a. false;
  is_finite = λ a. true;
}

-- "gpax", a fifth of the score, and "TGAT1"
abbrev program : ScoreProgram ℕ
program = record {
  min_gpax = some 250;
  min_total_percent = some 6000;
  weights =
      record {
        exam_code = b'g' ∷ b'p' ∷ b'a' ∷ b'x' ∷ [];
        weight_percent = 2000;
        min_subject_score = none;
        max_score = none;
      }
      ∷ record {
        exam_code = b'T' ∷ b'G' ∷ b'A' ∷ b'T' ∷ b'1' ∷ [];
        weight_percent = 8000;
        min_subject_score = some 5000;
        max_score = none;
      }
      ∷ [];
}

abbrev tgat_only : Option ℕ → Text → Option ℕ
tgat_only score code = if text_eq code (b'T' ∷ b'G' ∷ b'A' ∷ b'T' ∷ b'1' ∷ []) then score else none

abbrev good : ScoreInput ℕ
good = record { scores = tgat_only (some 7000); gpax = some 300 }

-- Below the gate, and without the other subject.
abbrev poor : ScoreInput ℕ
poor = record { scores = tgat_only none; gpax = some 200 }

good_score : (calculate_score hundredths program good).weighted_score ≡ some 7100
unfolding calculate_score conclude gather_subjects entry raw_score_for normalize max_score_for
    sanitize is_gpax_code check_subject
good_score = refl

poor_reason : first_of (checks hundredths program poor) ≡ some ScoreFailReason.gpax_below_threshold
unfolding checks
poor_reason = refl

calculate_score-IsDecided_example :
    IsDecided hundredths program poor (calculate_score hundredths program poor)
calculate_score-IsDecided_example = calculate_score-IsDecided hundredths program poor
