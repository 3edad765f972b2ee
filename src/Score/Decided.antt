-- ===== src/Score/Decided.antt =====
-- `calculateScore` implements its checks.
use pee_rahat.Prelude.{◌≡◌, ◌↔◌, true, none, All}
use pee_rahat.Score.{
  Numbers, ScoreProgram, ScoreInput, ScoreResult, literal, gpax_gate, is_gpax_required,
  calculate_score,
}
use pee_rahat.Score.Checks.{checks, first_of, total}
use pee_rahat.Score.Verdict.{calculate_score-first_of, calculate_score-weighted_score}
use pee_rahat.Score.Missing.{missing_of, below_of, calculate_score-missing_subjects}

module _ {A : Type 0} (n : Numbers A) where
  -- What a result is to say: the student is eligible exactly if every check passes, and the reason is
  -- that of the first that fails; the score is the sum of what the subjects add, and missing where a
  -- subject has no score; the subjects without a score are named, the average only if the gate has not
  -- asked for it; and those below their minimum.
  pub record IsDecided (program : ScoreProgram A) (input : ScoreInput A) (result : ScoreResult A)
      : Type 0 where
    pub eligible : (result.eligible ≡ true) ↔ All (λ c. c ≡ none) (checks n program input)
    pub reason : result.reason ≡ first_of (checks n program input)
    pub weighted_score : result.weighted_score ≡ total n input (literal n 0) program.weights
    pub missing_subjects :
        result.missing_subjects
        ≡ missing_of n
            (is_gpax_required (gpax_gate n program.min_gpax input.gpax))
            input
            program.weights
    pub failed_subject_mins : result.failed_subject_mins ≡ below_of n input program.weights

  -- The result says whether every check passes, the gate, the subjects in their order and the total,
  -- and the reason of the first that fails; the sum of what the subjects add, each percentage that is
  -- no finite number counted as 0, unless a subject has no score; and the subjects without a score and
  -- those below their minimum.
  pub calculate_score-IsDecided :
      (program : ScoreProgram A) (input : ScoreInput A)
      → IsDecided program input (calculate_score n program input)
  calculate_score-IsDecided program input =
      let verdict = calculate_score-first_of n program input in
      let named = calculate_score-missing_subjects n program input in
      record {
        eligible = verdict.0;
        reason = verdict.1;
        weighted_score = calculate_score-weighted_score n program input;
        missing_subjects = named.0;
        failed_subject_mins = named.1;
      }
