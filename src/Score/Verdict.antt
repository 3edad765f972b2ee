-- ===== src/Score/Verdict.antt =====
-- The result of `calculateScore` against the checks.
use pee_rahat.Prelude.{
  ◌≡◌, ◌↔◌, Bool, true, ◌&&◌, not, if◌then◌else◌, is_some, Option, none, [], ◌∷◌, map, All, arith,
}
use pee_rahat.Score.{
  Numbers, ScoreProgram, ScoreInput, ScoreFailReason, keep_first, literal, gpax_gate,
  is_total_below, calculate_score, has_none, gather_subjects, conclude,
}
use pee_rahat.Score.Checks.{
  first_of, or_else, first_of-append, first_of-none, subject_check, total, total_check, checks,
}
use pee_rahat.Score.Gathering.{
  total-lem, has_any_missing-gather_subjects, is_clean-gather_subjects,
  first_reason-gather_subjects,
}

module _ {A : Type 0} (n : Numbers A) where
  -- The weighted score is the sum of what the subjects add, each percentage that is no finite number
  -- counted as 0, and is missing exactly where a subject has no score.
  pub calculate_score-weighted_score :
      (program : ScoreProgram A) (input : ScoreInput A)
      → (calculate_score n program input).weighted_score
        ≡ total n input (literal n 0) program.weights
  unfolding calculate_score conclude
  calculate_score-weighted_score program input =
      rw
        (
          has_any_missing-gather_subjects n program input,
          total-lem n input (literal n 0) program.weights,
        )
        (ground arith)

  first_of-checks :
      (program : ScoreProgram A) (input : ScoreInput A)
      → let last =
          total_check n program.min_total_percent (total n input (literal n 0) program.weights) in
        first_of (checks n program input)
        ≡ or_else
            (gpax_gate n program.min_gpax input.gpax)
            (or_else (first_of (map (subject_check n input) program.weights)) last)
  unfolding checks
  first_of-checks program input =
      let all = map (subject_check n input) program.weights in
      let last =
        total_check n program.min_total_percent (total n input (literal n 0) program.weights) in
      ground (arith, first_of-append all (last ∷ []))

  module _ (gate subjects : Option ScoreFailReason) (missing unfailed : Bool)
      (least score : Option A) (clean : (not missing && unfailed) ≡ not (is_some subjects)) where
    is_eligible : Bool
    is_eligible =
        not (is_some gate) && not (is_total_below n least score) && not missing && unfailed

    is_eligible-lem :
        is_eligible ≡ not (is_some (or_else gate (or_else subjects (total_check n least score))))
    unfolding is_eligible
    is_eligible-lem = ground (arith, clean)

    reason_lem :
        (if is_eligible
          then none
          else (if is_total_below n least score
              then keep_first (or_else gate subjects) ScoreFailReason.total_below_minimum
              else or_else gate subjects))
        ≡ or_else gate (or_else subjects (total_check n least score))
    unfolding is_eligible
    reason_lem = ground (arith, clean)

  eligible-lem :
      (program : ScoreProgram A) (input : ScoreInput A)
      → (calculate_score n program input).eligible
        ≡ not (is_some (first_of (checks n program input)))
  unfolding calculate_score conclude is_eligible
  eligible-lem program input =
      let c = gather_subjects n program input in
      let value =
        is_eligible-lem (gpax_gate n program.min_gpax input.gpax)
          (first_of (map (subject_check n input) program.weights)) c.has_any_missing
          (has_none c.failed_subject_mins) program.min_total_percent
          (calculate_score n program input).weighted_score
          (is_clean-gather_subjects n program input) in
      rw (first_of-checks program input, ← calculate_score-weighted_score program input) value

  reason-lem :
      (program : ScoreProgram A) (input : ScoreInput A)
      → (calculate_score n program input).reason ≡ first_of (checks n program input)
  unfolding calculate_score conclude is_eligible
  reason-lem program input =
      let c = gather_subjects n program input in
      let value =
        reason_lem (gpax_gate n program.min_gpax input.gpax)
          (first_of (map (subject_check n input) program.weights)) c.has_any_missing
          (has_none c.failed_subject_mins) program.min_total_percent
          (calculate_score n program input).weighted_score
          (is_clean-gather_subjects n program input) in
      rw
        (
          first_of-checks program input,
          ← calculate_score-weighted_score program input,
          first_reason-gather_subjects n program input,
        )
        value

  -- The student is eligible exactly if every check passes: the gate, the subjects in their order, and
  -- the total; and the reason given is that of the first check that fails, if one does.
  pub calculate_score-first_of :
      (program : ScoreProgram A) (input : ScoreInput A)
      → let result = calculate_score n program input in
        ((result.eligible ≡ true) ↔ All (λ c. c ≡ none) (checks n program input))
        × (result.reason ≡ first_of (checks n program input))
  calculate_score-first_of program input = (
    rw (eligible-lem program input) (first_of-none (checks n program input)),
    reason-lem program input,
  )
