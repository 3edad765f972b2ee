-- ===== src/Score/Missing.antt =====
-- The subjects that `calculateScore` names: those without a score, and those below their minimum.
use pee_rahat.Prelude.{
  ◌≡◌, sym, Bool, ◌&&◌, ◌||◌, if◌then◌else◌, is_some, Option, none, some, List, [], ◌∷◌, ◌++◌, map,
  arith, Text,
}
use mathlib.Core.List.{append_assoc, append-nil}
use pee_rahat.Score.{
  Numbers, ScoreWeight, ScoreProgram, ScoreInput, ScoreFailedCheck, Completeness, sanitize,
  raw_score_for, gpax_gate, check_subject, check_subjects, calculate_score, is_gpax_code,
  is_gpax_required, gather_subjects, conclude,
}
use pee_rahat.Score.Gathering.{raw_score_for-sanitize, start}

module _ {A : Type 0} (n : Numbers A) where
  -- The subjects without a score, without those of the average if `hidden`.
  abbrev pub missing_of : Bool → ScoreInput A → List (ScoreWeight A) → List Text
  missing_of hidden input [] = []
  missing_of hidden input (w ∷ ws) =
      let rest = missing_of hidden input ws in
      if is_some (raw_score_for n w input) || is_gpax_code w.exam_code && hidden
      then rest
      else w.exam_code ∷ rest

  abbrev below : ScoreWeight A → Option A → Option A → List (ScoreFailedCheck A)
  below w none raw = []
  below w (some least) none = []
  below w (some least) (some raw) =
      if n.less raw least
      then record { exam_code = w.exam_code; required = least; actual = raw } ∷ []
      else []

  -- The subjects whose score is below their minimum.
  abbrev pub below_of : ScoreInput A → List (ScoreWeight A) → List (ScoreFailedCheck A)
  below_of input [] = []
  below_of input (w ∷ ws) =
      below w w.min_subject_score (raw_score_for n w input) ++ below_of input ws

  is_gpax_required-check_subject :
      (input : ScoreInput A) (c : Completeness A) (w : ScoreWeight A)
      → is_gpax_required (check_subject n input c w).first_reason ≡ is_gpax_required c.first_reason
  unfolding check_subject
  is_gpax_required-check_subject input c w = ground arith

  missing_subjects-check_subject :
      (input : ScoreInput A) (c : Completeness A) (w : ScoreWeight A)
      → (check_subject n input c (sanitize n w)).missing_subjects
        ≡ c.missing_subjects ++ missing_of (is_gpax_required c.first_reason) input (w ∷ [])
  unfolding check_subject sanitize
  missing_subjects-check_subject input c w =
      ground (arith, raw_score_for-sanitize n input w, append-nil c.missing_subjects)

  failed_subject_mins-check_subject :
      (input : ScoreInput A) (c : Completeness A) (w : ScoreWeight A)
      → (check_subject n input c (sanitize n w)).failed_subject_mins
        ≡ c.failed_subject_mins ++ below w w.min_subject_score (raw_score_for n w input)
  unfolding check_subject sanitize
  failed_subject_mins-check_subject input c w =
      ground (arith, raw_score_for-sanitize n input w, append-nil c.failed_subject_mins)

  missing_subjects-check_subjects :
      (input : ScoreInput A) (c : Completeness A) (ws : List (ScoreWeight A))
      → (check_subjects n input c (map (sanitize n) ws)).missing_subjects
        ≡ c.missing_subjects ++ missing_of (is_gpax_required c.first_reason) input ws
  missing_subjects-check_subjects input c [] = sym (append-nil c.missing_subjects)
  missing_subjects-check_subjects input c (w ∷ ws) =
      let c' = check_subject n input c (sanitize n w) in
      let hidden = is_gpax_required c.first_reason in
      rw
        (
          missing_subjects-check_subjects input c' ws,
          is_gpax_required-check_subject input c (sanitize n w),
          missing_subjects-check_subject input c w,
          append_assoc c.missing_subjects (missing_of hidden input (w ∷ []))
              (missing_of hidden input ws),
        )
        (ground arith)

  failed_subject_mins-check_subjects :
      (input : ScoreInput A) (c : Completeness A) (ws : List (ScoreWeight A))
      → (check_subjects n input c (map (sanitize n) ws)).failed_subject_mins
        ≡ c.failed_subject_mins ++ below_of input ws
  failed_subject_mins-check_subjects input c [] = sym (append-nil c.failed_subject_mins)
  failed_subject_mins-check_subjects input c (w ∷ ws) =
      let c' = check_subject n input c (sanitize n w) in
      let here = below w w.min_subject_score (raw_score_for n w input) in
      rw
        (
          failed_subject_mins-check_subjects input c' ws,
          failed_subject_mins-check_subject input c w,
        )
        (append_assoc c.failed_subject_mins here (below_of input ws))

  -- The result names the subjects without a score, in their order, where the average is left out if
  -- the gate asks for it already; and those below their minimum, in their order, each with the
  -- minimum and the score.
  pub calculate_score-missing_subjects :
      (program : ScoreProgram A) (input : ScoreInput A)
      → let result = calculate_score n program input in
        let hidden = is_gpax_required (gpax_gate n program.min_gpax input.gpax) in
        (result.missing_subjects ≡ missing_of hidden input program.weights)
        × (result.failed_subject_mins ≡ below_of input program.weights)
  unfolding calculate_score conclude gather_subjects
  calculate_score-missing_subjects program input =
      let c = start n program input in
      (
        missing_subjects-check_subjects input c program.weights,
        failed_subject_mins-check_subjects input c program.weights,
      )
