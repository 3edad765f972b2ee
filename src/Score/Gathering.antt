-- ===== src/Score/Gathering.antt =====
-- What the loops of `calculateScore` gather, against the checks.
use pee_rahat.Prelude.{
  ◌≡◌, refl, ◌∙◌, Bool, false, ◌&&◌, ◌||◌, not, if◌then◌else◌, is_some, none, some, List, [], ◌∷◌,
  ◌++◌, map, arith, Option-cases, inl, inr,
}
use pee_rahat.Score.{
  Numbers, ScoreWeight, ScoreProgram, ScoreInput, Completeness, max_score_for, sanitize,
  raw_score_for, gpax_gate, check_subject, check_subjects, entry, sum_of, has_none, gather_subjects,
}
use pee_rahat.Score.Checks.{first_of, or_else, subject_check, contribution, total}

has_none-append : {A : Type 0} (xs : List A) (x : A) → has_none (xs ++ x ∷ []) ≡ false
has_none-append [] x = refl
has_none-append (y ∷ ys) x = refl

module _ {A : Type 0} (n : Numbers A) where
  abbrev is_missing : ScoreInput A → ScoreWeight A → Bool
  is_missing input w = not (is_some (raw_score_for n w input))

  abbrev pub any_missing : ScoreInput A → List (ScoreWeight A) → Bool
  any_missing input [] = false
  any_missing input (w ∷ ws) = is_missing input w || any_missing input ws

  pub raw_score_for-sanitize :
      (input : ScoreInput A) (w : ScoreWeight A)
      → raw_score_for n (sanitize n w) input ≡ raw_score_for n w input
  unfolding sanitize raw_score_for
  raw_score_for-sanitize input w = ground arith

  first_reason-check_subject :
      (input : ScoreInput A) (c : Completeness A) (w : ScoreWeight A)
      → (check_subject n input c w).first_reason ≡ or_else c.first_reason (subject_check n input w)
  unfolding check_subject subject_check
  first_reason-check_subject input c w = ground arith

  has_any_missing-check_subject :
      (input : ScoreInput A) (c : Completeness A) (w : ScoreWeight A)
      → (check_subject n input c w).has_any_missing ≡ (c.has_any_missing || is_missing input w)
  unfolding check_subject
  has_any_missing-check_subject input c w = ground arith

  -- Nothing is missing, and no minimum has failed.
  abbrev pub is_clean : Completeness A → Bool
  is_clean c = not c.has_any_missing && has_none c.failed_subject_mins

  is_clean-check_subject :
      (input : ScoreInput A) (c : Completeness A) (w : ScoreWeight A)
      → is_clean (check_subject n input c w)
        ≡ (is_clean c && not (is_some (subject_check n input w)))
  unfolding check_subject subject_check
  is_clean-check_subject input c w = grind (arith, has_none-append)

  subject_check-sanitize :
      (input : ScoreInput A) (w : ScoreWeight A)
      → subject_check n input (sanitize n w) ≡ subject_check n input w
  unfolding subject_check sanitize
  subject_check-sanitize input w = ground (arith, raw_score_for-sanitize input w)

  first_reason-check_subjects :
      (input : ScoreInput A) (c : Completeness A) (ws : List (ScoreWeight A))
      → (check_subjects n input c (map (sanitize n) ws)).first_reason
        ≡ or_else c.first_reason (first_of (map (subject_check n input) ws))
  first_reason-check_subjects input c [] = ground arith
  first_reason-check_subjects input c (w ∷ ws) =
      rw
        (
          first_reason-check_subjects input (check_subject n input c (sanitize n w)) ws,
          first_reason-check_subject input c (sanitize n w),
          subject_check-sanitize input w,
        )
        (ground arith)

  has_any_missing-check_subjects :
      (input : ScoreInput A) (c : Completeness A) (ws : List (ScoreWeight A))
      → (check_subjects n input c (map (sanitize n) ws)).has_any_missing
        ≡ (c.has_any_missing || any_missing input ws)
  has_any_missing-check_subjects input c [] = ground arith
  has_any_missing-check_subjects input c (w ∷ ws) =
      rw
        (
          has_any_missing-check_subjects input (check_subject n input c (sanitize n w)) ws,
          has_any_missing-check_subject input c (sanitize n w),
          raw_score_for-sanitize input w,
        )
        (ground arith)

  is_clean-check_subjects :
      (input : ScoreInput A) (c : Completeness A) (ws : List (ScoreWeight A))
      → is_clean (check_subjects n input c (map (sanitize n) ws))
        ≡ (is_clean c && not (is_some (first_of (map (subject_check n input) ws))))
  is_clean-check_subjects input c [] = ground arith
  is_clean-check_subjects input c (w ∷ ws) =
      rw
        (
          is_clean-check_subjects input (check_subject n input c (sanitize n w)) ws,
          is_clean-check_subject input c (sanitize n w),
          subject_check-sanitize input w,
        )
        (ground arith)

  contribution-entry :
      (input : ScoreInput A) (w : ScoreWeight A) {raw : A}
      → raw_score_for n w input ≡ some raw
      → (entry n input (sanitize n w)).contribution ≡ contribution n w raw
  unfolding entry max_score_for sanitize
  contribution-entry input w {raw} h =
      let same : raw_score_for n (sanitize n w) input ≡ some raw =
        raw_score_for-sanitize input w ∙ h in
      ground (arith, same)

  pub total-lem :
      (input : ScoreInput A) (sum : A) (ws : List (ScoreWeight A))
      → total n input sum ws ≡ (
          if any_missing input ws
          then none
          else some (sum_of n sum (map (entry n input) (map (sanitize n) ws))))
  unfolding total
  total-lem input sum [] = refl
  total-lem input sum (w ∷ ws) = elim (Option-cases (raw_score_for n w input)) [
    | inl lacks ↦ rw (lacks, total) refl
    | inr (raw, has) ↦
        rw (contribution-entry input w has, has, total)
          (total-lem input (n.add sum (contribution n w raw)) ws)
  ]

  abbrev pub start : ScoreProgram A → ScoreInput A → Completeness A
  start program input = record {
    has_any_missing = false;
    missing_subjects = [];
    failed_subject_mins = [];
    first_reason = gpax_gate n program.min_gpax input.gpax;
  }

  pub has_any_missing-gather_subjects :
      (program : ScoreProgram A) (input : ScoreInput A)
      → (gather_subjects n program input).has_any_missing ≡ any_missing input program.weights
  unfolding gather_subjects
  has_any_missing-gather_subjects program input =
      has_any_missing-check_subjects input (start program input) program.weights

  pub is_clean-gather_subjects :
      (program : ScoreProgram A) (input : ScoreInput A)
      → is_clean (gather_subjects n program input)
        ≡ not (is_some (first_of (map (subject_check n input) program.weights)))
  unfolding gather_subjects
  is_clean-gather_subjects program input =
      is_clean-check_subjects input (start program input) program.weights

  pub first_reason-gather_subjects :
      (program : ScoreProgram A) (input : ScoreInput A)
      → (gather_subjects n program input).first_reason
        ≡ or_else
            (gpax_gate n program.min_gpax input.gpax)
            (first_of (map (subject_check n input) program.weights))
  unfolding gather_subjects
  first_reason-gather_subjects program input =
      first_reason-check_subjects input (start program input) program.weights
