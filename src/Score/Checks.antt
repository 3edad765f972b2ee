-- ===== src/Score/Checks.antt =====
-- What `calculateScore` is to decide: a list of independent checks, in the order of the steps, and
-- the total.
use pee_rahat.Prelude.{
  ◌≡◌, refl, ◌↔◌, true, not, if◌then◌else◌, is_some, Option, none, some, List, [], ◌∷◌, ◌++◌, map,
  All, arith,
}
use pee_rahat.Score.{
  Numbers, ScoreWeight, ScoreProgram, ScoreInput, ScoreFailReason, literal, max_score_for,
  normalize, entered, raw_score_for,
}

-- The first reason of some reasons that may be missing.
abbrev pub first_of : List (Option ScoreFailReason) → Option ScoreFailReason
first_of [] = none
first_of (none ∷ rest) = first_of rest
first_of (some reason ∷ rest) = some reason

abbrev pub or_else : Option ScoreFailReason → Option ScoreFailReason → Option ScoreFailReason
or_else none b = b
or_else (some a) b = some a

pub first_of-append :
    (xs ys : List (Option ScoreFailReason))
    → first_of (xs ++ ys) ≡ or_else (first_of xs) (first_of ys)
first_of-append [] ys = refl
first_of-append (none ∷ xs) ys = first_of-append xs ys
first_of-append (some reason ∷ xs) ys = refl

pub first_of-none :
    (xs : List (Option ScoreFailReason))
    → (not (is_some (first_of xs)) ≡ true) ↔ All (λ c. c ≡ none) xs
first_of-none [] = ground arith
first_of-none (none ∷ xs) = ground (arith, first_of-none xs)
first_of-none (some reason ∷ xs) = ground arith

module _ {A : Type 0} (n : Numbers A) where
  -- A gate with a threshold wants a score that is not below it.
  abbrev pub gpax_check : ScoreProgram A → ScoreInput A → Option ScoreFailReason
  gpax_check program input = elim program.min_gpax [
    | none ↦ none
    | some least ↦ elim (entered n input.gpax) [
      | none ↦ some ScoreFailReason.gpax_required
      | some v ↦ if n.less v least then some ScoreFailReason.gpax_below_threshold else none
    ]
  ]

  abbrev pub minimum_check : Option A → A → Option ScoreFailReason
  minimum_check none raw = none
  minimum_check (some least) raw =
      if n.less raw least then some ScoreFailReason.subject_below_minimum else none

  unfoldable pub subject_check : ScoreInput A → ScoreWeight A → Option ScoreFailReason
  subject_check input w = elim (raw_score_for n w input) [
    | none ↦ some ScoreFailReason.missing_subject
    | some raw ↦ minimum_check w.min_subject_score raw
  ]

  -- What a subject adds to the total; a percentage that is no finite number counts as 0.
  abbrev pub contribution : ScoreWeight A → A → A
  contribution w raw =
      let percent = if n.is_finite w.weight_percent then w.weight_percent else literal n 0 in
      n.mul (normalize n raw (max_score_for n w)) (n.div percent (literal n 100))

  -- The total of all subjects, if each has a score.
  unfoldable pub total : ScoreInput A → A → List (ScoreWeight A) → Option A
  total input sum [] = some sum
  total input sum (w ∷ ws) = elim (raw_score_for n w input) [
    | none ↦ none
    | some raw ↦ total input (n.add sum (contribution w raw)) ws
  ]

  abbrev pub total_check : Option A → Option A → Option ScoreFailReason
  total_check none score = none
  total_check (some least) none = none
  total_check (some least) (some score) =
      if n.less score least then some ScoreFailReason.total_below_minimum else none

  unfoldable pub checks : ScoreProgram A → ScoreInput A → List (Option ScoreFailReason)
  checks program input =
      gpax_check program input ∷ map (subject_check input) program.weights
      ++ total_check program.min_total_percent (total input (literal n 0) program.weights) ∷ []
