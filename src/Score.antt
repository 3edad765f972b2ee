-- ===== src/Score.antt =====
-- The admission score: packages/types/src/score-algorithm.ts. JavaScript's numbers are a parameter:
-- a type with the operations that the source uses. The texts of the messages are left out.
mod Types
mod Checks
mod Gathering
mod Verdict
mod Missing
mod Decided
mod Tests
pub use Types.*
use pee_rahat.Prelude.{
  ℕ, ◌+◌, ◌-◌, ◌*◌, Bool, true, false, ◌&&◌, ◌||◌, not, leb, if◌then◌else◌, is_some, or_default,
  Option, none, some, List, [], ◌∷◌, ◌++◌, map, Text, text_eq,
}

-- `toUpperCase`
abbrev upper_code : ℕ → ℕ
upper_code c = if leb b'a' c && leb c b'z' then c - 32 else c

abbrev gpax_code : Text
gpax_code = b'G' ∷ b'P' ∷ b'A' ∷ b'X' ∷ []

unfoldable pub is_gpax_code : Text → Bool
is_gpax_code exam_code = text_eq (map upper_code exam_code) gpax_code

-- `first ??= reason`
abbrev pub keep_first : Option ScoreFailReason → ScoreFailReason → Option ScoreFailReason
keep_first none reason = some reason
keep_first (some first) reason = some first

-- `firstReason === "gpax_required"`
abbrev pub is_gpax_required : Option ScoreFailReason → Bool
is_gpax_required (some ScoreFailReason.gpax_required) = true
is_gpax_required _ = false

abbrev pub has_none : {A : Type 0} → List A → Bool
has_none [] = true
has_none (x ∷ xs) = false

module _ {A : Type 0} (n : Numbers A) where
  abbrev pub literal : ℕ → A
  literal k = n.of_hundredths (100 * k)

  unfoldable pub max_score_for : ScoreWeight A → A
  max_score_for w =
      or_default w.max_score (if is_gpax_code w.exam_code then literal 4 else literal 100)

  unfoldable pub normalize : A → A → A
  normalize raw max_score =
      if n.less_eq max_score (literal 0)
      then literal 0
      else n.mul (n.div raw max_score) (literal 100)

  abbrev total_of : A → List (ScoreWeight A) → A
  total_of sum [] = sum
  total_of sum (w ∷ ws) = total_of (n.add sum w.weight_percent) ws

  unfoldable pub check_weight_sum : List (ScoreWeight A) → List (ScoreWarning A)
  check_weight_sum weights =
      let total = total_of (literal 0) weights in
      if n.less_eq (n.abs (n.sub total (literal 100))) (n.of_hundredths 50)
      then []
      else ScoreWarning.weight_sum_off_100 total ∷ []

  abbrev check_gpax_entry : ScoreWeight A → Option A → List (ScoreWarning A)
  check_gpax_entry w none = []
  check_gpax_entry w (some max_score) =
      if is_gpax_code w.exam_code && not (n.equal max_score (literal 4))
      then ScoreWarning.gpax_max_not_4 w.exam_code max_score ∷ []
      else []

  unfoldable pub check_gpax_max : List (ScoreWeight A) → List (ScoreWarning A)
  check_gpax_max [] = []
  check_gpax_max (w ∷ ws) = check_gpax_entry w w.max_score ++ check_gpax_max ws

  unfoldable pub sanitize : ScoreWeight A → ScoreWeight A
  sanitize w = if n.is_finite w.weight_percent then w else record w { weight_percent = literal 0 }

  unfoldable pub check_weight_percents : List (ScoreWeight A) → List (ScoreWarning A)
  check_weight_percents [] = []
  check_weight_percents (w ∷ ws) =
      let rest = check_weight_percents ws in
      if n.is_finite w.weight_percent
      then rest
      else ScoreWarning.invalid_weight_percent w.exam_code w.weight_percent ∷ rest

  -- A number that was given and is not NaN.
  abbrev pub entered : Option A → Option A
  entered none = none
  entered (some v) = if n.is_nan v then none else some v

  unfoldable pub raw_score_for : ScoreWeight A → ScoreInput A → Option A
  raw_score_for w input =
      if is_gpax_code w.exam_code then entered input.gpax else entered (input.scores w.exam_code)

  -- STEP 1: the reason why the gate fails.
  abbrev pub gpax_gate : Option A → Option A → Option ScoreFailReason
  gpax_gate none gpax = none
  gpax_gate (some min_gpax) gpax = elim (entered gpax) [
    | none ↦ some ScoreFailReason.gpax_required
    | some v ↦ if n.less v min_gpax then some ScoreFailReason.gpax_below_threshold else none
  ]

  abbrev add_missing : ScoreWeight A → Completeness A → Completeness A
  add_missing w c = record {
    has_any_missing = true;
    missing_subjects =
        (if is_gpax_code w.exam_code && is_gpax_required c.first_reason
          then c.missing_subjects
          else c.missing_subjects ++ w.exam_code ∷ []);
    failed_subject_mins = c.failed_subject_mins;
    first_reason = keep_first c.first_reason ScoreFailReason.missing_subject;
  }

  abbrev add_failed : ScoreWeight A → A → A → Completeness A → Completeness A
  add_failed w required actual c = record c {
    failed_subject_mins =
        c.failed_subject_mins
        ++ record { exam_code = w.exam_code; required = required; actual = actual } ∷ [];
    first_reason = keep_first c.first_reason ScoreFailReason.subject_below_minimum;
  }

  abbrev check_minimum : ScoreWeight A → Option A → A → Completeness A → Completeness A
  check_minimum w none raw c = c
  check_minimum w (some required) raw c =
      if n.less raw required then add_failed w required raw c else c

  -- STEP 2: one round of the loop, and the loop.
  unfoldable pub check_subject : ScoreInput A → Completeness A → ScoreWeight A → Completeness A
  check_subject input c w = elim (raw_score_for w input) [
    | none ↦ add_missing w c
    | some raw ↦ check_minimum w w.min_subject_score raw c
  ]

  abbrev pub check_subjects : ScoreInput A → Completeness A → List (ScoreWeight A) → Completeness A
  check_subjects input c [] = c
  check_subjects input c (w ∷ ws) = check_subjects input (check_subject input c w) ws

  -- STEP 3: the entries, and their sum. Arithmetic takes `null` for 0.
  unfoldable pub entry : ScoreInput A → ScoreWeight A → ScoreBreakdownEntry A
  entry input w =
      let raw = or_default (raw_score_for w input) (literal 0) in
      let max_score = max_score_for w in
      let normalized = normalize raw max_score in
      record {
        exam_code = w.exam_code;
        raw_score = raw;
        max_score = max_score;
        normalized = normalized;
        weight_percent = w.weight_percent;
        contribution = n.mul normalized (n.div w.weight_percent (literal 100));
      }

  abbrev pub sum_of : A → List (ScoreBreakdownEntry A) → A
  sum_of sum [] = sum
  sum_of sum (x ∷ xs) = sum_of (n.add sum x.contribution) xs

  -- STEP 4: does the total fail its minimum?
  abbrev pub is_total_below : Option A → Option A → Bool
  is_total_below none score = false
  is_total_below (some least) none = false
  is_total_below (some least) (some score) = n.less score least

  -- STEPS 1 and 2
  unfoldable pub gather_subjects : ScoreProgram A → ScoreInput A → Completeness A
  gather_subjects program input =
      let start : Completeness A = record {
        has_any_missing = false;
        missing_subjects = [];
        failed_subject_mins = [];
        first_reason = gpax_gate program.min_gpax input.gpax;
      } in
      check_subjects input start (map sanitize program.weights)

  -- STEPS 3 and 4
  unfoldable pub conclude : ScoreProgram A → ScoreInput A → Completeness A → ScoreResult A
  conclude program input c =
      let weights = map sanitize program.weights in
      let gate = gpax_gate program.min_gpax input.gpax in
      let breakdown = if c.has_any_missing then [] else map (entry input) weights in
      let score = if c.has_any_missing then none else some (sum_of (literal 0) breakdown) in
      let below = is_total_below program.min_total_percent score in
      let eligible =
        not (is_some gate)
        && not below
        && not c.has_any_missing
        && has_none c.failed_subject_mins in
      let first =
        if below
        then keep_first c.first_reason ScoreFailReason.total_below_minimum
        else c.first_reason in
      record {
        eligible = eligible;
        weighted_score = score;
        breakdown = breakdown;
        warnings =
            check_weight_sum weights
            ++ check_gpax_max weights
            ++ check_weight_percents program.weights;
        meets_gpax = not (is_some gate);
        meets_total_min = not below;
        missing_subjects = c.missing_subjects;
        failed_subject_mins = c.failed_subject_mins;
        reason = (if eligible then none else first);
      }

  unfoldable pub calculate_score : ScoreProgram A → ScoreInput A → ScoreResult A
  calculate_score program input = conclude program input (gather_subjects program input)
