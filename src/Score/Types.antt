-- ===== src/Score/Types.antt =====
-- The numbers, inputs and outputs of packages/types/src/score-algorithm.ts.
use pee_rahat.Prelude.{ℕ, Bool, Option, List, Text}

-- Numbers of IEEE 754. `of_hundredths` gives the number of a literal.
pub record Numbers (A : Type 0) : Type 0 where
  pub of_hundredths : ℕ → A
  pub add : A → A → A
  pub sub : A → A → A
  pub mul : A → A → A
  pub div : A → A → A
  pub abs : A → A
  pub less : A → A → Bool
  pub less_eq : A → A → Bool
  pub equal : A → A → Bool
  pub is_nan : A → Bool
  pub is_finite : A → Bool

pub record ScoreWeight (A : Type 0) : Type 0 where
  pub exam_code : Text
  pub weight_percent : A
  pub min_subject_score : Option A
  pub max_score : Option A

pub record ScoreProgram (A : Type 0) : Type 0 where
  pub min_gpax : Option A
  pub min_total_percent : Option A
  pub weights : List (ScoreWeight A)

pub record ScoreInput (A : Type 0) : Type 0 where
  pub scores : Text → Option A
  pub gpax : Option A

pub data ScoreFailReason : Type 0 where
  gpax_required : ScoreFailReason
  gpax_below_threshold : ScoreFailReason
  missing_subject : ScoreFailReason
  subject_below_minimum : ScoreFailReason
  total_below_minimum : ScoreFailReason

pub record ScoreBreakdownEntry (A : Type 0) : Type 0 where
  pub exam_code : Text
  pub raw_score : A
  pub max_score : A
  pub normalized : A
  pub weight_percent : A
  pub contribution : A

pub record ScoreFailedCheck (A : Type 0) : Type 0 where
  pub exam_code : Text
  pub required : A
  pub actual : A

-- A warning's code with its details.
pub data ScoreWarning (A : Type 0) : Type 0 where
  weight_sum_off_100 : A → ScoreWarning A
  gpax_max_not_4 : Text → A → ScoreWarning A
  invalid_weight_percent : Text → A → ScoreWarning A

pub record ScoreResult (A : Type 0) : Type 0 where
  pub eligible : Bool
  pub weighted_score : Option A
  pub breakdown : List (ScoreBreakdownEntry A)
  pub warnings : List (ScoreWarning A)
  pub meets_gpax : Bool
  pub meets_total_min : Bool
  pub missing_subjects : List Text
  pub failed_subject_mins : List (ScoreFailedCheck A)
  pub reason : Option ScoreFailReason

-- What the loop over the subjects gathers.
pub record Completeness (A : Type 0) : Type 0 where
  pub has_any_missing : Bool
  pub missing_subjects : List Text
  pub failed_subject_mins : List (ScoreFailedCheck A)
  pub first_reason : Option ScoreFailReason
