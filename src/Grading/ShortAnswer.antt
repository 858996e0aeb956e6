-- ===== src/Grading/ShortAnswer.antt =====
-- packages/grading/src/short-answer.ts: the first key that matches. Scores are ratios
-- of whole numbers, as every finite double is; one that `assertFiniteAtLeast` refuses (negative or not
-- finite) is none. A mark is whole millionths, which is what `roundScore` leaves.
pub mod First
use assaybank.Prelude.{
  ℕ, Bool, true, false, Option, none, some, List, [], ◌∷◌, Result, ok, err, if◌then◌else◌,
}
use assaybank.Prelude.Text.{Text}
use assaybank.Prelude.Doubles.{Ratio}
use assaybank.Grading.Mcq.{ratio_le, millionths}
use assaybank.Grading.Compare.{Engine, GradingMode, CompareOptions, compare_case}

-- A score that is not given, or is given and refused, or is given.
pub data KeyScore : Type 0 where
  absent refused : KeyScore
  given : Ratio → KeyScore

pub record AnswerKey : Type 0 where
  pub mode : GradingMode
  pub expected : Text
  pub score : KeyScore
  pub options : CompareOptions

pub data ShortAnswerError : Type 0 where
  bad_max_score bad_key_score : ShortAnswerError

abbrev pub is_refused : KeyScore → Bool
is_refused refused = true
is_refused _ = false

-- The keys are validated before any of them is evaluated.
unfoldable pub check_keys : List AnswerKey → Bool
check_keys [] = true
check_keys (key ∷ keys) = let rest = check_keys keys in if is_refused key.score then false else rest

-- `Math.min(a, b)`
abbrev pub lesser : Ratio → Ratio → Ratio
lesser a b = if ratio_le a b then a else b

-- `roundScore(Math.min(maxScore, key.score ?? maxScore))`
abbrev pub awarded : Ratio → KeyScore → ℕ
awarded max_score (given r) = millionths (lesser max_score r)
awarded max_score _ = millionths max_score

unfoldable pub first_match : Engine → Text → List AnswerKey → Ratio → ℕ
unfolding compare_case
first_match engine answer [] max_score = 0
first_match engine answer (key ∷ keys) max_score =
    let rest = first_match engine answer keys max_score in
    if (compare_case engine key.mode key.expected answer key.options).passed
    then awarded max_score key.score
    else rest

unfoldable pub grade_short_answer :
    Engine → Text → List AnswerKey → Option Ratio → Result ℕ ShortAnswerError
unfolding check_keys first_match
grade_short_answer engine answer keys none = err bad_max_score
grade_short_answer engine answer keys (some max_score) =
    if check_keys keys then ok (first_match engine answer keys max_score) else err bad_key_score
