-- ===== src/Grading/Tests.antt =====
-- Tests of the marks, and their theorems at concrete inputs.
mod Answers
use assaybank.Prelude.{ℕ, ◌≤◌, ◌≡◌, refl, true, false, Option, some, List, [], ◌∷◌, ok, err, arith}
use assaybank.Prelude.Int.{pos}
use assaybank.Prelude.Text.{Text}
use assaybank.Grading.Aggregate.{score_scale, score_submission}
use assaybank.Grading.Aggregate.Laws.{score_submission_mono}
use assaybank.Prelude.Doubles.{Ratio, exact}
use assaybank.Grading.Mcq.{Doubles, millionths, McqScoringOptions, no_correct_option, grade_mcq}
use assaybank.Grading.Mcq.Bounds.{InRange, grade_mcq-InRange}
use assaybank.Grading.Mcq.Sets.{SameOptions, grade_mcq-SameOptions}

abbrev a_option : Text
a_option = b'a' ∷ []

abbrev b_option : Text
b_option = b'b' ∷ []

abbrev c_option : Text
c_option = b'c' ∷ []

-- Arithmetic without rounding, whose numbers never are too large.
abbrev doubles : Doubles
doubles = record { round = exact; overflows = λ r. false }

-- Two thirds of a mark, and a quarter off for a wrong option.
abbrev two_thirds : Ratio
two_thirds = record { num = 2; den = 3 }

abbrev scheme : McqScoringOptions
scheme = record {
  max_score = some two_thirds;
  negative_score = some (record { num = 1; den = 4 });
  partial_credit = true;
  allow_negative_total = false;
}

abbrev selected : List Text
selected = a_option ∷ c_option ∷ []

abbrev correct : List Text
correct = a_option ∷ b_option ∷ []

-- A third for one of two, less a quarter: a twelfth.
twelfth : grade_mcq doubles selected correct scheme ≡ ok (pos 83_333)
unfolding grade_mcq
twelfth = refl

no_options : grade_mcq doubles selected [] scheme ≡ err no_correct_option
unfolding grade_mcq
no_options = refl

grade_mcq-InRange_example : InRange (millionths two_thirds) (pos 83_333)
grade_mcq-InRange_example =
    grade_mcq-InRange doubles selected correct scheme two_thirds (pos 83_333) refl refl
      (omega arith) twelfth

-- The whole of two thirds, rounded up.
rounded_up : grade_mcq doubles correct correct scheme ≡ ok (pos 666_667)
unfolding grade_mcq
rounded_up = refl

abbrev again : List Text
again = c_option ∷ a_option ∷ c_option ∷ []

again-SameOptions : SameOptions selected again
again-SameOptions z = ground arith

grade_mcq-SameOptions_example :
    grade_mcq doubles selected correct scheme ≡ grade_mcq doubles again correct scheme
grade_mcq-SameOptions_example =
    grade_mcq-SameOptions doubles selected again correct correct scheme again-SameOptions
      (λ z. refl)

-- Three cases, the last of which counts double.
abbrev weights : List (Option ℕ)
weights = some 1 ∷ some 1 ∷ some 2 ∷ []

quarter_passed : score_submission (true ∷ false ∷ false ∷ []) weights ≡ ok 250_000
unfolding score_submission
quarter_passed = refl

most_passed : score_submission (true ∷ false ∷ true ∷ []) weights ≡ ok 750_000
unfolding score_submission
most_passed = refl

abbrev twelfth_share : ℕ
twelfth_share = 250_000

score_submission_mono_example : (twelfth_share ≤ 750_000) × (750_000 ≤ score_scale)
score_submission_mono_example =
    score_submission_mono (true ∷ false ∷ false ∷ []) (true ∷ false ∷ true ∷ []) weights 250_000
      750_000 (ground arith) quarter_passed most_passed
