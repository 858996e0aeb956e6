-- ===== src/Grading/Tests/Answers.antt =====
-- Comparisons and short answers at concrete inputs.
use assaybank.Prelude.{ℕ, ◌≤◌, ◌≡◌, refl, none, some, [], ◌∷◌, ◌++◌, ok, arith}
use assaybank.Prelude.Int.{pos}
use assaybank.Prelude.Text.{Text}
use assaybank.Prelude.Parts.{Lacks}
use assaybank.Grading.Compare.{
  Engine, finite, exact, trimmed, CompareOptions, compare_case, normalise, tokenise,
}
use assaybank.Grading.Compare.Newlines.{windows, compare_case-windows}
use assaybank.Prelude.Doubles.{Ratio}
use assaybank.Grading.Mcq.{millionths}
use assaybank.Grading.ShortAnswer.{AnswerKey, given, check_keys, awarded, grade_short_answer}
use assaybank.Grading.ShortAnswer.First.{grade_short_answer_first}

abbrev engine : Engine
engine = record {
  to_number = λ t. finite (pos 7);
  to_lower_case = λ t. t;
  compile = λ p flags. none;
}

abbrev options : CompareOptions
options = record { absolute_tolerance = none; relative_tolerance = none; regex_flags = none }

-- Spaces at the ends of lines and blank lines around them go; runs inside a line stay.
normalised :
    normalise (10 ∷ 32 ∷ b'a' ∷ 32 ∷ 32 ∷ b'b' ∷ 13 ∷ 10 ∷ b'c' ∷ 32 ∷ 10 ∷ [])
    ≡ b'a' ∷ 32 ∷ 32 ∷ b'b' ∷ 10 ∷ b'c' ∷ []
unfolding normalise
normalised = refl

tokens : tokenise (32 ∷ b'1' ∷ 32 ∷ 10 ∷ b'2' ∷ []) ≡ (b'1' ∷ []) ∷ (b'2' ∷ []) ∷ []
unfolding tokenise
tokens = refl

-- Two lines.
abbrev answer : Text
answer = b'a' ∷ 10 ∷ b'b' ∷ []

answer-Lacks : Lacks 13 answer
unfolding Lacks
answer-Lacks = omega arith

compare_case-windows_example :
    compare_case engine trimmed answer (windows answer) options
    ≡ compare_case engine trimmed answer answer options
compare_case-windows_example =
    compare_case-windows engine trimmed answer answer options (λ e. absurd (ground arith))
      answer-Lacks

abbrev marks : ℕ → Ratio
marks n = record { num = n; den = 3 }

abbrev key : Text → ℕ → AnswerKey
key expected n = record {
  mode = exact;
  expected = expected;
  score = given (marks n);
  options = options;
}

abbrev first_key : AnswerKey
first_key = key (b'x' ∷ []) 1

abbrev second_key : AnswerKey
second_key = key (b'a' ∷ []) 3

grade_short_answer_first_example :
    (grade_short_answer engine
        (b'a' ∷ [])
        ((first_key ∷ []) ++ (second_key ∷ (first_key ∷ [])))
        (some (marks 2))
      ≡ ok (awarded (marks 2) (given (marks 3))))
    × (awarded (marks 2) (given (marks 3)) ≤ millionths (marks 2))
unfolding compare_case check_keys
grade_short_answer_first_example =
    grade_short_answer_first engine (b'a' ∷ []) (first_key ∷ []) second_key (first_key ∷ [])
      (marks 2) (omega arith) refl (refl, tt) refl
