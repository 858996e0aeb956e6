-- ===== src/CoreDomain/KindContent.antt =====
-- packages/core-domain/src/kind-content.ts: what each kind of question may and must carry. An issue
-- is its severity and its field; the message for humans is left out.
pub mod Laws
use assaybank.Prelude.{
  ℕ, ◌&&◌, not, Bool, true, false, Option, none, some, List, [], ◌∷◌, ◌++◌, ltb, ◌==◌,
  if◌then◌else◌,
}
use assaybank.Prelude.Text.{Text, eq_text}
use assaybank.CoreDomain.Kinds.{
  QuestionKind, mcq_single, mcq_multi, true_false, short_answer, coding, sql, subjective,
  system_design, same_kind,
}

pub record KindContentShape : Type 0 where
  pub option_count : ℕ
  pub correct_option_count : ℕ
  pub has_coding_spec : Bool
  pub has_fixture_sql : Bool
  pub test_case_count : ℕ
  pub hidden_test_case_count : ℕ
  pub answer_key_count : ℕ
  pub grading_mode : Option Text
  pub cases_without_assertion : Option ℕ

pub data Severity : Type 0 where
  wrong_kind incomplete : Severity

pub data Field : Type 0 where
  options coding_spec test_cases answer_keys : Field

pub record KindContentIssue : Type 0 where
  pub severity : Severity
  pub field : Field

pub data KindContentStage : Type 0 where
  draft publish : KindContentStage

unfoldable pub is_choice : QuestionKind → Bool
is_choice mcq_single = true
is_choice mcq_multi = true
is_choice true_false = true
is_choice _ = false

unfoldable pub is_code : QuestionKind → Bool
is_code coding = true
is_code sql = true
is_code _ = false

-- `"unit_tests"`
abbrev pub unit_tests : Text
unit_tests = b'u' ∷ b'n' ∷ b'i' ∷ b't' ∷ b'_' ∷ b't' ∷ b'e' ∷ b's' ∷ b't' ∷ b's' ∷ []

-- `if (test) wrong(field, …)`
abbrev wrong : Bool → Field → List KindContentIssue
wrong test field = if test then record { severity = wrong_kind; field = field } ∷ [] else []

-- `if (test) missing(field, …)`
abbrev missing : KindContentStage → Bool → Field → List KindContentIssue
missing draft test field = []
missing publish test field =
    if test then record { severity = incomplete; field = field } ∷ [] else []

-- Content that the kind can never carry.
unfoldable pub wrong_issues : QuestionKind → KindContentShape → List KindContentIssue
unfolding is_choice is_code same_kind
wrong_issues kind shape =
    wrong (not (is_choice kind) && ltb 0 shape.option_count) options
    ++ (wrong (not (is_code kind) && shape.has_coding_spec) coding_spec
        ++ (wrong (not (is_code kind) && ltb 0 shape.test_case_count) test_cases
            ++ (wrong (not (same_kind kind short_answer) && ltb 0 shape.answer_key_count)
                  answer_keys
                ++ wrong (same_kind kind coding && shape.has_fixture_sql) coding_spec)))

abbrev is_unit_tests : Option Text → Bool
is_unit_tests none = false
is_unit_tests (some mode) = eq_text mode unit_tests

abbrev pub unasserted : Option ℕ → ℕ
unasserted none = 0
unasserted (some n) = n

-- The cases of a question graded by unit tests that have no assertion.
unfoldable pub lacks_assertion : KindContentShape → Bool
lacks_assertion shape =
    is_unit_tests shape.grading_mode && ltb 0 (unasserted shape.cases_without_assertion)

-- Content that a coding or sql question needs.
unfoldable pub code_issues :
    KindContentStage → QuestionKind → KindContentShape → List KindContentIssue
unfolding same_kind
code_issues stage kind shape =
    missing stage (not shape.has_coding_spec) coding_spec
    ++ (missing stage (ltb shape.hidden_test_case_count 1) test_cases
        ++ (missing stage (same_kind kind sql && not shape.has_fixture_sql) coding_spec
            ++ missing stage (lacks_assertion shape) test_cases))

-- Content that the kind needs.
unfoldable pub missing_issues :
    KindContentStage → QuestionKind → KindContentShape → List KindContentIssue
unfolding code_issues
missing_issues stage true_false shape =
    missing stage (not (shape.option_count == 2)) options
    ++ missing stage (not (shape.correct_option_count == 1)) options
missing_issues stage mcq_single shape =
    missing stage (ltb shape.option_count 2) options
    ++ missing stage (not (shape.correct_option_count == 1)) options
missing_issues stage mcq_multi shape =
    missing stage (ltb shape.option_count 2) options
    ++ missing stage (ltb shape.correct_option_count 1) options
missing_issues stage short_answer shape = missing stage (ltb shape.answer_key_count 1) answer_keys
missing_issues stage coding shape = code_issues stage coding shape
missing_issues stage sql shape = code_issues stage sql shape
missing_issues stage subjective shape = []
missing_issues stage system_design shape = []

unfoldable pub validate_kind_content :
    QuestionKind → KindContentShape → KindContentStage → List KindContentIssue
unfolding wrong_issues missing_issues
validate_kind_content kind shape stage = wrong_issues kind shape ++ missing_issues stage kind shape
