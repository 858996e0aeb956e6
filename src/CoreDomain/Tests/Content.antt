-- ===== src/CoreDomain/Tests/Content.antt =====
-- The guard on a question's content at concrete inputs.
use assaybank.Prelude.{◌≡◌, refl, true, some, []}
use assaybank.Prelude.Text.{eq_text}
use assaybank.CoreDomain.Kinds.{sql}
use assaybank.CoreDomain.KindContent.{
  KindContentShape, publish, validate_kind_content, unit_tests, lacks_assertion,
}

-- A sql question with a fixture and two cases, one of them hidden.
abbrev query_shape : KindContentShape
query_shape = record {
  option_count = 0;
  correct_option_count = 0;
  has_coding_spec = true;
  has_fixture_sql = true;
  test_case_count = 2;
  hidden_test_case_count = 1;
  answer_key_count = 0;
  grading_mode = some unit_tests;
  cases_without_assertion = some 0;
}

query_accepted : validate_kind_content sql query_shape publish ≡ []
unfolding validate_kind_content lacks_assertion eq_text
query_accepted = refl
