-- ===== src/CoreDomain/KindContent/Laws.antt =====
-- The guard refuses exactly the versions that their kind does not allow.
use assaybank.Prelude.{◌≤◌, ◌≡◌, ◌↔◌, Bool, true, false, [], keep, arith}
use assaybank.CoreDomain.Kinds.{
  QuestionKind, mcq_single, mcq_multi, true_false, short_answer, coding, sql, subjective,
  system_design,
}
use assaybank.CoreDomain.KindContent.{
  KindContentShape, KindContentIssue, wrong_kind, incomplete, draft, publish, lacks_assertion,
  validate_kind_content,
}

-- The version carries no options, no execution content, no answer keys.
abbrev HasNoOptions : KindContentShape → Type 0
HasNoOptions shape = shape.option_count ≡ 0

abbrev HasNoCode : KindContentShape → Type 0
HasNoCode shape = (shape.has_coding_spec ≡ false) × (shape.test_case_count ≡ 0)

abbrev HasNoKeys : KindContentShape → Type 0
HasNoKeys shape = shape.answer_key_count ≡ 0

-- What a version of the kind may carry.
abbrev pub IsAllowed : QuestionKind → KindContentShape → Type 0
IsAllowed mcq_single shape = HasNoCode shape × HasNoKeys shape
IsAllowed mcq_multi shape = HasNoCode shape × HasNoKeys shape
IsAllowed true_false shape = HasNoCode shape × HasNoKeys shape
IsAllowed short_answer shape = HasNoOptions shape × HasNoCode shape
IsAllowed coding shape = HasNoOptions shape × HasNoKeys shape × (shape.has_fixture_sql ≡ false)
IsAllowed sql shape = HasNoOptions shape × HasNoKeys shape
IsAllowed subjective shape = HasNoOptions shape × HasNoCode shape × HasNoKeys shape
IsAllowed system_design shape = HasNoOptions shape × HasNoCode shape × HasNoKeys shape

-- A code question has a spec, a hidden case, and an assertion wherever unit tests need one.
abbrev IsRunnable : KindContentShape → Type 0
IsRunnable shape =
    (shape.has_coding_spec ≡ true)
    × (1 ≤ shape.hidden_test_case_count)
    × (lacks_assertion shape ≡ false)

-- What a version of the kind must carry to be graded.
abbrev pub IsGradable : QuestionKind → KindContentShape → Type 0
IsGradable mcq_single shape = (2 ≤ shape.option_count) × (shape.correct_option_count ≡ 1)
IsGradable mcq_multi shape = (2 ≤ shape.option_count) × (1 ≤ shape.correct_option_count)
IsGradable true_false shape = (shape.option_count ≡ 2) × (shape.correct_option_count ≡ 1)
IsGradable short_answer shape = 1 ≤ shape.answer_key_count
IsGradable coding shape = IsRunnable shape
IsGradable sql shape = IsRunnable shape × (shape.has_fixture_sql ≡ true)
IsGradable subjective shape = Unit
IsGradable system_design shape = Unit

-- A draft is accepted exactly if it carries only what its kind may carry.
pub draft_iff :
    (kind : QuestionKind) (shape : KindContentShape)
    → (validate_kind_content kind shape draft ≡ []) ↔ IsAllowed kind shape
unfolding validate_kind_content
draft_iff mcq_single shape = ground arith
draft_iff mcq_multi shape = ground arith
draft_iff true_false shape = ground arith
draft_iff short_answer shape = ground arith
draft_iff coding shape = ground arith
draft_iff sql shape = ground arith
draft_iff subjective shape = ground arith
draft_iff system_design shape = ground arith

-- A version may be published exactly if it carries only what its kind may carry, and all that its
-- kind needs to be graded.
pub publish_iff :
    (kind : QuestionKind) (shape : KindContentShape)
    → (validate_kind_content kind shape publish ≡ [])
      ↔ (IsAllowed kind shape × IsGradable kind shape)
unfolding validate_kind_content
publish_iff mcq_single shape = ground arith
publish_iff mcq_multi shape = ground arith
publish_iff true_false shape = ground arith
publish_iff short_answer shape = ground arith
publish_iff coding shape = ground arith
publish_iff sql shape = ground arith
publish_iff subjective shape = ground arith
publish_iff system_design shape = ground arith

abbrev is_wrong : KindContentIssue → Bool
is_wrong issue = elim issue.severity [ wrong_kind ↦ true | incomplete ↦ false ]

-- What is reported of a draft is what is reported at publication, less what is only missing.
draft-publish :
    (kind : QuestionKind) (shape : KindContentShape)
    → validate_kind_content kind shape draft
      ≡ keep is_wrong (validate_kind_content kind shape publish)
unfolding validate_kind_content
draft-publish mcq_single shape = ground arith
draft-publish mcq_multi shape = ground arith
draft-publish true_false shape = ground arith
draft-publish short_answer shape = ground arith
draft-publish coding shape = ground arith
draft-publish sql shape = ground arith
draft-publish subjective shape = ground arith
draft-publish system_design shape = ground arith
