-- ===== src/CoreDomain/Kinds.antt =====
-- packages/contracts/src/questions.ts: the kinds of question.
use assaybank.Prelude.{Bool, true, false}

pub data QuestionKind : Type 0 where
  mcq_single mcq_multi true_false short_answer coding sql subjective system_design : QuestionKind

-- `===` on kinds.
unfoldable pub same_kind : QuestionKind → QuestionKind → Bool
same_kind mcq_single mcq_single = true
same_kind mcq_multi mcq_multi = true
same_kind true_false true_false = true
same_kind short_answer short_answer = true
same_kind coding coding = true
same_kind sql sql = true
same_kind subjective subjective = true
same_kind system_design system_design = true
same_kind _ _ = false
