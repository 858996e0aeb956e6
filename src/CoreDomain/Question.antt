-- ===== src/CoreDomain/Question.antt =====
-- packages/core-domain/src/question-lifecycle.ts: the authoring lifecycle of a question.
pub mod Laws
use assaybank.Prelude.{
  ◌||◌, Bool, true, false, List, [], ◌∷◌, Result, ok, err, ◌>>=◌, length, any, ◌==◌, if◌then◌else◌,
}
use assaybank.CoreDomain.Errors.{DomainErrorCode, illegal_transition}

pub data QuestionStatus : Type 0 where
  draft review published retired : QuestionStatus

pub data QuestionEvent : Type 0 where
  submit_for_review request_changes publish retire : QuestionEvent

-- `===` on statuses.
unfoldable pub same : QuestionStatus → QuestionStatus → Bool
same draft draft = true
same review review = true
same published published = true
same retired retired = true
same _ _ = false

unfoldable pub edges : QuestionStatus → List QuestionStatus
edges draft = review ∷ []
edges review = draft ∷ published ∷ []
edges published = published ∷ retired ∷ []
edges retired = []

unfoldable pub can_transition_question : QuestionStatus → QuestionStatus → Bool
unfolding edges same
can_transition_question from to = any (same to) (edges from)

unfoldable pub is_terminal_question_status : QuestionStatus → Bool
unfolding edges
is_terminal_question_status status = length (edges status) == 0

unfoldable pub is_servable_status : QuestionStatus → Bool
unfolding same
is_servable_status status = same status published

abbrev illegal : Result QuestionStatus DomainErrorCode
illegal = err illegal_transition

unfoldable pub transition_question :
    QuestionStatus → QuestionEvent → Result QuestionStatus DomainErrorCode
unfolding same
transition_question from submit_for_review = if same from draft then ok review else illegal
transition_question from request_changes = if same from review then ok draft else illegal
transition_question from publish =
    if same from review || same from published then ok published else illegal
transition_question from retire = if same from published then ok retired else illegal

-- A history of events, each applied to the status that the one before it left.
unfoldable pub run : QuestionStatus → List QuestionEvent → Result QuestionStatus DomainErrorCode
run from [] = ok from
run from (ev ∷ evs) = transition_question from ev >>= λ to. run to evs
