-- ===== src/CoreDomain/Attempt.antt =====
-- packages/core-domain/src/attempt-state.ts: the lifecycle of an attempt. A void's reason is a
-- text of UTF-16 code units. Error messages and details are left out, the code is kept.
pub mod Edges
pub mod History
use assaybank.Prelude.{
  ◌||◌, Bool, true, false, List, [], ◌∷◌, Result, ok, err, length, any, ◌==◌, if◌then◌else◌,
}
use assaybank.Prelude.Text.{Text, trim}
use assaybank.CoreDomain.Errors.{
  DomainErrorCode, illegal_transition, void_reason_required, already_voided,
}

pub data AttemptStatus : Type 0 where
  created in_progress submitted expired auto_graded under_review finalised voided : AttemptStatus

pub data AttemptEvent : Type 0 where
  start submit expire : AttemptEvent
  grade_complete : Bool → AttemptEvent
  review_complete : AttemptEvent
  void : Text → AttemptEvent

-- `===` on statuses.
unfoldable pub same : AttemptStatus → AttemptStatus → Bool
same created created = true
same in_progress in_progress = true
same submitted submitted = true
same expired expired = true
same auto_graded auto_graded = true
same under_review under_review = true
same finalised finalised = true
same voided voided = true
same _ _ = false

unfoldable pub edges : AttemptStatus → List AttemptStatus
edges created = in_progress ∷ voided ∷ []
edges in_progress = submitted ∷ expired ∷ voided ∷ []
edges submitted = auto_graded ∷ voided ∷ []
edges expired = auto_graded ∷ voided ∷ []
edges auto_graded = under_review ∷ finalised ∷ voided ∷ []
edges under_review = finalised ∷ voided ∷ []
edges finalised = voided ∷ []
edges voided = []

unfoldable pub can_transition : AttemptStatus → AttemptStatus → Bool
unfolding edges same
can_transition from to = any (same to) (edges from)

unfoldable pub is_terminal_status : AttemptStatus → Bool
unfolding edges
is_terminal_status status = length (edges status) == 0

abbrev illegal : Result AttemptStatus DomainErrorCode
illegal = err illegal_transition

unfoldable pub transition : AttemptStatus → AttemptEvent → Result AttemptStatus DomainErrorCode
unfolding same
transition from (void reason) =
    if length (trim reason) == 0
    then err void_reason_required
    else if same from voided
    then err already_voided
    else ok voided
transition from start = if same from created then ok in_progress else illegal
transition from submit = if same from in_progress then ok submitted else illegal
transition from expire = if same from in_progress then ok expired else illegal
transition from (grade_complete needs_human_review) =
    if same from submitted || same from expired
    then ok auto_graded
    else if same from auto_graded
    then ok (if needs_human_review then under_review else finalised)
    else illegal
transition from review_complete = if same from under_review then ok finalised else illegal
