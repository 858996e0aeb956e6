-- ===== src/CoreDomain/Question/Laws.antt =====
-- What the authoring lifecycle guarantees about the questions that may be served.
use assaybank.Prelude.{◌≡◌, refl, ◌≢◌, ◌↔◌, ◌⊎◌, inl, inr, true, List, [], ◌∷◌, ◌++◌, ok, arith, ap}
use assaybank.CoreDomain.Question.{
  QuestionStatus, draft, review, published, retired, QuestionEvent, submit_for_review,
  request_changes, publish, retire, can_transition_question, is_terminal_question_status,
  is_servable_status, transition_question, run,
}

-- The event that crosses an edge.
event_for : QuestionStatus → QuestionEvent
event_for draft = request_changes
event_for review = submit_for_review
event_for published = publish
event_for retired = retire

-- `can_transition_question` is true of two statuses exactly when some event takes the one to the
-- other.
pub can_transition_question_iff :
    (from to : QuestionStatus)
    → (can_transition_question from to ≡ true)
      ↔ ((ev : QuestionEvent) × (transition_question from ev ≡ ok to))
unfolding can_transition_question transition_question event_for
can_transition_question_iff from to = (λ h. (event_for to, ground arith), λ t. sound t.0 t.1)
  where
    sound :
        (ev : QuestionEvent)
        → transition_question from ev ≡ ok to
        → can_transition_question from to ≡ true
    sound ev h = ground arith

-- A question that has been withdrawn accepts no event, and no other status is so.
pub is_terminal_question_status_iff :
    (s : QuestionStatus)
    → (is_terminal_question_status s ≡ true)
      ↔ ((ev : QuestionEvent) (to : QuestionStatus) → transition_question s ev ≢ ok to)
unfolding is_terminal_question_status transition_question event_for
is_terminal_question_status_iff s = (λ h ev to. ground arith, refuses s)
  where
    refuses :
        (s : QuestionStatus)
        → ((ev : QuestionEvent) (to : QuestionStatus) → transition_question s ev ≢ ok to)
        → is_terminal_question_status s ≡ true
    refuses draft h = absurd (h submit_for_review review refl)
    refuses review h = absurd (h publish published refl)
    refuses published h = absurd (h retire retired refl)
    refuses retired h = refl

-- Whatever happens to a question that has been published, it is never again a draft or in review.
pub run-published :
    (evs : List QuestionEvent) (s : QuestionStatus)
    → run published evs ≡ ok s
    → (s ≡ published) ⊎ (s ≡ retired)
unfolding run transition_question
run-published [] s h = inl (ground arith)
run-published (publish ∷ evs) s h = run-published evs s h
run-published (retire ∷ []) s h = inr (ground arith)
run-published (retire ∷ submit_for_review ∷ evs) s h = cc
run-published (retire ∷ _ ∷ evs) s h = cc
run-published (_ ∷ evs) s h = cc

-- The events hold a submission for review directly followed by a publication.
abbrev pub HasReviewedPublish : List QuestionEvent → Type 0
HasReviewedPublish evs =
    (before after : List QuestionEvent) × (evs ≡ before ++ (submit_for_review ∷ publish ∷ after))

run_draft_published :
    (evs : List QuestionEvent) → run draft evs ≡ ok published → HasReviewedPublish evs
unfolding run transition_question
run_draft_published [] h = cc
run_draft_published (submit_for_review ∷ []) h = cc
run_draft_published (submit_for_review ∷ publish ∷ evs) h = ([], evs, refl)
run_draft_published (submit_for_review ∷ request_changes ∷ evs) h =
    let (before, after, e) = run_draft_published evs h in
    (
      submit_for_review ∷ request_changes ∷ before,
      after,
      ap (λ l. submit_for_review ∷ request_changes ∷ l) e,
    )
run_draft_published (submit_for_review ∷ _ ∷ evs) h = cc
run_draft_published (_ ∷ evs) h = cc

-- A question written as a draft can be served only if its history has a submission for review that
-- was directly followed by a publication. (Later versions are published without another review.)
pub servable_reviewed :
    (evs : List QuestionEvent) (s : QuestionStatus)
    → run draft evs ≡ ok s
    → is_servable_status s ≡ true
    → HasReviewedPublish evs
unfolding is_servable_status
servable_reviewed evs published h e = run_draft_published evs h
servable_reviewed evs _ h e = cc
