-- ===== src/CoreDomain/Attempt/Edges.antt =====
-- The transition function, the map of edges and the documented diagram agree.
use assaybank.Prelude.{
  ◌≡◌, refl, ◌≢◌, ◌↔◌, Bool, true, false, ok, arith, ok-injective, length, [], ◌∷◌, subst,
}
use assaybank.Prelude.Text.{Text, trim}
use assaybank.CoreDomain.Attempt.{
  AttemptStatus, created, in_progress, submitted, expired, auto_graded, under_review, finalised,
  voided, AttemptEvent, start, submit, expire, grade_complete, review_complete, void,
  can_transition, is_terminal_status, transition,
}

-- The arrows of the lifecycle diagram of docs/03-API-spec.md, section 8.
pub data Step : AttemptStatus → AttemptEvent → AttemptStatus → Type 0 where
  starts : Step created start in_progress
  submits : Step in_progress submit submitted
  expires : Step in_progress expire expired
  grades_submitted : (b : Bool) → Step submitted (grade_complete b) auto_graded
  grades_expired : (b : Bool) → Step expired (grade_complete b) auto_graded
  needs_review : Step auto_graded (grade_complete true) under_review
  needs_no_review : Step auto_graded (grade_complete false) finalised
  reviews : Step under_review review_complete finalised
  voids :
      {from : AttemptStatus} (reason : Text)
      → from ≢ voided
      → length (trim reason) ≢ 0
      → Step from (void reason) voided

Step-transition :
    {from to : AttemptStatus} {ev : AttemptEvent} → Step from ev to → transition from ev ≡ ok to
unfolding transition
Step-transition starts = refl
Step-transition submits = refl
Step-transition expires = refl
Step-transition (grades_submitted b) = refl
Step-transition (grades_expired b) = refl
Step-transition needs_review = refl
Step-transition needs_no_review = refl
Step-transition reviews = refl
Step-transition (voids reason h k) = ground arith

transition-Step :
    (from to : AttemptStatus) (ev : AttemptEvent) → transition from ev ≡ ok to → Step from ev to
unfolding transition
transition-Step created to start h = subst (Step created start) (ok-injective h) starts
transition-Step in_progress to submit h = subst (Step in_progress submit) (ok-injective h) submits
transition-Step in_progress to expire h = subst (Step in_progress expire) (ok-injective h) expires
transition-Step submitted to (grade_complete b) h =
    subst (Step submitted (grade_complete b)) (ok-injective h) (grades_submitted b)
transition-Step expired to (grade_complete b) h =
    subst (Step expired (grade_complete b)) (ok-injective h) (grades_expired b)
transition-Step auto_graded to (grade_complete true) h =
    subst (Step auto_graded (grade_complete true)) (ok-injective h) needs_review
transition-Step auto_graded to (grade_complete false) h =
    subst (Step auto_graded (grade_complete false)) (ok-injective h) needs_no_review
transition-Step under_review to review_complete h =
    subst (Step under_review review_complete) (ok-injective h) reviews
transition-Step from to (void reason) h =
    let e : voided ≡ to = ground arith in
    subst (Step from (void reason)) e (voids reason (λ v. ground arith) (λ k. ground arith))
transition-Step _ to _ h = cc

-- An event takes a status to another exactly when the documented diagram has that arrow; a void
-- wants a reason that is not blank and a status other than `voided`.
pub transition_iff :
    (from to : AttemptStatus) (ev : AttemptEvent) → (transition from ev ≡ ok to) ↔ Step from ev to
transition_iff from to ev = (transition-Step from to ev, Step-transition)

abbrev reason_x : Text
reason_x = 120 ∷ []

-- The event that crosses an edge.
event_for : AttemptStatus → AttemptStatus → AttemptEvent
event_for from in_progress = start
event_for from submitted = submit
event_for from expired = expire
event_for from auto_graded = grade_complete false
event_for from under_review = grade_complete true
event_for under_review finalised = review_complete
event_for from finalised = grade_complete false
event_for from _ = void reason_x

edge-transition :
    (from to : AttemptStatus)
    → can_transition from to ≡ true
    → transition from (event_for from to) ≡ ok to
unfolding can_transition transition event_for trim
edge-transition from to h = ground arith

transition-edge :
    {from to : AttemptStatus} {ev : AttemptEvent} → Step from ev to → can_transition from to ≡ true
unfolding can_transition
transition-edge starts = refl
transition-edge submits = refl
transition-edge expires = refl
transition-edge (grades_submitted b) = refl
transition-edge (grades_expired b) = refl
transition-edge needs_review = refl
transition-edge needs_no_review = refl
transition-edge reviews = refl
transition-edge (voids {from} reason h k) = ground arith

-- `can_transition` is true of two statuses exactly when some event takes the one to the other.
pub can_transition_iff :
    (from to : AttemptStatus)
    → (can_transition from to ≡ true) ↔ ((ev : AttemptEvent) × (transition from ev ≡ ok to))
can_transition_iff from to = (
  λ h. (event_for from to, edge-transition from to h),
  λ t. transition-edge (transition-Step from to t.0 t.1),
)

terminal_refuses :
    (s to : AttemptStatus) (ev : AttemptEvent)
    → is_terminal_status s ≡ true
    → transition s ev ≢ ok to
unfolding is_terminal_status transition
terminal_refuses s to ev h e = ground arith

-- A status that is not terminal can be voided.
refuses_terminal :
    (s : AttemptStatus)
    → ((ev : AttemptEvent) (to : AttemptStatus) → transition s ev ≢ ok to)
    → is_terminal_status s ≡ true
unfolding is_terminal_status transition trim
refuses_terminal voided h = refl
refuses_terminal created h = absurd (h (void reason_x) voided refl)
refuses_terminal _ h = absurd (h (void reason_x) voided refl)

-- A status is terminal exactly when every event on it fails, and `voided` is the only one.
pub is_terminal_status_iff :
    (s : AttemptStatus)
    → ((is_terminal_status s ≡ true)
        ↔ ((ev : AttemptEvent) (to : AttemptStatus) → transition s ev ≢ ok to))
      × ((is_terminal_status s ≡ true) ↔ (s ≡ voided))
unfolding is_terminal_status
is_terminal_status_iff s =
    ((λ h ev to. terminal_refuses s to ev h, refuses_terminal s), ground arith)
