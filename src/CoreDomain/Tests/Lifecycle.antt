-- ===== src/CoreDomain/Tests/Lifecycle.antt =====
-- The lifecycles and the deadline at concrete inputs.
use assaybank.Prelude.{
  ℕ, ◌+◌, ◌*◌, ◌≤◌, ◌<◌, ◌≡◌, refl, ◌↔◌, true, false, some, List, [], ◌∷◌, ok, err, length, arith,
}
use assaybank.Prelude.Int.{pos}
use assaybank.Prelude.Doubles.{exact, exact-IsRounding}
use assaybank.Prelude.Num.{nat}
use assaybank.Prelude.Text.{trim}
use assaybank.CoreDomain.Errors.{already_voided, void_reason_required}
use assaybank.CoreDomain.Attempt.{
  AttemptStatus, created, in_progress, submitted, auto_graded, finalised, voided, start, submit,
  grade_complete, void, transition,
}
use assaybank.CoreDomain.Attempt.Edges.{Step, transition_iff}
use assaybank.CoreDomain.Attempt.History.{
  History, begin, next, Earned, History-Earned, History-length,
}
use assaybank.CoreDomain.Question.{
  draft, transition_question, is_servable_status, QuestionEvent, submit_for_review, request_changes,
  publish, retire, published, retired, run,
}
use assaybank.CoreDomain.Question.Laws.{servable_reviewed, HasReviewedPublish}
use assaybank.CoreDomain.Deadline.{
  total_seconds, date_of, ratio, compute_deadline, is_past_deadline, seconds_remaining,
}
use assaybank.CoreDomain.Deadline.Laws.{compute_deadline_lem, seconds_remaining_bounds}

-- An attempt that is begun, submitted, graded and finalised.
abbrev statuses : List AttemptStatus
statuses = finalised ∷ auto_graded ∷ submitted ∷ in_progress ∷ created ∷ []

sat : History finalised statuses
unfolding transition
sat =
    next (grade_complete false)
      (next (grade_complete false) (next submit (next start begin refl) refl) refl) refl

History-Earned_example : Earned finalised statuses
History-Earned_example = History-Earned sat

History-length_example : length statuses ≤ 7
History-length_example = History-length sat

transition_iff_example :
    (transition auto_graded (grade_complete true) ≡ ok finalised)
    ↔ Step auto_graded (grade_complete true) finalised
transition_iff_example = transition_iff auto_graded finalised (grade_complete true)

void_again : transition voided (void (b'x' ∷ [])) ≡ err already_voided
unfolding transition trim
void_again = refl

void_blank : transition created (void (b' ' ∷ [])) ≡ err void_reason_required
unfolding transition trim
void_blank = refl

-- A question that is sent back once, published and corrected.
abbrev authored : List QuestionEvent
authored = submit_for_review ∷ request_changes ∷ submit_for_review ∷ publish ∷ publish ∷ []

authored-run : run draft authored ≡ ok published
unfolding run transition_question
authored-run = refl

published_served : is_servable_status published ≡ true
unfolding is_servable_status
published_served = refl

servable_reviewed_example : HasReviewedPublish authored
servable_reviewed_example = servable_reviewed authored published authored-run published_served

withdrawn : run published (publish ∷ retire ∷ []) ≡ ok retired
unfolding run transition_question
withdrawn = refl

-- Ninety minutes with a quarter more.
compute_deadline_lem_example :
    (total : ℕ) × (compute_deadline exact (some 1000) (nat 50_000) (ratio (pos 2802) 99)
      ≡ ok (date_of (1000 + total * 1000)))
    × (50_000 * (100 + 28) ≤ total * 100)
    × (total * 100 < 50_000 * (100 + 29) + 100)
compute_deadline_lem_example =
    compute_deadline_lem exact exact-IsRounding 1000 50_000 2802 99 28 29 (omega arith)
      (omega arith) (omega arith) (omega arith) (omega arith)

ninety_minutes :
    compute_deadline exact (some 1000) (nat 5400) (ratio (pos 25) 0) ≡ ok (some 6_751_000)
unfolding compute_deadline total_seconds
ninety_minutes = refl

too_late : is_past_deadline (some 6_751_000) (some 6_751_001) ≡ ok true
unfolding is_past_deadline
too_late = refl

abbrev one : ℕ
one = 1

half_second_left : seconds_remaining (some 6_751_000) (some 6_750_500) ≡ ok one
unfolding seconds_remaining
half_second_left = refl

-- A millisecond more than a second is shown as two.
two_left : seconds_remaining (some 10_000) (some 8_999) ≡ ok 2
unfolding seconds_remaining
two_left = refl

abbrev two : ℕ
two = 2

seconds_remaining_bounds_example :
    (10_000 ≤ 8_999 + 2 * 1000)
    × ((two ≡ 0) ↔ (10_000 ≤ 8_999))
    × (8_999 < 10_000 → 8_999 + two * 1000 < 10_000 + 1000)
seconds_remaining_bounds_example = seconds_remaining_bounds 10_000 8_999 2 two_left
