-- ===== src/CoreDomain/Attempt/History.antt =====
-- Histories of an attempt: sequences of events from `created`.
use assaybank.Prelude.{ℕ, ◌≤◌, ◌<◌, ◌≡◌, refl, ◌⊎◌, inl, inr, ok, arith, length, List, [], ◌∷◌}
use assaybank.CoreDomain.Attempt.{
  AttemptStatus, created, in_progress, submitted, expired, auto_graded, under_review, finalised,
  voided, AttemptEvent, transition,
}
use assaybank.CoreDomain.Attempt.Edges.{
  Step, transition_iff, starts, submits, expires, grades_submitted, grades_expired, needs_review,
  needs_no_review, reviews, voids,
}

-- A history in which every event is accepted; it yields the statuses that it went through, the
-- first one included.
pub data History : AttemptStatus → List AttemptStatus → Type 0 where
  begin : History created (created ∷ [])
  next :
      {s t : AttemptStatus} {seen : List AttemptStatus} (ev : AttemptEvent)
      → History s seen
      → transition s ev ≡ ok t
      → History t (t ∷ seen)

-- How far along the lifecycle a status stands.
abbrev rank : AttemptStatus → ℕ
rank created = 1
rank in_progress = 2
rank submitted = 3
rank expired = 3
rank auto_graded = 4
rank under_review = 5
rank finalised = 6
rank voided = 7

Step-rank : {s t : AttemptStatus} {ev : AttemptEvent} → Step s ev t → rank s < rank t
Step-rank starts = omega arith
Step-rank submits = omega arith
Step-rank expires = omega arith
Step-rank (grades_submitted b) = omega arith
Step-rank (grades_expired b) = omega arith
Step-rank needs_review = omega arith
Step-rank needs_no_review = omega arith
Step-rank reviews = omega arith
Step-rank (voids {from = created} reason h k) = omega arith
Step-rank (voids {from = in_progress} reason h k) = omega arith
Step-rank (voids {from = submitted} reason h k) = omega arith
Step-rank (voids {from = expired} reason h k) = omega arith
Step-rank (voids {from = auto_graded} reason h k) = omega arith
Step-rank (voids {from = under_review} reason h k) = omega arith
Step-rank (voids {from = finalised} reason h k) = omega arith
Step-rank (voids {from = voided} reason h k) = absurd (h refl)

History-rank :
    {s : AttemptStatus} {seen : List AttemptStatus} → History s seen → length seen ≤ rank s
History-rank begin = omega arith
History-rank (next {s = s} {t = t} ev h e) =
    omega (arith, History-rank h, Step-rank ((transition_iff s t ev).0 e))

rank-le : (s : AttemptStatus) → rank s ≤ 7
rank-le s = ground arith

-- No history accepts more than six events: the lifecycle has no cycle.
pub History-length :
    {s : AttemptStatus} {seen : List AttemptStatus} → History s seen → length seen ≤ 7
History-length {s} h = omega (arith, History-rank h, rank-le s)

abbrev pub Visited : AttemptStatus → List AttemptStatus → Type 0
Visited s [] = ⊥
Visited s (t ∷ seen) = (t ≡ s) ⊎ Visited s seen

-- The attempt was handed in or ran out of time.
abbrev pub IsDelivered : List AttemptStatus → Type 0
IsDelivered seen = Visited submitted seen ⊎ Visited expired seen

-- What a history must have gone through to stand at a status.
abbrev pub Earned : AttemptStatus → List AttemptStatus → Type 0
Earned created seen = Visited created seen
Earned in_progress seen = Visited in_progress seen
Earned submitted seen = IsDelivered seen × Visited in_progress seen
Earned expired seen = IsDelivered seen × Visited in_progress seen
Earned auto_graded seen = Visited auto_graded seen × IsDelivered seen × Visited in_progress seen
Earned under_review seen = Visited auto_graded seen × IsDelivered seen × Visited in_progress seen
Earned finalised seen = Visited auto_graded seen × IsDelivered seen × Visited in_progress seen
Earned voided seen = Unit

Step-Earned :
    {s t : AttemptStatus} {ev : AttemptEvent} (seen : List AttemptStatus)
    → Step s ev t
    → Earned s seen
    → Earned t (t ∷ seen)
Step-Earned seen starts h = inl refl
Step-Earned seen submits h = (inl (inl refl), inr h)
Step-Earned seen expires h = (inr (inl refl), inr h)
Step-Earned seen (grades_submitted b) h = ground arith
Step-Earned seen (grades_expired b) h = ground arith
Step-Earned seen needs_review h = ground arith
Step-Earned seen needs_no_review h = ground arith
Step-Earned seen reviews h = ground arith
Step-Earned seen (voids reason h k) e = tt

-- No attempt is graded, reviewed or finalised unless it was begun, then submitted or expired, and
-- (to be reviewed or finalised) graded on the way.
pub History-Earned :
    {s : AttemptStatus} {seen : List AttemptStatus} → History s seen → Earned s seen
History-Earned begin = inl refl
History-Earned (next {s = s} {t = t} {seen = seen} ev h e) =
    Step-Earned seen ((transition_iff s t ev).0 e) (History-Earned h)
