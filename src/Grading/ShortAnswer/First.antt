-- ===== src/Grading/ShortAnswer/First.antt =====
-- The first key that matches decides.
use assaybank.Prelude.{
  ◌<◌, ◌≤◌, inl, inr, Bool-cases, ◌≡◌, refl, Bool, true, false, some, List, [], ◌∷◌, ◌++◌, ok, All,
  arith,
}
use assaybank.Prelude.Text.{Text}
use assaybank.Prelude.Doubles.{Ratio}
use assaybank.Grading.Mcq.{ratio_le, millionths}
use assaybank.Grading.Mcq.Bounds.{millionths_le}
use assaybank.Grading.Compare.{Engine, compare_case}
use assaybank.Grading.ShortAnswer.{
  KeyScore, absent, refused, given, AnswerKey, check_keys, awarded, first_match, grade_short_answer,
}

abbrev pub passes : Engine → Text → AnswerKey → Bool
passes engine answer key = (compare_case engine key.mode key.expected answer key.options).passed

first_match-append :
    (engine : Engine) (answer : Text) (before : List AnswerKey) (key : AnswerKey)
    (after : List AnswerKey) (max_score : Ratio)
    → All (λ k. passes engine answer k ≡ false) before
    → passes engine answer key ≡ true
    → first_match engine answer (before ++ (key ∷ after)) max_score ≡ awarded max_score key.score
unfolding first_match
first_match-append engine answer [] key after max_score h k = rw k refl
first_match-append engine answer (b ∷ before) key after max_score h k =
    rw h.0 (first_match-append engine answer before key after max_score h.1 k)

awarded_le :
    (max_score : Ratio) (score : KeyScore)
    → 0 < max_score.den
    → awarded max_score score ≤ millionths max_score
awarded_le max_score (given r) h = elim (Bool-cases (ratio_le max_score r)) [
  | inl e ↦ rw e (omega arith)
  | inr e ↦ rw e (millionths_le r max_score h (ground (arith, e)))
]
awarded_le max_score absent h = omega arith
awarded_le max_score refused h = omega arith

-- The answer is given what the first key that matches is worth, rounded to millionths and at most the
-- maximum as that is rounded, whatever the keys after it say, if no score of a key is refused.
pub grade_short_answer_first :
    (engine : Engine) (answer : Text) (before : List AnswerKey) (key : AnswerKey)
    (after : List AnswerKey) (max_score : Ratio)
    → 0 < max_score.den
    → check_keys (before ++ (key ∷ after)) ≡ true
    → All (λ k. passes engine answer k ≡ false) before
    → passes engine answer key ≡ true
    → (grade_short_answer engine answer (before ++ (key ∷ after)) (some max_score)
        ≡ ok (awarded max_score key.score))
      × (awarded max_score key.score ≤ millionths max_score)
unfolding grade_short_answer
grade_short_answer_first engine answer before key after max_score d c h k = (
  rw (c, first_match-append engine answer before key after max_score h k) refl,
  awarded_le max_score key.score d,
)
