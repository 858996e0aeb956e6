-- ===== src/Grading/Aggregate.antt =====
-- packages/grading/src/aggregate.ts, `scoreSubmission`: the share of a submission's weighted cases
-- that passed. Weights are whole in some unit, so that the sums and the quotient are exact; a weight
-- that `assertFiniteAtLeast` refuses is none. A score is in millionths, in which `roundScore` rounds.
pub mod Laws
use assaybank.Prelude.{
  ℕ, ◌+◌, ◌*◌, Bool, true, false, not, Option, none, some, List, [], ◌∷◌, Result, ok, err, length,
  any, ◌==◌, if◌then◌else◌,
}
use assaybank.Grading.Mcq.{nearest}

pub data AggregateError : Type 0 where
  length_mismatch bad_weight : AggregateError

abbrev pub score_scale : ℕ
score_scale = 1_000_000

abbrev weight_of : Option ℕ → ℕ
weight_of none = 0
weight_of (some w) = w

abbrev is_bad : Option ℕ → Bool
is_bad none = true
is_bad (some w) = false

-- The two sums of the loop.
unfoldable pub total_weight : List (Option ℕ) → ℕ
total_weight [] = 0
total_weight (w ∷ weights) = weight_of w + total_weight weights

unfoldable pub earned_weight : List Bool → List (Option ℕ) → ℕ
earned_weight (passed ∷ results) (w ∷ weights) =
    (if passed then weight_of w else 0) + earned_weight results weights
earned_weight _ _ = 0

unfoldable pub score_submission : List Bool → List (Option ℕ) → Result ℕ AggregateError
unfolding total_weight earned_weight
score_submission results weights =
    if not (length results == length weights)
    then err length_mismatch
    else if any is_bad weights
    then err bad_weight
    else if total_weight weights == 0
    then ok 0
    else ok (nearest (earned_weight results weights * score_scale) (total_weight weights))
