-- ===== src/Grading/Aggregate/Laws.antt =====
-- The score of a submission is a share, and passing more cases never lowers it.
use assaybank.Prelude.{
  ℕ, ◌+◌, ◌*◌, ◌/◌, ◌≤◌, ◌<◌, ◌≡◌, true, false, Bool, Option, List, [], ◌∷◌, ok, arith, Bool-cases,
  inl, inr, ◌==◌,
}
use assaybank.Grading.Aggregate.{score_scale, total_weight, earned_weight, score_submission}

-- Every case that the first results pass, the second pass too.
abbrev pub PassesMore : List Bool → List Bool → Type 0
PassesMore [] [] = Unit
PassesMore (p ∷ ps) (q ∷ qs) = (p ≡ true → q ≡ true) × PassesMore ps qs
PassesMore _ _ = ⊥

earned-le :
    (results : List Bool) (weights : List (Option ℕ))
    → earned_weight results weights ≤ total_weight weights
unfolding earned_weight total_weight
earned-le [] weights = omega arith
earned-le (p ∷ results) [] = omega arith
earned-le (true ∷ results) (w ∷ weights) = omega (arith, earned-le results weights)
earned-le (false ∷ results) (w ∷ weights) = omega (arith, earned-le results weights)

earned_mono :
    (ps qs : List Bool) (weights : List (Option ℕ))
    → PassesMore ps qs
    → earned_weight ps weights ≤ earned_weight qs weights
unfolding earned_weight
earned_mono [] [] weights h = omega arith
earned_mono (p ∷ ps) (q ∷ qs) [] h = omega arith
earned_mono (p ∷ ps) (q ∷ qs) (w ∷ weights) h = ground (arith, h.0, earned_mono ps qs weights h.1)
earned_mono [] (q ∷ qs) weights h = elim h [ ]
earned_mono (p ∷ ps) [] weights h = elim h [ ]

nearest_mono : (a b d : ℕ) → 0 < d → a ≤ b → (2 * a + d) / (2 * d) ≤ (2 * b + d) / (2 * d)
nearest_mono a b d h k = grind arith

nearest_whole : (a d : ℕ) → 0 < d → a ≤ d → (2 * (a * score_scale) + d) / (2 * d) ≤ score_scale
nearest_whole a d h k = grind arith

-- With the same weights, a submission that passes every case that another passes scores at least as
-- much, and no score is above one.
pub score_submission_mono :
    (ps qs : List Bool) (weights : List (Option ℕ)) (s t : ℕ)
    → PassesMore ps qs
    → score_submission ps weights ≡ ok s
    → score_submission qs weights ≡ ok t
    → (s ≤ t) × (t ≤ score_scale)
unfolding score_submission
score_submission_mono ps qs weights s t h e e' = elim (Bool-cases (total_weight weights == 0)) [
  | inl empty ↦ ground arith
  | inr some_weight ↦
      let positive : 0 < total_weight weights = ground arith in
      ground (
        arith,
        nearest_mono (earned_weight ps weights * score_scale)
            (earned_weight qs weights * score_scale) (total_weight weights) positive
            (omega (arith, earned_mono ps qs weights h)),
        nearest_whole (earned_weight qs weights) (total_weight weights) positive
            (earned-le qs weights),
      )
]
