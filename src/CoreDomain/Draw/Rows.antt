-- ===== src/CoreDomain/Draw/Rows.antt =====
-- The rows that a rule selects from a pool: which ones, and no id twice.
use assaybank.Prelude.{
  ◌≡◌, refl, sym, ◌≢◌, ◌↔◌, ◌⊎◌, inl, inr, ◌||◌, not, true, false, List, [], ◌∷◌, any, All, arith,
  subst, Bool-cases,
}
use assaybank.Prelude.Text.{Text, eq_text, eq_text_iff}
use assaybank.CoreDomain.Draw.{SectionRule, DrawCandidate, matches_rule, collect}

abbrev pub Has : DrawCandidate → List DrawCandidate → Type 0
Has e [] = ⊥
Has e (x ∷ xs) = (x ≡ e) ⊎ Has e xs

-- Rows with the same id are the same row, as a snapshot of a table with that key has it.
abbrev pub IsKeyed : List DrawCandidate → Type 0
IsKeyed pool =
    (d e : DrawCandidate)
    → Has d pool
    → Has e pool
    → d.question_version_id ≡ e.question_version_id
    → d ≡ e

-- The id is not among the rows'.
abbrev pub IsFresh : Text → List DrawCandidate → Type 0
IsFresh id rows = All (λ e. e.question_version_id ≢ id) rows

abbrev pub HasDistinctIds : List DrawCandidate → Type 0
HasDistinctIds [] = Unit
HasDistinctIds (x ∷ xs) = IsFresh x.question_version_id xs × HasDistinctIds xs

pub All-of_Has :
    (P : DrawCandidate → Type 0) (xs : List DrawCandidate)
    → ((e : DrawCandidate) → Has e xs → P e)
    → All P xs
All-of_Has P [] h = tt
All-of_Has P (x ∷ xs) h = (h x (inl refl), All-of_Has P xs (λ e k. h e (inr k)))

-- Only rows of the pool that match, with an id that was not selected before.
pub collect_sound :
    (rule : SectionRule) (seen : List Text) (pool : List DrawCandidate) (e : DrawCandidate)
    → Has e (collect rule seen pool)
    → Has e pool × (matches_rule rule e ≡ true) × (any (eq_text e.question_version_id) seen ≡ false)
unfolding collect
collect_sound rule seen [] e h = elim h [ ]
collect_sound rule seen (x ∷ pool) e h = ground (
  arith,
  collect_sound rule seen pool e,
  collect_sound rule (x.question_version_id ∷ seen) pool e,
)

-- Every row of the pool that matches has its id selected, if it was not selected before.
collect_complete :
    (rule : SectionRule) (seen : List Text) (pool : List DrawCandidate) (e : DrawCandidate)
    → Has e pool
    → matches_rule rule e ≡ true
    → any (eq_text e.question_version_id) seen ≡ false
    → (d : DrawCandidate) × Has d (collect rule seen pool)
      × (d.question_version_id ≡ e.question_version_id)
unfolding collect
collect_complete rule seen [] e h m k = elim h [ ]
collect_complete rule seen (x ∷ pool) e (inl h) m k = (x, ground arith, ground arith)
collect_complete rule seen (x ∷ pool) e (inr h) m k =
    elim (Bool-cases (any (eq_text x.question_version_id) seen || not (matches_rule rule x))) [
      | inl skipped ↦ rw skipped (collect_complete rule seen pool e h m k)
      | inr kept ↦ elim (Bool-cases (eq_text e.question_version_id x.question_version_id)) [
        | inl same ↦ (x, rw kept (inl refl), sym ((eq_text_iff _ _).0 same))
        | inr other ↦
            let (d, found, e') =
              collect_complete rule (x.question_version_id ∷ seen) pool e h m (rw other k) in
            (d, rw kept (inr found), e')
      ]
    ]

pub collect_distinct :
    (rule : SectionRule) (seen : List Text) (pool : List DrawCandidate)
    → HasDistinctIds (collect rule seen pool)
unfolding collect
collect_distinct rule seen [] = tt
collect_distinct rule seen (x ∷ pool) =
    elim (Bool-cases (any (eq_text x.question_version_id) seen || not (matches_rule rule x))) [
      | inl skipped ↦ rw skipped (collect_distinct rule seen pool)
      | inr kept ↦ rw kept (
        All-of_Has _ _ (λ e h. fresh e h),
        collect_distinct rule (x.question_version_id ∷ seen) pool,
      )
    ]
  where
    fresh :
        (e : DrawCandidate)
        → Has e (collect rule (x.question_version_id ∷ seen) pool)
        → e.question_version_id ≢ x.question_version_id
    fresh e h same = ground (
      arith,
      collect_sound rule (x.question_version_id ∷ seen) pool e h,
      (eq_text_iff e.question_version_id x.question_version_id).1 same,
    )

-- What is selected from a pool: each row of it that matches the rule, and nothing else.
pub collect_iff :
    (rule : SectionRule) (pool : List DrawCandidate) (e : DrawCandidate)
    → IsKeyed pool
    → Has e (collect rule [] pool) ↔ (Has e pool × (matches_rule rule e ≡ true))
collect_iff rule pool e keyed = (to, from)
  where
    to : Has e (collect rule [] pool) → Has e pool × (matches_rule rule e ≡ true)
    to h = let (a, b, c) = collect_sound rule [] pool e h in (a, b)

    from : Has e pool × (matches_rule rule e ≡ true) → Has e (collect rule [] pool)
    from (h, m) =
        let (d, found, same) = collect_complete rule [] pool e h m refl in
        let (held, rest, done) = collect_sound rule [] pool d found in
        subst (λ x. Has x (collect rule [] pool)) (keyed d e held h same) found
