-- ===== src/CoreDomain/Draw.antt =====
-- packages/core-domain/src/draw.ts: one section rule resolved against a pool. Ids are texts; the
-- days since a version was seen are a natural number; `Set.has` and `sort` are written out.
pub mod Rows
pub mod Sorted
pub mod Valid
pub mod Eligible
pub mod Resolve
use assaybank.Prelude.{
  ℕ, ◌||◌, ◌&&◌, not, Bool, true, false, Option, none, some, List, [], ◌∷◌, Result, ok, err, length,
  any, take, if◌then◌else◌,
}
use assaybank.Prelude.Num.{Num, is_integer, is_finite, is_negative, lt_num, to_nat, nat}
use assaybank.Prelude.Text.{Text, eq_text, lt_text}
use assaybank.CoreDomain.Errors.{DomainError, invalid_rule, draw_infeasible, domain_error}
use assaybank.CoreDomain.Kinds.{QuestionKind, same_kind}
use assaybank.CoreDomain.Shuffle.{Rng, shuffle_with}

abbrev pub min_bound : Num
min_bound = nat 1

abbrev pub max_bound : Num
max_bound = nat 5

pub record SectionRule : Type 0 where
  pub pick_count : Num
  pub skill_ids : List Text
  pub kinds : List QuestionKind
  pub min_difficulty : Num
  pub max_difficulty : Num
  pub exclude_seen_days : Num
  pub score_per_question : Num

pub record DrawCandidate : Type 0 where
  pub question_version_id : Text
  pub skill_ids : List Text
  pub kind : QuestionKind
  pub difficulty : Num
  pub last_seen_days_ago : Option ℕ

-- The guards of `validateRule`, in their order.
abbrev pub bad_pick_count : SectionRule → Bool
bad_pick_count rule = not (is_integer rule.pick_count) || not (lt_num (nat 0) rule.pick_count)

abbrev pub bad_bounds : SectionRule → Bool
bad_bounds rule =
    not (is_integer rule.min_difficulty)
    || not (is_integer rule.max_difficulty)
    || lt_num rule.min_difficulty min_bound
    || lt_num max_bound rule.max_difficulty

abbrev pub bad_order : SectionRule → Bool
bad_order rule = lt_num rule.max_difficulty rule.min_difficulty

abbrev pub bad_days : SectionRule → Bool
bad_days rule = not (is_integer rule.exclude_seen_days) || is_negative rule.exclude_seen_days

abbrev pub bad_score : SectionRule → Bool
bad_score rule = not (is_finite rule.score_per_question) || is_negative rule.score_per_question

unfoldable pub validate_rule : SectionRule → Option DomainError
validate_rule rule =
    if bad_pick_count rule
    then some (domain_error invalid_rule)
    else if bad_bounds rule
    then some (domain_error invalid_rule)
    else if bad_order rule
    then some (domain_error invalid_rule)
    else if bad_days rule
    then some (domain_error invalid_rule)
    else if bad_score rule
    then some (domain_error invalid_rule)
    else none

-- `list.length > 0`.
abbrev nonempty {ℓ} : {A : Type ℓ} → List A → Bool
nonempty [] = false
nonempty (x ∷ xs) = true

-- The entry was seen fewer days ago than the rule allows.
unfoldable pub too_recent : Num → Option ℕ → Bool
too_recent days none = false
too_recent days (some seen) = lt_num (nat 0) days && lt_num (nat seen) days

unfoldable pub matches_rule : SectionRule → DrawCandidate → Bool
unfolding same_kind eq_text too_recent
matches_rule rule entry =
    if not (is_integer entry.difficulty)
    then false
    else if lt_num entry.difficulty rule.min_difficulty
        || lt_num rule.max_difficulty entry.difficulty
    then false
    else if nonempty rule.kinds && not (any (same_kind entry.kind) rule.kinds)
    then false
    else if nonempty rule.skill_ids
        && not (any (λ skill. any (eq_text skill) rule.skill_ids) entry.skill_ids)
    then false
    else not (too_recent rule.exclude_seen_days entry.last_seen_days_ago)

-- The loop over the pool, with the ids that are already in.
unfoldable pub collect : SectionRule → List Text → List DrawCandidate → List DrawCandidate
collect rule seen [] = []
collect rule seen (entry ∷ pool) =
    let skipped = collect rule seen pool in
    let kept = entry ∷ collect rule (entry.question_version_id ∷ seen) pool in
    if any (eq_text entry.question_version_id) seen || not (matches_rule rule entry)
    then skipped
    else kept

-- The sort by id: a stable insertion.
unfoldable pub insert_by_id : DrawCandidate → List DrawCandidate → List DrawCandidate
insert_by_id x [] = x ∷ []
insert_by_id x (y ∷ ys) =
    if lt_text y.question_version_id x.question_version_id
    then y ∷ insert_by_id x ys
    else x ∷ y ∷ ys

unfoldable pub sort_by_id : List DrawCandidate → List DrawCandidate
unfolding insert_by_id lt_text
sort_by_id [] = []
sort_by_id (x ∷ xs) = insert_by_id x (sort_by_id xs)

unfoldable pub eligible : SectionRule → List DrawCandidate → List DrawCandidate
unfolding collect sort_by_id matches_rule
eligible rule pool = sort_by_id (collect rule [] pool)

abbrev pub infeasible : SectionRule → ℕ → ℕ → DomainError
infeasible rule pickable pool_size = record {
  code = draw_infeasible;
  pick_count = to_nat rule.pick_count;
  eligible_count = pickable;
  pool_size = pool_size;
}

-- The draw from a rule that is valid.
unfoldable pub draw_from :
    SectionRule → List DrawCandidate → ℕ → Rng → Result (List DrawCandidate) DomainError
unfolding shuffle_with
draw_from rule pickable pool_size rng =
    if lt_num (nat (length pickable)) rule.pick_count
    then err (infeasible rule (length pickable) pool_size)
    else ok (take (to_nat rule.pick_count) (shuffle_with rng pickable))

unfoldable pub resolve_draw :
    SectionRule → List DrawCandidate → Rng → Result (List DrawCandidate) DomainError
unfolding validate_rule eligible draw_from
resolve_draw rule pool rng = elim (validate_rule rule) [
  | some invalid ↦ err invalid
  | none ↦ draw_from rule (eligible rule pool) (length pool) rng
]
