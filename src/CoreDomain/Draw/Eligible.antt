-- ===== src/CoreDomain/Draw/Eligible.antt =====
-- The eligible rows are those of the pool that match, in an order of their own.
use assaybank.Prelude.{◌≡◌, ◌↔◌, true, List, [], length}
use assaybank.CoreDomain.Draw.{SectionRule, DrawCandidate, matches_rule, collect, eligible}
use assaybank.CoreDomain.Draw.Rows.{Has, IsKeyed, collect_iff, collect_distinct}
use assaybank.CoreDomain.Draw.Sorted.{IsSorted, IsSorted-ext, sort_by_id-Has, sort_by_id-IsSorted}

-- Two pools of the same size hold the same rows.
abbrev pub SameRows : List DrawCandidate → List DrawCandidate → Type 0
SameRows pool pool' =
    ((e : DrawCandidate) → Has e pool ↔ Has e pool') × (length pool ≡ length pool')

pub eligible-IsSorted :
    (rule : SectionRule) (pool : List DrawCandidate) → IsSorted (eligible rule pool)
unfolding eligible
eligible-IsSorted rule pool = sort_by_id-IsSorted _ (collect_distinct rule [] pool)

pub eligible_iff :
    (rule : SectionRule) (pool : List DrawCandidate) (e : DrawCandidate)
    → IsKeyed pool
    → Has e (eligible rule pool) ↔ (Has e pool × (matches_rule rule e ≡ true))
unfolding eligible
eligible_iff rule pool e keyed =
    let (a, b) = sort_by_id-Has e (collect rule [] pool) in
    let (c, d) = collect_iff rule pool e keyed in (λ h. c (a h), λ h. b (d h))

pub eligible-SameRows :
    (rule : SectionRule) (pool pool' : List DrawCandidate)
    → IsKeyed pool
    → SameRows pool pool'
    → eligible rule pool ≡ eligible rule pool'
eligible-SameRows rule pool pool' keyed (same, n) =
    IsSorted-ext _ _ (eligible-IsSorted rule pool) (eligible-IsSorted rule pool') λ e.
      let (a, b) = eligible_iff rule pool e keyed in
      let (c, d) = eligible_iff rule pool' e keyed' in
      (λ h. d ((same e).0 (a h).0, (a h).1), λ h. b ((same e).1 (c h).0, (c h).1))
  where
    keyed' : IsKeyed pool'
    keyed' d e hd he p = keyed d e ((same d).1 hd) ((same e).1 he) p
