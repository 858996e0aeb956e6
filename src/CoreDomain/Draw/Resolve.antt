-- ===== src/CoreDomain/Draw/Resolve.antt =====
-- What a draw promises: the rows it serves, when it refuses, and that the order of the pool's rows
-- plays no part.
use mathlib.Core.List.{
  Mem, mem-cons, mem-cons_of_mem, not-mem-nil, Nodup, Nodup-cons, Nodup-nil, Mem-prop,
  mem-cons_self,
}
use mathlib.Core.List.Perm
use mathlib.Core.Logic.Or
use assaybank.Prelude.{
  ℕ, zero, suc, ◌≤◌, ◌≡◌, refl, sym, ◌↔◌, inl, inr, true, List, [], ◌∷◌, length, All, take,
  length-take, map, ok, arith, subst, Option-cases,
}
use assaybank.Prelude.Num.{nat, to_nat}
use assaybank.Prelude.Text.{Text, lt_text, lt_text_irrefl}
use assaybank.CoreDomain.Shuffle.{Rng, shuffle_with, shuffle_with-Perm, length-shuffle_with}
use assaybank.CoreDomain.Draw.{
  SectionRule, DrawCandidate, matches_rule, collect, eligible, validate_rule, resolve_draw,
}
use assaybank.CoreDomain.Draw.Rows.{Has, IsKeyed, All-of_Has, collect_sound}
use assaybank.CoreDomain.Draw.Valid.{IsValidRule, validate_rule_sound, validate_rule_complete}
use assaybank.CoreDomain.Draw.Sorted.{IsSorted, sort_by_id-Has}
use assaybank.CoreDomain.Draw.Eligible.{SameRows, eligible-IsSorted, eligible-SameRows}

-- A draw is a function of the rule, the rows of the pool and the generator: the order in which the
-- rows come plays no part, whether the draw succeeds or fails, if rows with the same id are the same.
pub resolve_draw-SameRows :
    (rule : SectionRule) (pool pool' : List DrawCandidate) (rng : Rng)
    → IsKeyed pool
    → SameRows pool pool'
    → resolve_draw rule pool rng ≡ resolve_draw rule pool' rng
unfolding resolve_draw
resolve_draw-SameRows rule pool pool' rng keyed same =
    cc (eligible-SameRows rule pool pool' keyed same, same.1)

-- A draw succeeds exactly if its rule is valid and the pool has enough rows for it.
pub resolve_draw_iff :
    (rule : SectionRule) (pool : List DrawCandidate) (rng : Rng)
    → ((drawn : List DrawCandidate) × (resolve_draw rule pool rng ≡ ok drawn))
      ↔ (IsValidRule rule × (to_nat rule.pick_count ≤ length (eligible rule pool)))
unfolding resolve_draw
resolve_draw_iff rule pool rng = (to, from)
  where
    to :
        (drawn : List DrawCandidate) × (resolve_draw rule pool rng ≡ ok drawn)
        → IsValidRule rule × (to_nat rule.pick_count ≤ length (eligible rule pool))
    to (drawn, h) = elim (Option-cases (validate_rule rule)) [
      | inl valid ↦ let v = validate_rule_sound rule valid in (v, ground (arith, v.picks))
      | inr (e, invalid) ↦ ground arith
    ]

    from :
        IsValidRule rule × (to_nat rule.pick_count ≤ length (eligible rule pool))
        → (drawn : List DrawCandidate) × (resolve_draw rule pool rng ≡ ok drawn)
    from (v, enough) = (
      take (to_nat rule.pick_count) (shuffle_with rng (eligible rule pool)),
      ground (arith, validate_rule_complete rule v, v.picks),
    )

-- A row may be served: it is in the pool, and it matches the rule.
abbrev pub IsDrawable : SectionRule → List DrawCandidate → DrawCandidate → Type 0
IsDrawable rule pool e = Mem e pool × (matches_rule rule e ≡ true)

IsDrawable-prop :
    (rule : SectionRule) (pool : List DrawCandidate) (e : DrawCandidate)
    → IsProp (IsDrawable rule pool e)
IsDrawable-prop rule pool e = hlevel Mem-prop

Mem_of_Has : (e : DrawCandidate) (xs : List DrawCandidate) → Has e xs → Mem e xs
Mem_of_Has e [] h = elim h [ ]
Mem_of_Has e (x ∷ xs) (inl p) = rw p mem-cons_self
Mem_of_Has e (x ∷ xs) (inr k) = mem-cons_of_mem x (Mem_of_Has e xs k)

All-Mem :
    (P : DrawCandidate → Type 0)
    → ((e : DrawCandidate) → IsProp (P e))
    → (xs : List DrawCandidate) (e : DrawCandidate) → All P xs
    → Mem e xs
    → P e
All-Mem P prop [] e h m = absurd (not-mem-nil m)
All-Mem P prop (x ∷ xs) e h m =
    Or.elim (prop e) (mem-cons.0 m) (λ p. subst P (sym p) h.0) (λ k. All-Mem P prop xs e h.1 k)

Mem-take {ℓ} : {A : Type ℓ} (n : ℕ) (xs : List A) {e : A} → Mem e (take n xs) → Mem e xs
Mem-take zero xs m = absurd (not-mem-nil m)
Mem-take (suc n) [] m = m
Mem-take (suc n) (x ∷ xs) m =
    Or.elim Mem-prop (mem-cons.0 m) (λ p. mem-cons.1 (Or.inl p))
      (λ k. mem-cons_of_mem x (Mem-take n xs k))

-- No value stands twice in a prefix, if none does in the list.
Nodup-take {ℓ} : {A : Type ℓ} (n : ℕ) (xs : List A) → Nodup xs → Nodup (take n xs)
Nodup-take zero xs h = Nodup-nil
Nodup-take (suc n) [] h = Nodup-nil
Nodup-take (suc n) (x ∷ xs) h =
    let (a, b) = Nodup-cons.0 h in Nodup-cons.1 (λ m. a (Mem-take n xs m), Nodup-take n xs b)

abbrev pub ids : List DrawCandidate → List Text
ids = map (λ e. e.question_version_id)

take-ids : (n : ℕ) (xs : List DrawCandidate) → take n (ids xs) ≡ ids (take n xs)
take-ids zero xs = refl
take-ids (suc n) [] = refl
take-ids (suc n) (x ∷ xs) = rw (take-ids n xs)

not-Mem-ids :
    (x : DrawCandidate) (xs : List DrawCandidate) (e : Text)
    → All (λ y. lt_text x.question_version_id y.question_version_id ≡ true) xs
    → Mem e (ids xs)
    → lt_text x.question_version_id e ≡ true
not-Mem-ids x [] e h m = absurd (not-mem-nil m)
not-Mem-ids x (y ∷ ys) e h m =
    Or.elim (hlevel) (mem-cons.0 m) (λ p. rw p h.0) (λ k. not-Mem-ids x ys e h.1 k)

IsSorted-Nodup : (xs : List DrawCandidate) → IsSorted xs → Nodup (ids xs)
IsSorted-Nodup [] s = Nodup-nil
IsSorted-Nodup (x ∷ xs) s = Nodup-cons.1 (
  λ m. ground (arith, lt_text_irrefl x.question_version_id, not-Mem-ids x xs _ s.0 m),
  IsSorted-Nodup xs s.1,
)

IsDrawable-eligible :
    (rule : SectionRule) (pool : List DrawCandidate)
    → All (IsDrawable rule pool) (eligible rule pool)
unfolding eligible
IsDrawable-eligible rule pool = All-of_Has _ _ λ e h.
    let (a, b, c) = collect_sound rule [] pool e ((sort_by_id-Has e (collect rule [] pool)).0 h) in
    (Mem_of_Has e pool a, b)

resolve_draw-take :
    (rule : SectionRule) (pool : List DrawCandidate) (rng : Rng) (drawn : List DrawCandidate)
    → resolve_draw rule pool rng ≡ ok drawn
    → drawn ≡ take (to_nat rule.pick_count) (shuffle_with rng (eligible rule pool))
unfolding resolve_draw
resolve_draw-take rule pool rng drawn h = ground arith

-- A draw never falls short: it serves exactly as many rows as the rule says, each of them a row of the
-- pool that matches the rule, and no version twice.
pub resolve_draw_sound :
    (rule : SectionRule) (pool : List DrawCandidate) (rng : Rng) (drawn : List DrawCandidate)
    → resolve_draw rule pool rng ≡ ok drawn
    → (nat (length drawn) ≡ rule.pick_count)
      × ((e : DrawCandidate) → Mem e drawn → IsDrawable rule pool e)
      × Nodup (ids drawn)
resolve_draw_sound rule pool rng drawn h =
    let n = to_nat rule.pick_count in
    let rows = eligible rule pool in
    let shuffled = shuffle_with rng rows in
    let perm = shuffle_with-Perm rng rows in
    let cut = resolve_draw-take rule pool rng drawn h in
    let (v, enough) = (resolve_draw_iff rule pool rng).0 (drawn, h) in
    (
      count v enough cut,
      λ e m.
          All-Mem (IsDrawable rule pool) (IsDrawable-prop rule pool) rows e
            (IsDrawable-eligible rule pool)
            ((Perm.mem_iff perm).0 (Mem-take n shuffled (subst (Mem e) cut m))),
      rw (cut, ← take-ids n shuffled)
          (Nodup-take n (ids shuffled) (
            Perm.nodup (Perm.symm (Perm.map _ perm))
              (IsSorted-Nodup rows (eligible-IsSorted rule pool)))),
    )
  where
    count :
        IsValidRule rule
        → to_nat rule.pick_count ≤ length (eligible rule pool)
        → drawn ≡ take (to_nat rule.pick_count) (shuffle_with rng (eligible rule pool))
        → nat (length drawn) ≡ rule.pick_count
    count v enough cut = ground (
      arith,
      v.picks,
      length-shuffle_with rng (eligible rule pool),
      length-take (to_nat rule.pick_count) (shuffle_with rng (eligible rule pool)),
    )
