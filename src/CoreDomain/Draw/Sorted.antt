-- ===== src/CoreDomain/Draw/Sorted.antt =====
-- Sorting by id: two selections of the same rows are sorted to the same list.
use assaybank.Prelude.{
  ◌≡◌, refl, sym, ◌≢◌, ◌↔◌, ◌⊎◌, inl, inr, true, false, List, [], ◌∷◌, All, arith, subst,
  Bool-cases,
}
use assaybank.Prelude.Text.{Text, lt_text, lt_text_irrefl, lt_text_trans, lt_text_total}
use assaybank.CoreDomain.Draw.{DrawCandidate, insert_by_id, sort_by_id}
use assaybank.CoreDomain.Draw.Rows.{Has, IsFresh, HasDistinctIds, All-of_Has}

-- The ids go up strictly.
abbrev pub IsSorted : List DrawCandidate → Type 0
IsSorted [] = Unit
IsSorted (x ∷ xs) =
    All (λ y. lt_text x.question_version_id y.question_version_id ≡ true) xs × IsSorted xs

insert_by_id-Has :
    (x e : DrawCandidate) (ys : List DrawCandidate)
    → Has e (insert_by_id x ys) ↔ ((x ≡ e) ⊎ Has e ys)
unfolding insert_by_id
insert_by_id-Has x e [] = ground arith
insert_by_id-Has x e (y ∷ ys) = ground (arith, insert_by_id-Has x e ys)

pub sort_by_id-Has :
    (e : DrawCandidate) (xs : List DrawCandidate) → Has e (sort_by_id xs) ↔ Has e xs
unfolding sort_by_id
sort_by_id-Has e [] = ground arith
sort_by_id-Has e (x ∷ xs) =
    ground (arith, insert_by_id-Has x e (sort_by_id xs), sort_by_id-Has e xs)

Has-All :
    (P : DrawCandidate → Type 0) (xs : List DrawCandidate) (e : DrawCandidate)
    → All P xs
    → Has e xs
    → P e
Has-All P (x ∷ xs) e h (inl p) = subst P p h.0
Has-All P (x ∷ xs) e h (inr k) = Has-All P xs e h.1 k
Has-All P [] e h k = elim k [ ]

insert_by_id-IsSorted :
    (x : DrawCandidate) (ys : List DrawCandidate)
    → IsFresh x.question_version_id ys
    → IsSorted ys
    → IsSorted (insert_by_id x ys)
unfolding insert_by_id
insert_by_id-IsSorted x [] f s = (tt, tt)
insert_by_id-IsSorted x (y ∷ ys) f s =
    elim (Bool-cases (lt_text y.question_version_id x.question_version_id)) [
      | inl later ↦ rw later (
        All-of_Has _ _ (λ e h. after e later ((insert_by_id-Has x e ys).0 h)),
        insert_by_id-IsSorted x ys f.1 s.1,
      )
      | inr sooner ↦ rw sooner (
        (
          first sooner,
          All-of_Has _ ys (λ e h. lt_text_trans _ _ _ (first sooner) (Has-All _ ys e s.0 h)),
        ),
        s,
      )
    ]
  where
    after :
        (e : DrawCandidate)
        → lt_text y.question_version_id x.question_version_id ≡ true
        → (x ≡ e) ⊎ Has e ys
        → lt_text y.question_version_id e.question_version_id ≡ true
    after e h (inl p) = rw (← p) h
    after e h (inr k) = Has-All _ ys e s.0 k

    first :
        lt_text y.question_version_id x.question_version_id ≡ false
        → lt_text x.question_version_id y.question_version_id ≡ true
    first h = ground (arith, lt_text_total x.question_version_id y.question_version_id)

insert_by_id-IsFresh :
    (id : Text) (x : DrawCandidate) (ys : List DrawCandidate)
    → x.question_version_id ≢ id
    → IsFresh id ys
    → IsFresh id (insert_by_id x ys)
unfolding insert_by_id
insert_by_id-IsFresh id x [] h f = (h, tt)
insert_by_id-IsFresh id x (y ∷ ys) h f = ground (arith, insert_by_id-IsFresh id x ys h f.1)

sort_by_id-IsFresh :
    (id : Text) (xs : List DrawCandidate) → IsFresh id xs → IsFresh id (sort_by_id xs)
unfolding sort_by_id
sort_by_id-IsFresh id [] f = tt
sort_by_id-IsFresh id (x ∷ xs) f =
    insert_by_id-IsFresh id x (sort_by_id xs) f.0 (sort_by_id-IsFresh id xs f.1)

-- The sort puts rows with distinct ids in strict order.
pub sort_by_id-IsSorted : (xs : List DrawCandidate) → HasDistinctIds xs → IsSorted (sort_by_id xs)
unfolding sort_by_id
sort_by_id-IsSorted [] h = tt
sort_by_id-IsSorted (x ∷ xs) h =
    insert_by_id-IsSorted x (sort_by_id xs) (sort_by_id-IsFresh _ xs h.0)
      (sort_by_id-IsSorted xs h.1)

not-Has_self : (x : DrawCandidate) (xs : List DrawCandidate) → IsSorted (x ∷ xs) → ¬ Has x xs
not-Has_self x xs s h = ground (arith, lt_text_irrefl x.question_version_id, Has-All _ xs x s.0 h)

heads :
    (x y : DrawCandidate) (xs ys : List DrawCandidate)
    → IsSorted (x ∷ xs)
    → IsSorted (y ∷ ys)
    → Has x (y ∷ ys)
    → Has y (x ∷ xs)
    → x ≡ y
heads x y xs ys s t (inl p) k = sym p
heads x y xs ys s t (inr h) (inl q) = q
heads x y xs ys s t (inr h) (inr k) = ground (
  arith,
  lt_text_irrefl x.question_version_id,
  lt_text_trans x.question_version_id y.question_version_id x.question_version_id
      (Has-All _ xs y s.0 k) (Has-All _ ys x t.0 h),
)

tails :
    (x e : DrawCandidate) (xs ys : List DrawCandidate)
    → IsSorted (x ∷ xs)
    → Has e xs
    → (x ≡ e) ⊎ Has e ys
    → Has e ys
tails x e xs ys s h (inl p) = absurd (not-Has_self x xs s (rw p h))
tails x e xs ys s h (inr k) = k

-- A strictly sorted list is known by its rows.
pub IsSorted-ext :
    (xs ys : List DrawCandidate)
    → IsSorted xs
    → IsSorted ys
    → ((e : DrawCandidate) → Has e xs ↔ Has e ys)
    → xs ≡ ys
IsSorted-ext [] [] s t h = refl
IsSorted-ext [] (y ∷ ys) s t h = absurd ((h y).1 (inl refl))
IsSorted-ext (x ∷ xs) [] s t h = absurd ((h x).0 (inl refl))
IsSorted-ext (x ∷ xs) (y ∷ ys) s t h =
    let p : x ≡ y = heads x y xs ys s t ((h x).0 (inl refl)) ((h y).1 (inl refl)) in
    cc (
      p,
      IsSorted-ext xs ys s.1 t.1 (λ e. (
        λ k. tails x e xs ys s k (subst (λ z. (z ≡ e) ⊎ Has e ys) (sym p) ((h e).0 (inr k))),
        λ k. tails y e ys xs t k (subst (λ z. (z ≡ e) ⊎ Has e xs) p ((h e).1 (inr k))),
      )),
    )
