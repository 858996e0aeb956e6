-- ===== src/Grading/Mcq/Sets.antt =====
-- A mark depends on the sets of the options.
use assaybank.Prelude.{
  ℕ, suc, ◌+◌, ◌≡◌, refl, true, false, List, [], ◌∷◌, length, keep, arith, Bool, inl, inr,
  Bool-cases, if◌then◌else◌, ap, ◌∙◌, sym,
}
use assaybank.Prelude.Text.{Text, eq_text, eq_text_iff, eq_text_refl}
use assaybank.Grading.Mcq.{
  Doubles, McqScoringOptions, has, distinct, count_hits, grade_sets, grade_mcq,
}

abbrev IsDistinct : List Text → Type 0
IsDistinct [] = Unit
IsDistinct (x ∷ xs) = (has x xs ≡ false) × IsDistinct xs

-- The same options, however often and in whatever order.
abbrev pub SameOptions : List Text → List Text → Type 0
SameOptions xs ys = (z : Text) → has z xs ≡ has z ys

has-distinct : (z : Text) (xs : List Text) → has z (distinct xs) ≡ has z xs
unfolding distinct
has-distinct z [] = refl
has-distinct z (x ∷ xs) = ground (arith, eq_text_iff z x, has-distinct z xs, has-distinct x xs)

distinct-IsDistinct : (xs : List Text) → IsDistinct (distinct xs)
unfolding distinct
distinct-IsDistinct [] = tt
distinct-IsDistinct (x ∷ xs) = elim (Bool-cases (has x (distinct xs))) [
  | inl e ↦ rw e (distinct-IsDistinct xs)
  | inr e ↦ rw e (e, distinct-IsDistinct xs)
]

-- The list without the first `x`.
without : Text → List Text → List Text
without x [] = []
without x (y ∷ ys) = let rest = without x ys in if eq_text x y then ys else y ∷ rest

count : (Text → Bool) → List Text → ℕ
count p xs = length (keep p xs)

count-without :
    (p : Text → Bool) (x : Text) (ys : List Text)
    → has x ys ≡ true
    → count p ys ≡ (if p x then 1 else 0) + count p (without x ys)
unfolding count without
count-without p x [] h = cc
count-without p x (y ∷ ys) h = ground (arith, eq_text_iff x y, count-without p x ys)

has-without :
    (z x : Text) (ys : List Text)
    → IsDistinct ys
    → has z (without x ys) ≡ (if eq_text z x then false else has z ys)
unfolding without
has-without z x [] d = ground arith
has-without z x (y ∷ ys) d =
    ground (arith, eq_text_iff z x, eq_text_iff x y, eq_text_iff z y, has-without z x ys d.1)

without-IsDistinct : (x : Text) (ys : List Text) → IsDistinct ys → IsDistinct (without x ys)
unfolding without
without-IsDistinct x [] d = tt
without-IsDistinct x (y ∷ ys) d = elim (Bool-cases (eq_text x y)) [
  | inl e ↦ rw e d.1
  | inr e ↦ rw e (ground (arith, has-without y x ys d.1), without-IsDistinct x ys d.1)
]

count_same :
    (p : Text → Bool) (xs ys : List Text)
    → IsDistinct xs
    → IsDistinct ys
    → SameOptions xs ys
    → count p xs ≡ count p ys
unfolding count
count_same p [] [] d d' same = refl
count_same p [] (y ∷ ys) d d' same = ground (arith, same y, eq_text_refl y)
count_same p (x ∷ xs) ys d d' same =
    let there : has x ys ≡ true = ground (arith, same x, eq_text_refl x) in
    let rest =
      count_same p xs (without x ys) d.1 (without-IsDistinct x ys d')
        λ z. ground (arith, same z, has-without z x ys d', eq_text_iff z x) in
    ground (arith, count-without p x ys there, rest)

count_cong :
    (p q : Text → Bool) (xs : List Text) → ((z : Text) → p z ≡ q z) → count p xs ≡ count q xs
unfolding count
count_cong p q [] h = refl
count_cong p q (x ∷ xs) h = ground (arith, h x, count_cong p q xs h)

count_all : (xs : List Text) → count (λ x. true) xs ≡ length xs
unfolding count
count_all [] = refl
count_all (x ∷ xs) = ap suc (count_all xs)

distinct_same : (xs ys : List Text) → SameOptions xs ys → SameOptions (distinct xs) (distinct ys)
distinct_same xs ys same z = has-distinct z xs ∙ same z ∙ sym (has-distinct z ys)

length-distinct :
    (xs ys : List Text) → SameOptions xs ys → length (distinct xs) ≡ length (distinct ys)
length-distinct xs ys same =
    sym (count_all (distinct xs))
    ∙ count_same (λ x. true) (distinct xs) (distinct ys) (distinct-IsDistinct xs)
        (distinct-IsDistinct ys) (distinct_same xs ys same)
    ∙ count_all (distinct ys)

count_hits_same :
    (s s' c c' : List Text)
    → SameOptions s s'
    → SameOptions c c'
    → count_hits (distinct s) (distinct c) ≡ count_hits (distinct s') (distinct c')
unfolding count_hits count
count_hits_same s s' c c' same same' =
    count_same (λ x. has x (distinct c)) (distinct s) (distinct s') (distinct-IsDistinct s)
      (distinct-IsDistinct s') (distinct_same s s' same)
    ∙ count_cong (λ x. has x (distinct c)) (λ x. has x (distinct c')) (distinct s')
        (distinct_same c c' same')

-- A mark depends only on which options are selected and which are correct: neither their order nor a
-- repetition of one changes it, whatever the marking scheme.
pub grade_mcq-SameOptions :
    (doubles : Doubles) (s s' c c' : List Text) (opts : McqScoringOptions)
    → SameOptions s s'
    → SameOptions c c'
    → grade_mcq doubles s c opts ≡ grade_mcq doubles s' c' opts
unfolding grade_mcq grade_sets
grade_mcq-SameOptions doubles s s' c c' opts same same' =
    rw (length-distinct s s' same, length-distinct c c' same', count_hits_same s s' c c' same same')
      refl
