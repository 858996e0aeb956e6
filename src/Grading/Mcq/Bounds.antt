-- ===== src/Grading/Mcq/Bounds.antt =====
-- The range of a mark.
use assaybank.Prelude.{
  ℕ, zero, suc, ◌+◌, ◌-◌, ◌*◌, ◌/◌, ◌≤◌, ◌<◌, ◌≡◌, true, false, some, List, length, arith, Bool,
  inl, inr, Bool-cases, Option-cases, subst, sym, ok-injective, ok, err, Result, if◌then◌else◌,
  ◌==◌, ◌&&◌,
}
use assaybank.Prelude.Doubles.{Ratio}
use assaybank.Prelude.Int.{ℤ, pos, negsuc}
use assaybank.Prelude.Text.{Text}
use assaybank.Grading.Mcq.{
  Doubles, Signed, plus, minus, minus_infinity, McqScoringOptions, mark, raw_mark, round_score,
  ratio_le, nought, millionths, nearest, capped, floored, grade_sets, grade_mcq, count_hits,
  distinct, RangeError, no_correct_option,
}

-- Not negative, and at most the maximum, in millionths.
abbrev pub InRange : ℕ → ℤ → Type 0
InRange max (pos n) = n ≤ max
InRange max (negsuc n) = ⊥

abbrev IsInRange : ℕ → Result ℤ RangeError → Type 0
IsInRange max (ok z) = InRange max z
IsInRange max (err e) = Unit

mul_le : (a b c : ℕ) → a ≤ b → c * a ≤ c * b
mul_le a b c h = grind arith

lt_of_mul : (a b c : ℕ) → c * a < c * b → a < b
lt_of_mul a b c h = grind arith

mul_lt : (a b c : ℕ) → 0 < c → a < b → c * a < c * b
mul_lt a b c h k = grind arith

div_le : (n m q : ℕ) → 0 < m → n < suc q * m → n / m ≤ q
div_le n m q h k = grind arith

lt_div : (n m : ℕ) → 0 < m → n < suc (n / m) * m
lt_div n m h = grind arith

-- Rounding keeps the order of quotients.
nearest_le : (a b c d : ℕ) → 0 < d → a * d ≤ c * b → nearest a b ≤ nearest c d
nearest_le a zero c d k l = omega arith
nearest_le a (suc b) c d k l =
    let q = nearest c d in
    let above : 2 * c + d < suc q * (2 * d) = lt_div (2 * c + d) (2 * d) (omega arith) in
    let scaled : suc b * (2 * c + d) < suc b * (suc q * (2 * d)) =
      mul_lt (2 * c + d) (suc q * (2 * d)) (suc b) (omega arith) above in
    div_le (2 * a + suc b) (2 * suc b) q (omega arith)
      (lt_of_mul (2 * a + suc b) (suc q * (2 * suc b)) d (omega (arith, scaled, l)))

pub millionths_le : (r s : Ratio) → 0 < s.den → ratio_le r s ≡ true → millionths r ≤ millionths s
millionths_le r s h e =
    let l : r.num * s.den ≤ s.num * r.den = ground (arith, e) in
    nearest_le (r.num * 1_000_000) r.den (s.num * 1_000_000) s.den h (omega (arith, l))

nought_le : (max : Ratio) → millionths nought ≤ millionths max
nought_le max = omega arith

round_plus :
    (max r : Ratio) → 0 < max.den → IsInRange (millionths max) (round_score (capped max (plus r)))
unfolding round_score
round_plus max r h = elim (Bool-cases (ratio_le r max)) [
  | inl e ↦ rw e (millionths_le r max h e)
  | inr e ↦ rw e (omega arith)
]

round_floored :
    (max : Ratio) (x : Signed)
    → 0 < max.den
    → IsInRange (millionths max) (round_score (capped max (floored false x)))
round_floored max (plus r) h = round_plus max r h
round_floored max (minus r) h = round_plus max nought h
round_floored max minus_infinity h = round_plus max nought h

whole-IsInRange :
    (is_exact : Bool) (max negative : Ratio)
    → IsInRange
        (millionths max)
        (if is_exact then round_score (plus max) else round_score (floored false (minus negative)))
unfolding round_score
whole-IsInRange true max negative = omega arith
whole-IsInRange false max negative = nought_le max

mark-IsInRange :
    (doubles : Doubles) (partial : Bool) (max negative : Ratio) (c s hits : ℕ)
    → 0 < max.den
    → IsInRange (millionths max) (mark doubles partial false max negative c s hits)
unfolding mark
mark-IsInRange doubles true max negative c s hits h =
    round_floored max (raw_mark doubles max negative c (s - hits) hits) h
mark-IsInRange doubles false max negative c s hits h =
    whole-IsInRange (s - hits == 0 && hits == c) max negative

choose-InRange :
    (a b : Bool) (max : ℕ) (m : Result ℤ RangeError) (z : ℤ) (e : RangeError)
    → IsInRange max m
    → (if a then err e else if b then ok (pos 0) else m) ≡ ok z
    → InRange max z
choose-InRange true b max m z e h k = cc
choose-InRange false true max m z e h k = subst (InRange max) (ok-injective k) (omega arith)
choose-InRange false false max m z e h k = subst (IsInRange max) k h

grade_sets-InRange :
    (doubles : Doubles) (opts : McqScoringOptions) (max negative : Ratio)
    (selected correct : List Text) (z : ℤ)
    → opts.allow_negative_total ≡ false
    → 0 < max.den
    → grade_sets doubles opts max negative selected correct ≡ ok z
    → InRange (millionths max) z
unfolding grade_sets
grade_sets-InRange doubles opts max negative selected correct z h d e =
    choose-InRange (length correct == 0) (length selected == 0) (millionths max) _ z
      no_correct_option
      (subst
        (λ a. IsInRange (millionths max) (
          mark doubles opts.partial_credit a max negative (length correct) (length selected)
            (count_hits selected correct)))
        (sym h)
        (mark-IsInRange doubles opts.partial_credit max negative (length correct) (length selected)
          (count_hits selected correct) d))
      e

-- Without the option for negative totals a mark is never below zero, whatever was guessed, and never
-- above the maximum as it is rounded to millionths, however the arithmetic on doubles rounds.
pub grade_mcq-InRange :
    (doubles : Doubles) (selected correct : List Text) (opts : McqScoringOptions) (max : Ratio)
    (z : ℤ)
    → opts.allow_negative_total ≡ false
    → opts.max_score ≡ some max
    → 0 < max.den
    → grade_mcq doubles selected correct opts ≡ ok z
    → InRange (millionths max) z
unfolding grade_mcq
grade_mcq-InRange doubles selected correct opts max z h m d e =
    elim (Option-cases opts.negative_score) [
      | inl bad ↦ ground (arith, m, bad)
      | inr (negative, fine) ↦
          grade_sets-InRange doubles opts max negative (distinct selected) (distinct correct) z h d
            (ground (arith, m, fine))
    ]
