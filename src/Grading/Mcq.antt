-- ===== src/Grading/Mcq.antt =====
-- packages/grading/src/mcq.ts: the mark of a multiple-choice answer. Scores are
-- ratios of whole numbers, as every finite double is; one that `assertFiniteAtLeast` refuses (negative
-- or not finite) is none. `Doubles` is what the arithmetic on doubles does with an exact result. A
-- mark is whole millionths, which is what `roundScore` leaves.
pub mod Bounds
pub mod Sets
use assaybank.Prelude.{
  ℕ, zero, suc, ◌+◌, ◌-◌, ◌*◌, ◌/◌, ◌&&◌, Bool, true, false, Option, none, some, List, [], ◌∷◌,
  Result, ok, err, ◌>>=◌, length, any, keep, leb, ◌==◌, if◌then◌else◌,
}
use assaybank.Prelude.Doubles.{Ratio}
use assaybank.Prelude.Int.{ℤ, pos, negsuc}
use assaybank.Prelude.Text.{Text, eq_text}

pub data RangeError : Type 0 where
  bad_max_score bad_negative_score no_correct_option not_finite : RangeError

-- The rounding of a result to a double, and whether it is too large for one.
pub record Doubles : Type 0 where
  pub round : Ratio → Ratio
  pub overflows : Ratio → Bool

-- A double with its sign, or minus infinity.
pub data Signed : Type 0 where
  plus minus : Ratio → Signed
  minus_infinity : Signed

pub record McqScoringOptions : Type 0 where
  pub max_score : Option Ratio
  pub negative_score : Option Ratio
  pub partial_credit : Bool
  pub allow_negative_total : Bool

abbrev pub has : Text → List Text → Bool
has x xs = any (eq_text x) xs

-- `new Set(options)`: each option once.
unfoldable pub distinct : List Text → List Text
unfolding eq_text
distinct [] = []
distinct (x ∷ xs) = let rest = distinct xs in if has x rest then rest else x ∷ rest

-- `assertFiniteAtLeast(value, …, 0)`
abbrev pub at_least_zero : RangeError → Option Ratio → Result Ratio RangeError
at_least_zero e none = err e
at_least_zero e (some n) = ok n

-- The integer `- n`.
abbrev pub neg : ℕ → ℤ
neg zero = pos 0
neg (suc n) = negsuc n

abbrev pub ratio_le : Ratio → Ratio → Bool
ratio_le a b = leb (a.num * b.den) (b.num * a.den)

-- `a - b`
abbrev pub diff : Doubles → Ratio → Ratio → Signed
diff doubles a b =
    if ratio_le b a
    then plus (doubles.round (record { num = a.num * b.den - b.num * a.den; den = a.den * b.den }))
    else minus (doubles.round (record { num = b.num * a.den - a.num * b.den; den = a.den * b.den }))

abbrev pub nought : Ratio
nought = record { num = 0; den = 1 }

-- `Math.max(floor, x)`, where the floor is 0 or minus infinity.
abbrev pub floored : Bool → Signed → Signed
floored true x = x
floored false (plus r) = plus r
floored false (minus r) = plus nought
floored false minus_infinity = plus nought

-- `toFixed`: the nearest whole number to a quotient, a half away from 0.
abbrev pub nearest : ℕ → ℕ → ℕ
nearest n d = (2 * n + d) / (2 * d)

-- The millionths of `toFixed(6)`.
abbrev pub millionths : Ratio → ℕ
millionths r = nearest (r.num * 1_000_000) r.den

unfoldable pub round_score : Signed → Result ℤ RangeError
round_score (plus r) = ok (pos (millionths r))
round_score (minus r) = ok (neg (millionths r))
round_score minus_infinity = err not_finite

-- `Math.min(max, x)`
abbrev pub capped : Ratio → Signed → Signed
capped max (plus r) = if ratio_le r max then plus r else plus max
capped max (minus r) = minus r
capped max minus_infinity = minus_infinity

-- `x * n`
abbrev pub times : Doubles → Ratio → ℕ → Ratio
times doubles r n = doubles.round (record { num = r.num * n; den = r.den })

-- `perCorrectOption * hits - opts.negativeScore * misses`
unfoldable pub raw_mark : Doubles → Ratio → Ratio → ℕ → ℕ → ℕ → Signed
raw_mark doubles max negative correct_size misses hits =
    let per_correct_option =
      doubles.round (record { num = max.num; den = max.den * correct_size }) in
    if doubles.overflows (record { num = negative.num * misses; den = negative.den })
    then minus_infinity
    else diff doubles (times doubles per_correct_option hits) (times doubles negative misses)

-- The mark, from the numbers of correct options, of options selected and of hits.
unfoldable pub mark : Doubles → Bool → Bool → Ratio → Ratio → ℕ → ℕ → ℕ → Result ℤ RangeError
unfolding round_score raw_mark
mark doubles partial allow_negative max negative correct_size selected_size hits =
    let misses = selected_size - hits in
    if partial
    then round_score (
        capped max
          (floored allow_negative (raw_mark doubles max negative correct_size misses hits)))
    else if misses == 0 && hits == correct_size
    then round_score (plus max)
    else round_score (floored allow_negative (minus negative))

-- The number of selected options that are correct.
unfoldable pub count_hits : List Text → List Text → ℕ
count_hits selected correct = length (keep (λ x. has x correct) selected)

unfoldable pub grade_sets :
    Doubles → McqScoringOptions → Ratio → Ratio → List Text → List Text → Result ℤ RangeError
unfolding mark count_hits eq_text
grade_sets doubles opts max negative selected correct =
    if length correct == 0
    then err no_correct_option
    else if length selected == 0
    then ok (pos 0)
    else mark doubles opts.partial_credit opts.allow_negative_total max negative (length correct)
        (length selected) (count_hits selected correct)

unfoldable pub grade_mcq : Doubles → List Text → List Text → McqScoringOptions → Result ℤ RangeError
unfolding distinct grade_sets
grade_mcq doubles selected correct opts = do
  max ← at_least_zero bad_max_score opts.max_score
  negative ← at_least_zero bad_negative_score opts.negative_score
  grade_sets doubles opts max negative (distinct selected) (distinct correct)
