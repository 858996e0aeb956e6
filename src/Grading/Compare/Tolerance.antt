-- ===== src/Grading/Compare/Tolerance.antt =====
-- Numeric comparison is symmetric, and monotone in its tolerances.
use native.Mathlib.Nat.{mul-le-mul_right, max_comm}
use assaybank.Prelude.{
  ℕ, some, Option, none, ◌≤◌, ◌≡◌, refl, true, false, max, List, [], ◌∷◌, arith,
}
use assaybank.Prelude.Int.{ℤ, pos, negsuc}
use assaybank.Prelude.Text.{Text}
use assaybank.Grading.Compare.{
  Engine, Float, finite, infinite, nan, matched, within_tolerance, parse_number, compare_tokens,
  compare_within, compare_numeric, CompareOptions, tokenise, distance, magnitude,
}

distance_comm : (e a : ℤ) → distance e a ≡ distance a e
distance_comm (pos m) (pos n) = omega arith
distance_comm (pos m) (negsuc n) = omega arith
distance_comm (negsuc m) (pos n) = omega arith
distance_comm (negsuc m) (negsuc n) = omega arith

within_tolerance_sym :
    (e a : Float) (absolute relative : ℕ)
    → within_tolerance e a absolute relative ≡ within_tolerance a e absolute relative
unfolding within_tolerance
within_tolerance_sym (finite e) (finite a) absolute relative =
    rw (distance_comm e a, max_comm (magnitude e) (magnitude a)) refl
within_tolerance_sym (finite e) (infinite true) absolute relative = refl
within_tolerance_sym (finite e) (infinite false) absolute relative = refl
within_tolerance_sym (finite e) nan absolute relative = refl
within_tolerance_sym (infinite true) (finite a) absolute relative = refl
within_tolerance_sym (infinite true) (infinite true) absolute relative = refl
within_tolerance_sym (infinite true) (infinite false) absolute relative = refl
within_tolerance_sym (infinite true) nan absolute relative = refl
within_tolerance_sym (infinite false) (finite a) absolute relative = refl
within_tolerance_sym (infinite false) (infinite true) absolute relative = refl
within_tolerance_sym (infinite false) (infinite false) absolute relative = refl
within_tolerance_sym (infinite false) nan absolute relative = refl
within_tolerance_sym nan (finite a) absolute relative = refl
within_tolerance_sym nan (infinite true) absolute relative = refl
within_tolerance_sym nan (infinite false) absolute relative = refl
within_tolerance_sym nan nan absolute relative = refl

compare_tokens_comm :
    (engine : Engine) (absolute relative : ℕ) (es others : List Text)
    → compare_tokens engine absolute relative es others
      ≡ compare_tokens engine absolute relative others es
unfolding compare_tokens
compare_tokens_comm engine absolute relative [] [] = refl
compare_tokens_comm engine absolute relative [] (a ∷ others) = refl
compare_tokens_comm engine absolute relative (e ∷ es) [] = refl
compare_tokens_comm engine absolute relative (e ∷ es) (a ∷ others) =
    let x = parse_number engine e in
    let y = parse_number engine a in
    ground (
      arith,
      within_tolerance_sym x y absolute relative,
      compare_tokens_comm engine absolute relative es others,
    )

within_tolerance_mono :
    (e a : Float) (n r n' r' : ℕ)
    → n ≤ n'
    → r ≤ r'
    → within_tolerance e a n r ≡ true
    → within_tolerance e a n' r' ≡ true
unfolding within_tolerance
within_tolerance_mono (finite e) (finite a) n r n' r' h k w =
    let m = mul-le-mul_right (max (magnitude e) (magnitude a)) k in ground (arith, m)
within_tolerance_mono (finite e) (infinite true) n r n' r' h k w = w
within_tolerance_mono (finite e) (infinite false) n r n' r' h k w = w
within_tolerance_mono (finite e) nan n r n' r' h k w = w
within_tolerance_mono (infinite true) (finite a) n r n' r' h k w = w
within_tolerance_mono (infinite true) (infinite true) n r n' r' h k w = w
within_tolerance_mono (infinite true) (infinite false) n r n' r' h k w = w
within_tolerance_mono (infinite true) nan n r n' r' h k w = w
within_tolerance_mono (infinite false) (finite a) n r n' r' h k w = w
within_tolerance_mono (infinite false) (infinite true) n r n' r' h k w = w
within_tolerance_mono (infinite false) (infinite false) n r n' r' h k w = w
within_tolerance_mono (infinite false) nan n r n' r' h k w = w
within_tolerance_mono nan (finite a) n r n' r' h k w = w
within_tolerance_mono nan (infinite true) n r n' r' h k w = w
within_tolerance_mono nan (infinite false) n r n' r' h k w = w
within_tolerance_mono nan nan n r n' r' h k w = w

compare_tokens_mono :
    (engine : Engine) (n r n' r' : ℕ) (es others : List Text)
    → n ≤ n'
    → r ≤ r'
    → compare_tokens engine n r es others ≡ matched
    → compare_tokens engine n' r' es others ≡ matched
unfolding compare_tokens
compare_tokens_mono engine n r n' r' [] [] h k w = refl
compare_tokens_mono engine n r n' r' [] (a ∷ others) h k w = cc
compare_tokens_mono engine n r n' r' (e ∷ es) [] h k w = cc
compare_tokens_mono engine n r n' r' (e ∷ es) (a ∷ others) h k w = ground (
  arith,
  within_tolerance_mono (parse_number engine e) (parse_number engine a) n r n' r' h k,
  compare_tokens_mono engine n r n' r' es others h k,
)

compare_within_comm :
    (engine : Engine) (n r : Option ℕ) (es others : List Text)
    → compare_within engine n r es others ≡ compare_within engine n r others es
unfolding compare_within
compare_within_comm engine none r es others = refl
compare_within_comm engine (some n) none es others = refl
compare_within_comm engine (some n) (some r) es others =
    ground (arith, compare_tokens_comm engine n r es others)

compare_within_mono :
    (engine : Engine) (n r n' r' : ℕ) (es others : List Text)
    → n ≤ n'
    → r ≤ r'
    → compare_within engine (some n) (some r) es others ≡ matched
    → compare_within engine (some n') (some r') es others ≡ matched
unfolding compare_within
compare_within_mono engine n r n' r' es others h k w =
    ground (arith, compare_tokens_mono engine n r n' r' es others h k)

abbrev pub tolerating : ℕ → ℕ → CompareOptions
tolerating absolute relative = record {
  absolute_tolerance = some (finite (pos absolute));
  relative_tolerance = some (finite (pos relative));
  regex_flags = none;
}

-- The expectation and the answer can be exchanged, whatever the options; and an answer that passes
-- under some tolerances passes under wider ones.
pub compare_numeric_lem :
    (engine : Engine) (expected actual : Text) (opts : CompareOptions) (n r n' r' : ℕ)
    → n ≤ n'
    → r ≤ r'
    → (compare_numeric engine expected actual opts ≡ compare_numeric engine actual expected opts)
      × (compare_numeric engine expected actual (tolerating n r) ≡ matched
          → compare_numeric engine expected actual (tolerating n' r') ≡ matched)
unfolding compare_numeric
compare_numeric_lem engine expected actual opts n r n' r' h k = (
  compare_within_comm engine _ _ (tokenise expected) (tokenise actual),
  compare_within_mono engine n r n' r' (tokenise expected) (tokenise actual) h k,
)
