-- ===== src/Grading/Compare.antt =====
-- packages/grading/src/compare.ts: the comparison of an answer with an expectation. Numbers are whole
-- multiples of 1e-9, the default tolerance, where the code has doubles; what ECMAScript makes of a
-- text is the parameter `Engine`.
pub mod Newlines
pub mod Tolerance
use assaybank.Prelude.{
  ℕ, ◌+◌, ◌-◌, ◌*◌, max, Bool, true, false, not, ◌&&◌, ◌||◌, Option, none, some, List, [], ◌∷◌,
  ◌++◌, map, length, any, leb, ltb, ◌==◌, if◌then◌else◌,
}
use mathlib.Core.List.{reverse}
use assaybank.Prelude.Int.{ℤ, pos, pos_part, neg_part}
use assaybank.Prelude.Text.{Text, trim, is_space, eq_text}
use assaybank.Prelude.Parts.{split_on, join_with}

pub data Float : Type 0 where
  finite : ℤ → Float
  infinite : Bool → Float
  nan : Float

-- `Number`, `toLowerCase` and `new RegExp(…).test`, which throws where there is none.
pub record Engine : Type 0 where
  pub to_number : Text → Float
  pub to_lower_case : Text → Text
  pub compile : Text → Text → Option (Text → Bool)

pub data GradingMode : Type 0 where
  exact trimmed case_insensitive numeric_tolerance regex : GradingMode

pub data CaseOutcomeReason : Type 0 where
  matched mismatch length_mismatch not_a_number invalid_tolerance invalid_pattern :
      CaseOutcomeReason

pub record CompareOptions : Type 0 where
  pub absolute_tolerance : Option Float
  pub relative_tolerance : Option Float
  pub regex_flags : Option Text

pub record CaseOutcome : Type 0 where
  pub passed : Bool
  pub mode : GradingMode
  pub reason : CaseOutcomeReason

abbrev pub max_pattern_length : ℕ
max_pattern_length = 4096

abbrev pub default_absolute_tolerance : Float
default_absolute_tolerance = finite (pos 1)

abbrev pub default_relative_tolerance : Float
default_relative_tolerance = finite (pos 0)

abbrev pub is_match : CaseOutcomeReason → Bool
is_match matched = true
is_match _ = false

abbrev pub outcome : GradingMode → CaseOutcomeReason → CaseOutcome
outcome mode reason = record { passed = is_match reason; mode = mode; reason = reason }

-- `replace(/\r\n?/gu, '\n')`; the flag is that a carriage return came right before.
unfoldable pub newlines : Bool → Text → Text
newlines after_return [] = []
newlines after_return (c ∷ s) =
    let rest = newlines (c == 13) s in
    if c == 13 then 10 ∷ rest else if c == 10 && after_return then rest else c ∷ rest

-- `replace(/^\n+/u, '')`
unfoldable pub drop_newlines : Text → Text
drop_newlines [] = []
drop_newlines (c ∷ s) = if c == 10 then drop_newlines s else c ∷ s

unfoldable pub normalise : Text → Text
unfolding newlines drop_newlines split_on join_with trim
normalise text = reverse (
    drop_newlines
      (reverse (drop_newlines (join_with 10 (map trim (split_on 10 (newlines false text)))))))

-- `replace(/\s+/gu, ' ')`; the flag is that white space came right before.
unfoldable pub squash : Bool → Text → Text
unfolding is_space
squash after_space [] = []
squash after_space (c ∷ s) =
    let rest = squash (is_space c) s in
    if is_space c then (if after_space then rest else 32 ∷ rest) else c ∷ rest

unfoldable pub tokenise : Text → List Text
unfolding normalise squash split_on
tokenise text =
    let normalised = squash false (normalise text) in
    if length normalised == 0 then [] else split_on 32 normalised

-- A token that is not a number is `nan`.
unfoldable pub parse_number : Engine → Text → Float
parse_number engine token = if length token == 0 then nan else engine.to_number token

abbrev pub magnitude : ℤ → ℕ
magnitude z = pos_part z + neg_part z

-- `Math.abs(a - b)`
abbrev pub distance : ℤ → ℤ → ℕ
distance a b =
    let x = pos_part a + neg_part b in let y = pos_part b + neg_part a in (x - y) + (y - x)

unfoldable pub within_tolerance : Float → Float → ℕ → ℕ → Bool
within_tolerance (finite e) (finite a) absolute relative =
    if distance e a == 0
    then true
    else if leb (distance e a) absolute
    then true
    else if ltb 0 relative
    then leb (distance e a * 1_000_000_000) (relative * max (magnitude e) (magnitude a))
    else false
within_tolerance (infinite true) (infinite true) absolute relative = true
within_tolerance (infinite false) (infinite false) absolute relative = true
within_tolerance _ _ absolute relative = false

abbrev pub is_nan : Float → Bool
is_nan nan = true
is_nan _ = false

-- The tokens side by side.
unfoldable pub compare_tokens : Engine → ℕ → ℕ → List Text → List Text → CaseOutcomeReason
unfolding parse_number within_tolerance
compare_tokens engine absolute relative [] [] = matched
compare_tokens engine absolute relative (e ∷ es) (a ∷ others) =
    let rest = compare_tokens engine absolute relative es others in
    if is_nan (parse_number engine e) || is_nan (parse_number engine a)
    then not_a_number
    else if not (within_tolerance (parse_number engine e) (parse_number engine a) absolute relative)
    then mismatch
    else rest
compare_tokens engine absolute relative _ _ = length_mismatch

-- A tolerance that is finite and not negative.
abbrev pub tolerance : Float → Option ℕ
tolerance (finite (pos n)) = some n
tolerance _ = none

abbrev pub with_default : Option Float → Float → Float
with_default (some x) y = x
with_default none y = y

unfoldable pub compare_within :
    Engine → Option ℕ → Option ℕ → List Text → List Text → CaseOutcomeReason
unfolding compare_tokens
compare_within engine (some absolute) (some relative) es others =
    if length es == length others
    then compare_tokens engine absolute relative es others
    else length_mismatch
compare_within engine _ _ es others = invalid_tolerance

unfoldable pub compare_numeric : Engine → Text → Text → CompareOptions → CaseOutcomeReason
unfolding compare_within tokenise
compare_numeric engine expected actual opts =
    compare_within engine
      (tolerance (with_default opts.absolute_tolerance default_absolute_tolerance))
      (tolerance (with_default opts.relative_tolerance default_relative_tolerance))
      (tokenise expected) (tokenise actual)

-- `i`, `m`, `s` and `u`, each at most once.
abbrev pub is_flag : ℕ → Bool
is_flag c = c == b'i' || c == b'm' || c == b's' || c == b'u'

unfoldable pub bad_flags : Text → Bool
bad_flags [] = false
bad_flags (c ∷ flags) =
    let rest = bad_flags flags in any (λ d. d == c) flags || not (is_flag c) || rest

abbrev pub flags_of : Option Text → Text
flags_of (some flags) = flags
flags_of none = []

-- `^(?:` and `)$` around the expectation.
abbrev pub anchored : Text → Text
anchored expected = b'^' ∷ b'(' ∷ b'?' ∷ b':' ∷ (expected ++ (b')' ∷ b'$' ∷ []))

abbrev pub test_pattern : Option (Text → Bool) → Text → CaseOutcomeReason
test_pattern none t = invalid_pattern
test_pattern (some test) t = if test t then matched else mismatch

unfoldable pub compare_regex : Engine → Text → Text → CompareOptions → CaseOutcomeReason
unfolding bad_flags normalise
compare_regex engine expected actual opts =
    if length expected == 0 || ltb max_pattern_length (length expected)
    then invalid_pattern
    else if bad_flags (flags_of opts.regex_flags)
    then invalid_pattern
    else test_pattern (engine.compile (anchored expected) (flags_of opts.regex_flags))
        (normalise actual)

abbrev pub equal : Text → Text → CaseOutcomeReason
equal s t = if eq_text s t then matched else mismatch

unfoldable pub compare_case : Engine → GradingMode → Text → Text → CompareOptions → CaseOutcome
unfolding normalise compare_numeric compare_regex eq_text
compare_case engine exact expected actual opts = outcome exact (equal expected actual)
compare_case engine trimmed expected actual opts =
    outcome trimmed (equal (normalise expected) (normalise actual))
compare_case engine case_insensitive expected actual opts =
    outcome case_insensitive
      (equal (engine.to_lower_case (normalise expected)) (engine.to_lower_case (normalise actual)))
compare_case engine numeric_tolerance expected actual opts =
    outcome numeric_tolerance (compare_numeric engine expected actual opts)
compare_case engine regex expected actual opts =
    outcome regex (compare_regex engine expected actual opts)
