-- ===== src/Grading/Compare/Newlines.antt =====
-- Line endings play no part.
use assaybank.Prelude.{◌≡◌, ◌≢◌, refl, false, [], ◌∷◌, ◌==◌, if◌then◌else◌, arith}
use assaybank.Prelude.Text.{Text}
use assaybank.Prelude.Parts.{Lacks}
use assaybank.Grading.Compare.{
  Engine, GradingMode, exact, trimmed, case_insensitive, numeric_tolerance, regex, CompareOptions,
  newlines, normalise, tokenise, compare_numeric, compare_regex, compare_case,
}

-- The same text with `\r\n` for each line feed.
unfoldable pub windows : Text → Text
windows [] = []
windows (c ∷ s) = let rest = windows s in if c == 10 then 13 ∷ 10 ∷ rest else c ∷ rest

newlines_id : (s : Text) → Lacks 13 s → newlines false s ≡ s
unfolding newlines Lacks
newlines_id [] h = refl
newlines_id (c ∷ s) h = ground (arith, newlines_id s h.1)

newlines-windows : (s : Text) → Lacks 13 s → newlines false (windows s) ≡ s
unfolding newlines windows Lacks
newlines-windows [] h = refl
newlines-windows (c ∷ s) h = ground (arith, newlines-windows s h.1)

normalise-windows : (s : Text) → Lacks 13 s → normalise (windows s) ≡ normalise s
unfolding normalise
normalise-windows s h = rw (newlines-windows s h, newlines_id s h) refl

-- An answer is graded the same with either kind of line endings, in every mode but `exact`, if it has
-- no carriage returns of its own.
pub compare_case-windows :
    (engine : Engine) (mode : GradingMode) (expected actual : Text) (opts : CompareOptions)
    → mode ≢ exact
    → Lacks 13 actual
    → compare_case engine mode expected (windows actual) opts
      ≡ compare_case engine mode expected actual opts
unfolding compare_case compare_numeric tokenise compare_regex
compare_case-windows engine exact expected actual opts h l = absurd (h refl)
compare_case-windows engine trimmed expected actual opts h l = rw (normalise-windows actual l) refl
compare_case-windows engine case_insensitive expected actual opts h l =
    rw (normalise-windows actual l) refl
compare_case-windows engine numeric_tolerance expected actual opts h l =
    rw (normalise-windows actual l) refl
compare_case-windows engine regex expected actual opts h l = rw (normalise-windows actual l) refl
