-- ===== src/Markdown/Url.antt =====
-- packages/markdown/src/url.ts: which destinations a prompt may link to.
pub mod Schemes
pub mod Hosts
use assaybank.Prelude.{
  ℕ, zero, suc, ◌+◌, ◌-◌, ◌*◌, ◌/◌, ◌%◌, Bool, true, false, not, ◌&&◌, ◌||◌, Option, none, some,
  List, [], ◌∷◌, ◌++◌, length, keep, leb, ◌==◌, if◌then◌else◌,
}
use mathlib.Core.List.{reverse}
use assaybank.Prelude.Text.{Text, eq_text}

abbrev pub is_letter : ℕ → Bool
is_letter c = (leb b'a' c && leb c b'z') || (leb b'A' c && leb c b'Z')

abbrev pub is_digit : ℕ → Bool
is_digit c = leb b'0' c && leb c b'9'

-- The value of a digit.
abbrev pub decimal : ℕ → Option ℕ
decimal c = if is_digit c then some (c - b'0') else none

abbrev pub hexadecimal : ℕ → Option ℕ
hexadecimal c =
    if is_digit c
    then some (c - b'0')
    else if leb b'a' c && leb c b'f'
    then some (c - b'a' + 10)
    else if leb b'A' c && leb c b'F'
    then some (c - b'A' + 10)
    else none

-- A run of digits: its value, its length and what follows.
pub record Run : Type 0 where
  pub value : ℕ
  pub size : ℕ
  pub after : Text

unfoldable pub run_of : (ℕ → Option ℕ) → ℕ → ℕ → ℕ → Text → Run
run_of digit base value size [] = record { value = value; size = size; after = [] }
run_of digit base value size (c ∷ s) = elim (digit c) [
  | none ↦ record { value = value; size = size; after = c ∷ s }
  | some d ↦ run_of digit base (value * base + d) (suc size) s
]

abbrev pub starts_with : Text → Text → Bool
starts_with [] s = true
starts_with (a ∷ t) [] = false
starts_with (a ∷ t) (c ∷ s) = a == c && starts_with t s

-- `String.fromCodePoint`
unfoldable pub from_code_point : ℕ → Text
from_code_point code =
    if leb code 0xffff
    then code ∷ []
    else (0xd800 + (code - 0x10000) / 0x400) ∷ (0xdc00 + (code - 0x10000) % 0x400) ∷ []

-- What replaces a reference of so many digits at most, and how many code units more than `before` it
-- takes; a code that is 0 or no code point is left as it is.
unfoldable pub reference : ℕ → ℕ → Run → Option (Text × ℕ)
unfolding from_code_point
reference before most run =
    if leb 1 run.size
      && leb run.size most
      && starts_with (b';' ∷ []) run.after
      && leb 1 run.value
      && leb run.value 0x10ffff
    then some (from_code_point run.value, before + run.size)
    else none

-- `NUMERIC_ENTITY` at the start of a text.
unfoldable pub numeric_at : Text → Option (Text × ℕ)
unfolding run_of reference
numeric_at (amp ∷ (hash ∷ (c ∷ s))) =
    if amp == b'&' && hash == b'#'
    then (if c == b'x' || c == b'X'
        then reference 3 6 (run_of hexadecimal 16 0 0 s)
        else reference 2 7 (run_of decimal 10 0 0 (c ∷ s)))
    else none
numeric_at _ = none

abbrev pub skip_of : Option (Text × ℕ) → ℕ
skip_of none = 0
skip_of (some r) = r.1

abbrev pub put_of : ℕ → Option (Text × ℕ) → Text → Text
put_of c none rest = c ∷ rest
put_of c (some r) rest = r.0 ++ rest

-- The replacement of the numeric references; `skip` more code units belong to the last one.
unfoldable pub decode_numeric : ℕ → Text → Text
unfolding numeric_at
decode_numeric skip [] = []
decode_numeric zero (c ∷ s) =
    let found = numeric_at (c ∷ s) in put_of c found (decode_numeric (skip_of found) s)
decode_numeric (suc skip) (c ∷ s) = decode_numeric skip s

-- `out.split(entity).join(char)`, with the same use of `skip`.
unfoldable pub replace_all : Text → ℕ → ℕ → Text → Text
replace_all entity char skip [] = []
replace_all entity char zero (c ∷ s) =
    let found = starts_with entity (c ∷ s) in
    let rest = replace_all entity char (if found then length entity - 1 else 0) s in
    (if found then char else c) ∷ rest
replace_all entity char (suc skip) (c ∷ s) = replace_all entity char skip s

-- `NAMED_ENTITIES`, in their order.
abbrev pub named_entities : List (Text × ℕ)
named_entities =
    (b'&' ∷ b'a' ∷ b'm' ∷ b'p' ∷ b';' ∷ [], b'&')
    ∷ (b'&' ∷ b'l' ∷ b't' ∷ b';' ∷ [], b'<')
    ∷ (b'&' ∷ b'g' ∷ b't' ∷ b';' ∷ [], b'>')
    ∷ (b'&' ∷ b'q' ∷ b'u' ∷ b'o' ∷ b't' ∷ b';' ∷ [], 34)
    ∷ (b'&' ∷ b'a' ∷ b'p' ∷ b'o' ∷ b's' ∷ b';' ∷ [], 39)
    ∷ (b'&' ∷ b'c' ∷ b'o' ∷ b'l' ∷ b'o' ∷ b'n' ∷ b';' ∷ [], b':')
    ∷ (b'&' ∷ b'N' ∷ b'e' ∷ b'w' ∷ b'L' ∷ b'i' ∷ b'n' ∷ b'e' ∷ b';' ∷ [], 10)
    ∷ (b'&' ∷ b'T' ∷ b'a' ∷ b'b' ∷ b';' ∷ [], 9)
    ∷ []

unfoldable pub decode_named : List (Text × ℕ) → Text → Text
unfolding replace_all
decode_named [] s = s
decode_named ((entity, char) ∷ entities) s = decode_named entities (replace_all entity char 0 s)

unfoldable pub decode_entities : Text → Text
unfolding decode_numeric decode_named
decode_entities input = decode_named named_entities (decode_numeric 0 input)

-- `<= 0x20` from the front.
unfoldable pub drop_low : Text → Text
drop_low [] = []
drop_low (c ∷ s) = if leb c 0x20 then drop_low s else c ∷ s

abbrev pub is_stripped : ℕ → Bool
is_stripped c = c == 9 || c == 10 || c == 13

unfoldable pub normalise : Text → Text
unfolding drop_low
normalise input = drop_low (reverse (drop_low (reverse (keep (λ c. not (is_stripped c)) input))))

abbrev pub is_scheme_char : ℕ → Bool
is_scheme_char c = is_letter c || is_digit c || c == b'+' || c == b'-' || c == b'.'

abbrev prepend : ℕ → Option Text → Option Text
prepend c none = none
prepend c (some s) = some (c ∷ s)

-- The scheme's characters up to the colon.
unfoldable pub scheme_rest : Text → Option Text
scheme_rest [] = none
scheme_rest (c ∷ s) =
    let rest = scheme_rest s in
    if c == b':' then some [] else if is_scheme_char c then prepend c rest else none

-- `SCHEME.exec(url)`, its group.
unfoldable pub scheme_of : Text → Option Text
unfolding scheme_rest
scheme_of [] = none
scheme_of (c ∷ s) = if is_letter c then prepend c (scheme_rest s) else none

-- `toLowerCase` on the letters of a scheme.
unfoldable pub lower_case : Text → Text
lower_case [] = []
lower_case (c ∷ s) = (if leb b'A' c && leb c b'Z' then c + 32 else c) ∷ lower_case s

abbrev pub allowed_schemes : List Text
allowed_schemes =
    (b'h' ∷ b't' ∷ b't' ∷ b'p' ∷ [])
    ∷ (b'h' ∷ b't' ∷ b't' ∷ b'p' ∷ b's' ∷ [])
    ∷ (b'm' ∷ b'a' ∷ b'i' ∷ b'l' ∷ b't' ∷ b'o' ∷ [])
    ∷ []

unfoldable pub is_allowed : Text → List Text → Bool
unfolding eq_text
is_allowed scheme [] = false
is_allowed scheme (a ∷ schemes) = eq_text a scheme || is_allowed scheme schemes

unfoldable pub check_scheme : Text → Option Text → Option Text
unfolding is_allowed lower_case
check_scheme url none = if starts_with (92 ∷ []) url then none else some url
check_scheme url (some scheme) =
    if is_allowed (lower_case scheme) allowed_schemes then some url else none

unfoldable pub check_url : Text → Option Text
unfolding scheme_of check_scheme
check_url url = if length url == 0 then none else check_scheme url (scheme_of url)

unfoldable pub safe_url : Text → Option Text
unfolding decode_entities normalise check_url
safe_url raw = check_url (normalise (decode_entities raw))
