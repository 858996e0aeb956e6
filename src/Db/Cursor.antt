-- ===== src/Db/Cursor.antt =====
-- packages/db/src/cursor.ts: the cursor of a page. `Buffer`'s conversions to and from base64url are
-- the arguments `to_base64url` and `of_base64url`; neither throws.
pub mod RoundTrip
use assaybank.Prelude.{
  ℕ, Bool, true, false, ◌&&◌, ◌||◌, not, Option, none, some, List, [], ◌∷◌, ◌++◌, length, leb, ltb,
  ◌==◌, if◌then◌else◌, zero, suc,
}
use assaybank.Prelude.Text.{Text}
use assaybank.Prelude.Parts.{cut}

pub record Keyset : Type 0 where
  pub at : Text
  pub id : Text

abbrev pub bar : ℕ
bar = b'|'

abbrev pub max_payload_length : ℕ
max_payload_length = 128

-- The parts of the two patterns: `\d`, `[0-9a-fA-F]`, `[+-]` and a character.
pub data CharClass : Type 0 where
  digit hex_digit sign_char : CharClass
  exactly : ℕ → CharClass

abbrev is_between : ℕ → ℕ → ℕ → Bool
is_between first last c = leb first c && leb c last

unfoldable pub accepts : CharClass → ℕ → Bool
accepts digit c = is_between b'0' b'9' c
accepts hex_digit c = is_between b'0' b'9' c || is_between b'a' b'f' c || is_between b'A' b'F' c
accepts sign_char c = c == b'+' || c == b'-'
accepts (exactly d) c = c == d

-- What stands after a text of these classes.
unfoldable pub after : List CharClass → Text → Option Text
unfolding accepts
after [] s = some s
after (p ∷ ps) [] = none
after (p ∷ ps) (c ∷ s) = let rest = after ps s in if accepts p c then rest else none

-- The rest by a further pattern, if the first part was there.
abbrev pub then_match : Option Text → (Text → Option Text) → Option Text
then_match none next = none
then_match (some s) next = next s

abbrev pub is_end : Option Text → Bool
is_end (some []) = true
is_end _ = false

abbrev hex_4 : List CharClass
hex_4 = hex_digit ∷ hex_digit ∷ hex_digit ∷ hex_digit ∷ []

abbrev dash : List CharClass
dash = exactly b'-' ∷ []

abbrev pub uuid_pattern : List CharClass
uuid_pattern =
    hex_4
    ++ (hex_4
        ++ (dash
            ++ (hex_4
                ++ (dash
                    ++ (hex_4 ++ (dash ++ (hex_4 ++ (dash ++ (hex_4 ++ (hex_4 ++ hex_4))))))))))

unfoldable pub is_uuid : Text → Bool
unfolding after
is_uuid s = is_end (after uuid_pattern s)

-- `\d{4}-\d{2}-\d{2} \d{2}:\d{2}:\d{2}`
abbrev pub seconds_pattern : List CharClass
seconds_pattern =
    digit
    ∷ digit
    ∷ digit
    ∷ digit
    ∷ exactly b'-'
    ∷ digit
    ∷ digit
    ∷ exactly b'-'
    ∷ digit
    ∷ digit
    ∷ exactly b' '
    ∷ digit
    ∷ digit
    ∷ exactly b':'
    ∷ digit
    ∷ digit
    ∷ exactly b':'
    ∷ digit
    ∷ digit
    ∷ []

-- At most so many further digits: what follows them in the pattern is no digit.
unfoldable pub skip_digits : ℕ → Text → Text
unfolding accepts
skip_digits zero s = s
skip_digits (suc n) [] = []
skip_digits (suc n) (c ∷ s) = let rest = skip_digits n s in if accepts digit c then rest else c ∷ s

-- `(?:\.\d{1,6})?`
unfoldable pub after_fraction : Text → Option Text
unfolding skip_digits after
after_fraction [] = some []
after_fraction (c ∷ s) =
    if c == b'.'
    then then_match (after (digit ∷ []) s) (λ t. some (skip_digits 5 t))
    else some (c ∷ s)

-- `(?::\d{2})?$`
unfoldable pub after_minutes : Text → Option Text
unfolding after
after_minutes [] = some []
after_minutes (c ∷ s) = after (exactly b':' ∷ digit ∷ digit ∷ []) (c ∷ s)

unfoldable pub is_timestamp : Text → Bool
unfolding after after_fraction after_minutes
is_timestamp s = is_end (
    then_match
      (then_match (then_match (after seconds_pattern s) after_fraction)
        (after (sign_char ∷ digit ∷ digit ∷ [])))
      after_minutes)

abbrev pub payload : Keyset → Text
payload keyset = keyset.at ++ (bar ∷ keyset.id)

unfoldable pub encode_keyset_cursor : (Text → Text) → Keyset → Text
encode_keyset_cursor to_base64url keyset = to_base64url (payload keyset)

unfoldable pub checked : Option (Text × Text) → Option Keyset
unfolding is_timestamp is_uuid
checked none = none
checked (some ([], id)) = none
checked (some (c ∷ at, id)) =
    if not (is_timestamp (c ∷ at)) || not (is_uuid id)
    then none
    else some (record { at = c ∷ at; id = id })

unfoldable pub decode_keyset_cursor : (Text → Text) → Text → Option Keyset
unfolding checked cut
decode_keyset_cursor of_base64url cursor =
    let decoded = of_base64url cursor in
    if length decoded == 0 || ltb max_payload_length (length decoded)
    then none
    else checked (cut bar decoded)
