-- ===== src/Worker/JobId.antt =====
-- apps/worker/src/idempotency.ts, `assertBusinessKey` and `toJobId`: business keys and their job ids.
pub mod Laws
use assaybank.Prelude.{
  ℕ, ◌||◌, Bool, List, [], ◌∷◌, ◌++◌, Result, ok, err, ◌>>=◌, length, any, ltb, ◌==◌, if◌then◌else◌,
}
use assaybank.Prelude.Text.{Text, is_space, eq_text}

-- The four reasons of an `IdempotencyKeyError`.
pub data KeyError : Type 0 where
  empty_key key_too_long key_has_space missing_identifier : KeyError

abbrev pub max_idempotency_key_chars : ℕ
max_idempotency_key_chars = 512

abbrev add_to_first : ℕ → List Text → List Text
add_to_first c [] = (c ∷ []) ∷ []
add_to_first c (s ∷ rest) = (c ∷ s) ∷ rest

-- `key.split(':')`
unfoldable pub segments : Text → List Text
segments [] = [] ∷ []
segments (c ∷ key) = let rest = segments key in if c == b':' then [] ∷ rest else add_to_first c rest

abbrev undefined_text : Text
undefined_text = b'u' ∷ b'n' ∷ b'd' ∷ b'e' ∷ b'f' ∷ b'i' ∷ b'n' ∷ b'e' ∷ b'd' ∷ []

abbrev null_text : Text
null_text = b'n' ∷ b'u' ∷ b'l' ∷ b'l' ∷ []

unfoldable pub is_missing : Text → Bool
unfolding eq_text
is_missing segment = eq_text segment undefined_text || eq_text segment null_text

unfoldable pub assert_business_key : Text → Result Text KeyError
unfolding segments is_missing is_space
assert_business_key key =
    if length key == 0
    then err empty_key
    else if ltb max_idempotency_key_chars (length key)
    then err key_too_long
    else if any is_space key
    then err key_has_space
    else if any is_missing (segments key)
    then err missing_identifier
    else ok key

-- `replaceAll` of one character by a text.
unfoldable pub replace_all : ℕ → Text → Text → Text
replace_all c by [] = []
replace_all c by (d ∷ s) = let rest = replace_all c by s in if d == c then by ++ rest else d ∷ rest

-- `.replaceAll('%', '%25').replaceAll(':', '%3A')`
unfoldable pub escape : Text → Text
unfolding replace_all
escape key =
    replace_all b':' (b'%' ∷ b'3' ∷ b'A' ∷ []) (replace_all b'%' (b'%' ∷ b'2' ∷ b'5' ∷ []) key)

unfoldable pub to_job_id : Text → Result Text KeyError
unfolding assert_business_key escape
to_job_id key = assert_business_key key >>= λ k. ok (escape k)
