-- ===== src/Auth/Envelope.antt =====
-- packages/auth/src/envelope.ts with crypto.ts and errors.ts there: the envelope that carries both
-- stateless credentials. Hashes, encodings and JSON are those of the platform, `Platform`.
pub mod Sealed
use assaybank.Prelude.{
  ℕ, Bool, not, ◌||◌, Option, none, some, List, [], ◌∷◌, ◌++◌, Result, ok, err, length, ltb, ◌==◌,
  if◌then◌else◌,
}
use assaybank.Prelude.Num.{Num}
use assaybank.Prelude.Text.{Text, eq_text}
use assaybank.Prelude.Parts.{split_on}

pub data AuthErrorReason : Type 0 where
  malformed signature_invalid claims_invalid expired not_yet_valid wrong_purpose attempt_mismatch :
      AuthErrorReason

-- The values of a claim, as the schemas of the claims tell them apart.
pub data Scalar : Type 0 where
  number : Num → Scalar
  text : Text → Scalar
  other_value : Scalar

abbrev pub Claims : Type 0
Claims = List (Text × Scalar)

pub data Json : Type 0 where
  object : Claims → Json
  not_object : Json

-- What the code takes from the platform: `createHmac` with its hexadecimal digest, the base64url of
-- `Buffer`, and `JSON`, whose `parse` throws where this is `none`.
pub record Platform : Type 0 where
  pub hmac_sha256_hex : Text → Text → Text
  pub to_base64url : Text → Text
  pub of_base64url : Text → Text
  pub stringify : Claims → Text
  pub parse : Text → Option Json

abbrev pub max_credential_length : ℕ
max_credential_length = 4096

-- The code unit that separates the parts.
abbrev pub dot : ℕ
dot = b'.'

-- `assaybank.envelope.v1`
abbrev pub envelope_domain : Text
envelope_domain =
    b'a' ∷ b's' ∷ b's' ∷ b'a' ∷ b'y' ∷ b'b' ∷ b'a' ∷ b'n' ∷ b'k' ∷ dot ∷ b'e' ∷ b'n' ∷ b'v' ∷ b'e'
    ∷ b'l' ∷ b'o' ∷ b'p' ∷ b'e' ∷ dot ∷ b'v' ∷ b'1' ∷ []

unfoldable pub hmac_hex : Platform → Text → Text → Text
hmac_hex env key message = env.hmac_sha256_hex key message

-- The result of the comparison; that its time tells nothing is not modelled.
unfoldable pub constant_time_equals : Text → Text → Bool
unfolding eq_text
constant_time_equals a b = eq_text a b

unfoldable pub signed_message : Text → Text → Text
signed_message prefix payload = envelope_domain ++ (dot ∷ (prefix ++ (dot ∷ payload)))

-- The payload with its signature, behind the prefix.
unfoldable pub seal : Platform → Text → Text → Text → Text
unfolding hmac_hex signed_message
seal env prefix secret payload =
    prefix ++ (dot ∷ (payload ++ (dot ∷ hmac_hex env secret (signed_message prefix payload))))

unfoldable pub seal_envelope : Platform → Text → Claims → Text → Text
unfolding seal
seal_envelope env prefix claims secret =
    seal env prefix secret (env.to_base64url (env.stringify claims))

unfoldable pub read_claims : Platform → Text → Result Json AuthErrorReason
read_claims env payload = elim (env.parse (env.of_base64url payload)) [
  | none ↦ err claims_invalid
  | some claims ↦ ok claims
]

-- The three parts, once the credential is split.
unfoldable pub open_parts : Platform → Text → Text → List Text → Result Json AuthErrorReason
unfolding hmac_hex constant_time_equals signed_message read_claims
open_parts env prefix secret (presented_prefix ∷ (payload ∷ (signature ∷ []))) =
    if length payload == 0
    then err malformed
    else if not (eq_text presented_prefix prefix)
    then err wrong_purpose
    else if not
        (constant_time_equals (hmac_hex env secret (signed_message prefix payload)) signature)
    then err signature_invalid
    else read_claims env payload
open_parts env prefix secret _ = err malformed

unfoldable pub open_envelope : Platform → Text → Text → Text → Result Json AuthErrorReason
unfolding open_parts split_on
open_envelope env credential prefix secret =
    if length credential == 0 || ltb max_credential_length (length credential)
    then err malformed
    else open_parts env prefix secret (split_on dot credential)
