-- ===== src/Auth/Envelope/Sealed.antt =====
-- What an envelope is opened to, and which are.
use assaybank.Prelude.{
  ◌≤◌, ◌<◌, ◌≡◌, ◌≢◌, refl, sym, ap, some, List, [], ◌∷◌, ◌++◌, ok, err, length, arith, ◌∙◌,
}
use assaybank.Prelude.Text.{Text, eq_text_refl, eq_of_eq_text}
use assaybank.Prelude.Parts.{
  split_on, join_with, Lacks, split_on-append, split_on-Lacks, join_with-split_on,
}
use assaybank.Auth.Envelope.{
  wrong_purpose, Claims, Json, object, Platform, max_credential_length, dot, hmac_hex,
  constant_time_equals, signed_message, seal, seal_envelope, read_claims, open_parts, open_envelope,
}

-- The digits of hexadecimal and base64url are letters, digits, `-` and `_`.
pub record IsDotless (env : Platform) : Type 0 where
  pub hex : (key message : Text) → Lacks dot (env.hmac_sha256_hex key message)
  pub base64url : (t : Text) → Lacks dot (env.to_base64url t)

-- The encodings read back what they wrote of these claims.
pub record Reads (env : Platform) (claims : Claims) : Type 0 where
  pub not_empty : env.to_base64url (env.stringify claims) ≢ []
  pub read_back :
      env.parse (env.of_base64url (env.to_base64url (env.stringify claims))) ≡ some (object claims)

-- The parts of a sealed payload.
split_on-seal :
    (env : Platform) (prefix secret payload : Text)
    → IsDotless env
    → Lacks dot prefix
    → Lacks dot payload
    → split_on dot (seal env prefix secret payload)
      ≡ prefix ∷ payload ∷ hmac_hex env secret (signed_message prefix payload) ∷ []
unfolding seal hmac_hex
split_on-seal env prefix secret payload h p q =
    let mac = env.hmac_sha256_hex secret (signed_message prefix payload) in
    rw
      (
        split_on-append dot prefix (payload ++ (dot ∷ mac)) p,
        split_on-append dot payload mac q,
        split_on-Lacks dot mac (h.hex secret (signed_message prefix payload)),
      )
      refl

abbrev sealed_parts : Platform → Text → Text → Text → List Text
sealed_parts env prefix secret payload =
    prefix ∷ payload ∷ hmac_hex env secret (signed_message prefix payload) ∷ []

open_parts-sealed_parts :
    (env : Platform) (prefix secret payload : Text)
    → payload ≢ []
    → open_parts env prefix secret (sealed_parts env prefix secret payload)
      ≡ read_claims env payload
unfolding open_parts constant_time_equals
open_parts-sealed_parts env prefix secret [] h = absurd (h refl)
open_parts-sealed_parts env prefix secret (c ∷ payload) h =
    rw
      (
        eq_text_refl prefix,
        eq_text_refl (hmac_hex env secret (signed_message prefix (c ∷ payload))),
      )
      (ground arith)

length-seal_pos :
    (env : Platform) (prefix secret payload : Text) → 0 < length (seal env prefix secret payload)
unfolding seal
length-seal_pos env [] secret payload = omega arith
length-seal_pos env (c ∷ prefix) secret payload = omega arith

open_envelope-parts :
    (env : Platform) (credential prefix secret : Text)
    → 0 < length credential
    → length credential ≤ max_credential_length
    → open_envelope env credential prefix secret
      ≡ open_parts env prefix secret (split_on dot credential)
unfolding open_envelope
open_envelope-parts env credential prefix secret h k = ground arith

read_claims-Reads :
    (env : Platform) (claims : Claims)
    → Reads env claims
    → read_claims env (env.to_base64url (env.stringify claims)) ≡ ok (object claims)
unfolding read_claims
read_claims-Reads env claims r = rw (r.read_back, read_claims) refl

-- What was sealed is opened to the claims it was made of, if the prefix has no dot, the platform's
-- encodings have none either and read back these claims, and the credential is not too long.
pub open_envelope-seal_envelope :
    (env : Platform) (prefix : Text) (claims : Claims) (secret : Text)
    → IsDotless env
    → Reads env claims
    → Lacks dot prefix
    → length (seal_envelope env prefix claims secret) ≤ max_credential_length
    → open_envelope env (seal_envelope env prefix claims secret) prefix secret ≡ ok (object claims)
unfolding seal_envelope
open_envelope-seal_envelope env prefix claims secret h r p fits =
    let payload = env.to_base64url (env.stringify claims) in
    open_envelope-parts env _ prefix secret (length-seal_pos env prefix secret payload) fits
    ∙ ap (open_parts env prefix secret)
        (split_on-seal env prefix secret payload h p (h.base64url (env.stringify claims)))
    ∙ open_parts-sealed_parts env prefix secret payload r.not_empty
    ∙ read_claims-Reads env claims r

-- The parts of what is opened.
record Opened (env : Platform) (prefix secret : Text) (json : Json) (parts : List Text)
    : Type 0 where
  payload : Text
  is_split : parts ≡ prefix ∷ payload ∷ hmac_hex env secret (signed_message prefix payload) ∷ []
  not_empty : 0 < length payload
  is_read : read_claims env payload ≡ ok json

Opened-parts :
    (env : Platform) (prefix secret : Text) (json : Json) (presented payload signature : Text)
    → open_parts env prefix secret (presented ∷ (payload ∷ (signature ∷ []))) ≡ ok json
    → Opened env prefix secret json (presented ∷ (payload ∷ (signature ∷ [])))
unfolding open_parts constant_time_equals
Opened-parts env prefix secret json presented payload signature h =
    let mac = hmac_hex env secret (signed_message prefix payload) in
    let same : presented ≡ prefix = ground (arith, eq_of_eq_text presented prefix) in
    let signed : mac ≡ signature = ground (arith, eq_of_eq_text mac signature) in
    record {
      payload = payload;
      is_split = cc (same, signed);
      not_empty = ground arith;
      is_read = ground arith;
    }

open_parts-Opened :
    (env : Platform) (prefix secret : Text) (json : Json) (parts : List Text)
    → open_parts env prefix secret parts ≡ ok json
    → Opened env prefix secret json parts
unfolding open_parts
open_parts-Opened env prefix secret json (presented ∷ (payload ∷ (signature ∷ []))) h =
    Opened-parts env prefix secret json presented payload signature h
open_parts-Opened env prefix secret json [] h = cc
open_parts-Opened env prefix secret json (a ∷ []) h = cc
open_parts-Opened env prefix secret json (a ∷ (b ∷ [])) h = cc
open_parts-Opened env prefix secret json (a ∷ (b ∷ (c ∷ (d ∷ parts)))) h = cc

open_envelope-Opened :
    (env : Platform) (credential prefix secret : Text) (json : Json)
    → open_envelope env credential prefix secret ≡ ok json
    → Opened env prefix secret json (split_on dot credential)
      × (length credential ≤ max_credential_length)
      × (0 < length credential)
unfolding open_envelope
open_envelope-Opened env credential prefix secret json h = (
  open_parts-Opened env prefix secret json (split_on dot credential) (ground arith),
  ground arith,
  ground arith,
)

joined :
    (env : Platform) (prefix secret payload : Text)
    → join_with dot (sealed_parts env prefix secret payload) ≡ seal env prefix secret payload
unfolding join_with seal
joined env prefix secret payload = refl

refused :
    (env : Platform) (prefix other secret payload signature : Text)
    → 0 < length payload
    → prefix ≢ other
    → open_parts env other secret (prefix ∷ (payload ∷ (signature ∷ []))) ≡ err wrong_purpose
unfolding open_parts
refused env prefix other secret payload signature h k = ground (arith, eq_of_eq_text prefix other)

-- What is opened is the prefix and a payload with the signature of just these two under the secret,
-- is not too long, and was read from that payload.
pub open_envelope_ok :
    (env : Platform) (credential prefix secret : Text) (json : Json)
    → open_envelope env credential prefix secret ≡ ok json
    → (payload : Text) × (credential ≡ seal env prefix secret payload)
      × (length credential ≤ max_credential_length)
      × (read_claims env payload ≡ ok json)
unfolding seal
open_envelope_ok env credential prefix secret json h =
    let (o, fits, _) = open_envelope-Opened env credential prefix secret json h in
    (
      o.payload,
      sym (join_with-split_on dot credential)
          ∙ ap (join_with dot) o.is_split
          ∙ joined env prefix secret o.payload,
      fits,
      o.is_read,
    )

-- A credential of one purpose is of the wrong purpose for every other, whatever the secrets.
pub open_envelope-wrong_purpose :
    (env : Platform) (credential prefix other secret secret' : Text) (json : Json)
    → open_envelope env credential prefix secret ≡ ok json
    → prefix ≢ other
    → open_envelope env credential other secret' ≡ err wrong_purpose
open_envelope-wrong_purpose env credential prefix other secret secret' json h k =
    let (o, fits, some_text) = open_envelope-Opened env credential prefix secret json h in
    open_envelope-parts env credential other secret' some_text fits
    ∙ ap (open_parts env other secret') o.is_split
    ∙ refused env prefix other secret' o.payload _ o.not_empty k
