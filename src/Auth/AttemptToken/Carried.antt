-- ===== src/Auth/AttemptToken/Carried.antt =====
-- What a payload says of the claims that were read from it.
use assaybank.Prelude.{
  ℕ, ◌≡◌, refl, ap, Bool, true, Option, none, some, [], ◌∷◌, ok, arith, sym, ◌∙◌, Bool-cases,
  Option-cases, subst, inl, inr,
}
use assaybank.Prelude.Text.{Text, eq_text, eq_of_eq_text}
use assaybank.Auth.Envelope.{
  Json, object, not_object, Claims, Scalar, number, text, other_value, read_claims, Platform,
}
use assaybank.Auth.Claims.{field, as_instant, is_one, as_text}
use assaybank.Auth.AttemptToken.{
  AttemptTokenClaims, parse_attempt_claims, parse_parts, attempt_purpose,
}
use assaybank.Prelude.Int.{pos, negsuc}
use assaybank.Prelude.Num.{nat, whole, fraction, nonfinite}

-- The payload decodes to an object with these claims, marked as an attempt's of version 1.
pub record Carries (env : Platform) (payload : Text) (claims : AttemptTokenClaims) : Type 0 where
  pub fields : Claims
  pub is_parsed : env.parse (env.of_base64url payload) ≡ some (object fields)
  pub version : field (b'v' ∷ []) fields ≡ some (number (nat 1))
  pub purpose : field (b'p' ∷ []) fields ≡ some (text attempt_purpose)
  pub attempt_id : field (b'a' ∷ b'i' ∷ b'd' ∷ []) fields ≡ some (text claims.attempt_id)
  pub org_id : field (b'o' ∷ b'i' ∷ b'd' ∷ []) fields ≡ some (text claims.org_id)
  pub expires_at : field (b'e' ∷ b'x' ∷ b'p' ∷ []) fields ≡ some (number (nat claims.expires_at))

is_one_lem : (v : Option Scalar) → is_one v ≡ true → v ≡ some (number (nat 1))
unfolding is_one
is_one_lem none h = cc
is_one_lem (some (number (whole (pos n)))) h =
    ap (λ (k : ℕ). some (number (nat k))) (ground (arith, h))
is_one_lem (some (number (whole (negsuc n)))) h = cc
is_one_lem (some (number (fraction z))) h = cc
is_one_lem (some (number nonfinite)) h = cc
is_one_lem (some (text t)) h = cc
is_one_lem (some other_value) h = cc

as_text_lem :
    (test : Text → Bool) (v : Option Scalar) (t : Text)
    → as_text test v ≡ some t
    → (v ≡ some (text t)) × (test t ≡ true)
unfolding as_text
as_text_lem test none t h = cc
as_text_lem test (some (text u)) t h = elim (Bool-cases (test u)) [
  | inl e ↦
      let same : u ≡ t = ground (arith, e) in
      (ap (λ w. some (text w)) same, subst (λ w. test w ≡ true) same e)
  | inr e ↦ absurd (ground (arith, e))
]
as_text_lem test (some (number n)) t h = cc
as_text_lem test (some other_value) t h = cc

as_instant_lem : (v : Option Scalar) (n : ℕ) → as_instant v ≡ some n → v ≡ some (number (nat n))
unfolding as_instant
as_instant_lem none n h = cc
as_instant_lem (some (number (whole (pos k)))) n h =
    ap (λ (m : ℕ). some (number (nat m))) (ground arith)
as_instant_lem (some (number (whole (negsuc k)))) n h = cc
as_instant_lem (some (number (fraction z))) n h = cc
as_instant_lem (some (number nonfinite)) n h = cc
as_instant_lem (some (text t)) n h = cc
as_instant_lem (some other_value) n h = cc

parse_parts-some :
    (one : Bool) (p a o : Option Text) (e : Option ℕ) (claims : AttemptTokenClaims)
    → parse_parts one p a o e ≡ some claims
    → (one ≡ true)
      × ((purpose : Text) × (p ≡ some purpose))
      × (a ≡ some claims.attempt_id)
      × (o ≡ some claims.org_id)
      × (e ≡ some claims.expires_at)
unfolding parse_parts
parse_parts-some true (some p) (some a) (some o) (some e) claims h =
    let same : record { attempt_id = a; org_id = o; expires_at = e } ≡ claims = cc in
    (
      refl,
      (p, refl),
      ap (λ (c : AttemptTokenClaims). some c.attempt_id) same,
      ap (λ (c : AttemptTokenClaims). some c.org_id) same,
      ap (λ (c : AttemptTokenClaims). some c.expires_at) same,
    )
parse_parts-some _ _ _ _ _ claims h = cc

pub parse_attempt_claims-Carries :
    (env : Platform) (is_uuid : Text → Bool) (payload : Text) (json : Json)
    (claims : AttemptTokenClaims)
    → env.parse (env.of_base64url payload) ≡ some json
    → parse_attempt_claims is_uuid json ≡ some claims
    → Carries env payload claims
unfolding parse_attempt_claims
parse_attempt_claims-Carries env is_uuid payload not_object claims p h = cc
parse_attempt_claims-Carries env is_uuid payload (object fields) claims p h =
    let (one, (purpose, named), a, o, e) = parse_parts-some _ _ _ _ _ claims h in
    let (is_named, eq) = as_text_lem (eq_text attempt_purpose) _ purpose named in
    record {
      fields = fields;
      is_parsed = p;
      version = is_one_lem _ one;
      purpose = is_named ∙ ap (λ t. some (text t)) (sym (eq_of_eq_text attempt_purpose purpose eq));
      attempt_id = (as_text_lem is_uuid _ claims.attempt_id a).0;
      org_id = (as_text_lem is_uuid _ claims.org_id o).0;
      expires_at = as_instant_lem _ claims.expires_at e;
    }

pub read_claims_ok :
    (env : Platform) (payload : Text) (json : Json)
    → read_claims env payload ≡ ok json
    → env.parse (env.of_base64url payload) ≡ some json
unfolding read_claims
read_claims_ok env payload json h = elim (Option-cases (env.parse (env.of_base64url payload))) [
  | inl e ↦ absurd (ground (arith, e))
  | inr (found, e) ↦ let same : found ≡ json = ground (arith, e) in e ∙ ap (λ j. some j) same
]
