-- ===== src/Auth/AttemptToken/Scope.antt =====
-- Which attempt tokens are accepted, for which attempt and until when.
use assaybank.Prelude.{
  ℕ, ◌≤◌, ◌<◌, ◌≡◌, ◌↔◌, ◌⊎◌, refl, ap, Bool, true, false, Option, none, some, ok, length, arith,
  Result-cases, subst, inl, inr,
}
use assaybank.Prelude.Text.{Text, eq_text_refl, eq_of_eq_text}
use assaybank.Prelude.Parts.{Lacks}
use assaybank.Auth.Envelope.{
  Json, object, Platform, max_credential_length, dot, seal, open_envelope,
}
use assaybank.Auth.Envelope.Sealed.{IsDotless, Reads, open_envelope-seal_envelope, open_envelope_ok}
use assaybank.Auth.Claims.{max_date_ms, get_time, field, as_instant, is_one, as_text}
use assaybank.Auth.AttemptToken.{
  attempt_token_prefix, AttemptTokenClaims, attempt_claims, issue_attempt_token,
  parse_attempt_claims, is_spent, is_other, check_claims, check_parsed, verify_attempt_token,
  parse_parts,
}
use assaybank.Auth.AttemptToken.Carried.{Carries, parse_attempt_claims-Carries, read_claims_ok}

-- The claims that the schema lets through.
pub record IsClaims (is_uuid : Text → Bool) (claims : AttemptTokenClaims) : Type 0 where
  pub attempt_id : is_uuid claims.attempt_id ≡ true
  pub org_id : is_uuid claims.org_id ≡ true
  pub positive : 0 < claims.expires_at
  pub in_date : claims.expires_at ≤ max_date_ms

-- No attempt is expected, or this one.
abbrev pub IsFor : Text → Option Text → Type 0
IsFor attempt_id none = Unit
IsFor attempt_id (some expected) = attempt_id ≡ expected

parse-attempt_claims :
    (is_uuid : Text → Bool) (claims : AttemptTokenClaims)
    → IsClaims is_uuid claims
    → parse_attempt_claims is_uuid (object (attempt_claims claims)) ≡ some claims
unfolding parse_attempt_claims parse_parts attempt_claims field as_instant is_one as_text
parse-attempt_claims is_uuid claims h = rw (h.attempt_id, h.org_id) (ground arith)

is_other_iff :
    (attempt_id : Text) (expected : Option Text)
    → (is_other attempt_id expected ≡ false) ↔ IsFor attempt_id expected
unfolding is_other
is_other_iff attempt_id none = (λ _. tt, λ _. refl)
is_other_iff attempt_id (some expected) = (
  λ h. ground (arith, eq_of_eq_text attempt_id expected),
  λ e. rw (e, eq_text_refl expected) refl,
)

check_claims_iff :
    (now : ℕ) (expected : Option Text) (claims : AttemptTokenClaims)
    → claims.expires_at ≤ max_date_ms
    → (check_claims now expected claims ≡ ok claims)
      ↔ ((now < claims.expires_at) × IsFor claims.attempt_id expected)
unfolding check_claims is_spent get_time is_other
check_claims_iff now expected claims h = (
  λ k. (ground arith, (is_other_iff claims.attempt_id expected).0 (ground arith)),
  λ k.
      let same = (is_other_iff claims.attempt_id expected).1 k.1 in let early = k.0 in ground arith,
)

verify-opened :
    (env : Platform) (is_uuid : Text → Bool) (token secret : Text) (now : ℕ)
    (expected : Option Text) (json : Json)
    → open_envelope env token attempt_token_prefix secret ≡ ok json
    → verify_attempt_token env is_uuid token secret now expected
      ≡ check_parsed now expected (parse_attempt_claims is_uuid json)
unfolding verify_attempt_token
verify-opened env is_uuid token secret now expected json h = rw h refl

prefix-Lacks : Lacks dot attempt_token_prefix
unfolding Lacks
prefix-Lacks = omega arith

-- An issued token is accepted exactly before the instant that it expires, and where an attempt is
-- expected only for that one. The ids of the claims are UUIDs, the instant is within the range of
-- dates and not 0, the platform's encodings have no dot and read back these claims, and the token is
-- not too long.
pub verify-issue_iff :
    (env : Platform) (is_uuid : Text → Bool) (claims : AttemptTokenClaims) (secret : Text) (now : ℕ)
    (expected : Option Text)
    → IsClaims is_uuid claims
    → IsDotless env
    → Reads env (attempt_claims claims)
    → length (issue_attempt_token env claims secret) ≤ max_credential_length
    → (verify_attempt_token env is_uuid (issue_attempt_token env claims secret) secret now expected
        ≡ ok claims)
      ↔ ((now < claims.expires_at) × IsFor claims.attempt_id expected)
unfolding issue_attempt_token check_parsed
verify-issue_iff env is_uuid claims secret now expected c d r fits =
    let opened =
      open_envelope-seal_envelope env attempt_token_prefix (attempt_claims claims) secret d r
        prefix-Lacks fits in
    rw
      (
        verify-opened env is_uuid _ secret now expected _ opened,
        parse-attempt_claims is_uuid claims c,
      )
      (check_claims_iff now expected claims c.in_date)

check_claims_ok :
    (now : ℕ) (expected : Option Text) (claims accepted : AttemptTokenClaims)
    → check_claims now expected claims ≡ ok accepted
    → (claims ≡ accepted)
      × ((now < claims.expires_at) ⊎ (max_date_ms < claims.expires_at))
      × IsFor claims.attempt_id expected
unfolding check_claims is_spent get_time
check_claims_ok now expected claims accepted h =
    (ground arith, ground arith, (is_other_iff claims.attempt_id expected).0 (ground arith))

check_parsed_ok :
    (now : ℕ) (expected : Option Text) (parsed : Option AttemptTokenClaims)
    (accepted : AttemptTokenClaims)
    → check_parsed now expected parsed ≡ ok accepted
    → (parsed ≡ some accepted)
      × ((now < accepted.expires_at) ⊎ (max_date_ms < accepted.expires_at))
      × IsFor accepted.attempt_id expected
unfolding check_parsed
check_parsed_ok now expected none accepted h = cc
check_parsed_ok now expected (some claims) accepted h =
    let (same, life, scope) = check_claims_ok now expected claims accepted h in
    (
      ap (λ c. some c) same,
      subst (λ (c : AttemptTokenClaims). (now < c.expires_at) ⊎ (max_date_ms < c.expires_at)) same
          life,
      subst (λ (c : AttemptTokenClaims). IsFor c.attempt_id expected) same scope,
    )

-- What opened to claims that were accepted.
verify_ok :
    (env : Platform) (is_uuid : Text → Bool) (token secret : Text) (now : ℕ)
    (expected : Option Text) (accepted : AttemptTokenClaims)
    → verify_attempt_token env is_uuid token secret now expected ≡ ok accepted
    → (json : Json) × (open_envelope env token attempt_token_prefix secret ≡ ok json)
      × (check_parsed now expected (parse_attempt_claims is_uuid json) ≡ ok accepted)
unfolding verify_attempt_token
verify_ok env is_uuid token secret now expected accepted h =
    elim (Result-cases (open_envelope env token attempt_token_prefix secret)) [
      | inl (json, e) ↦ (json, e, ground (arith, e))
      | inr (reason, e) ↦ ground (arith, e)
    ]

-- An accepted token carries the signature of the server's secret over a payload that decodes to the
-- accepted claims themselves, under the purpose of an attempt; it is within its life, unless its
-- expiry is beyond the range of dates; and it is for the attempt that is expected, if one is.
pub verify_attempt_token_ok :
    (env : Platform) (is_uuid : Text → Bool) (token secret : Text) (now : ℕ)
    (expected : Option Text) (accepted : AttemptTokenClaims)
    → verify_attempt_token env is_uuid token secret now expected ≡ ok accepted
    → ((payload : Text) × (token ≡ seal env attempt_token_prefix secret payload)
        × Carries env payload accepted)
      × ((now < accepted.expires_at) ⊎ (max_date_ms < accepted.expires_at))
      × IsFor accepted.attempt_id expected
verify_attempt_token_ok env is_uuid token secret now expected accepted h =
    let (json, opened, checked) = verify_ok env is_uuid token secret now expected accepted h in
    let (payload, sealed, _, read) =
      open_envelope_ok env token attempt_token_prefix secret json opened in
    let (parsed, life, scope) = check_parsed_ok now expected _ accepted checked in
    let carried =
      parse_attempt_claims-Carries env is_uuid payload json accepted
        (read_claims_ok env payload json read) parsed in
    ((payload, sealed, carried), life, scope)
