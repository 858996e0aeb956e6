-- ===== src/Auth/AttemptToken.antt =====
-- packages/auth/src/attempt-token.ts: the candidate's credential, scoped to one attempt.
pub mod Carried
pub mod Scope
use assaybank.Prelude.{
  ℕ, Bool, true, false, not, Option, none, some, [], ◌∷◌, Result, ok, err, ◌>>=◌, leb,
  if◌then◌else◌,
}
use assaybank.Prelude.Num.{nat}
use assaybank.Prelude.Text.{Text, eq_text}
use assaybank.Auth.Envelope.{
  AuthErrorReason, claims_invalid, expired, attempt_mismatch, number, text, Claims, Json, object,
  not_object, Platform, seal_envelope, open_envelope,
}
use assaybank.Auth.Claims.{field, as_instant, is_one, as_text, get_time}

-- `abat1`
abbrev pub attempt_token_prefix : Text
attempt_token_prefix = b'a' ∷ b'b' ∷ b'a' ∷ b't' ∷ b'1' ∷ []

-- `expires_at` is the time value that the `Date` was made of.
pub record AttemptTokenClaims : Type 0 where
  pub attempt_id : Text
  pub org_id : Text
  pub expires_at : ℕ

-- `attempt`
abbrev pub attempt_purpose : Text
attempt_purpose = b'a' ∷ b't' ∷ b't' ∷ b'e' ∷ b'm' ∷ b'p' ∷ b't' ∷ []

unfoldable pub attempt_claims : AttemptTokenClaims → Claims
attempt_claims claims =
    (b'v' ∷ [], number (nat 1))
    ∷ (b'p' ∷ [], text attempt_purpose)
    ∷ (b'a' ∷ b'i' ∷ b'd' ∷ [], text claims.attempt_id)
    ∷ (b'o' ∷ b'i' ∷ b'd' ∷ [], text claims.org_id)
    ∷ (b'e' ∷ b'x' ∷ b'p' ∷ [], number (nat claims.expires_at))
    ∷ []

unfoldable pub issue_attempt_token : Platform → AttemptTokenClaims → Text → Text
unfolding attempt_claims seal_envelope
issue_attempt_token env claims secret =
    seal_envelope env attempt_token_prefix (attempt_claims claims) secret

-- The parts of `AttemptClaimsSchema`; `is_uuid` is the test of `z.uuid()`.
unfoldable pub parse_parts :
    Bool → Option Text → Option Text → Option Text → Option ℕ → Option AttemptTokenClaims
parse_parts true (some purpose) (some aid) (some oid) (some exp) =
    some (record { attempt_id = aid; org_id = oid; expires_at = exp })
parse_parts _ _ _ _ _ = none

-- `AttemptClaimsSchema.safeParse`
unfoldable pub parse_attempt_claims : (Text → Bool) → Json → Option AttemptTokenClaims
unfolding parse_parts field as_instant is_one as_text
parse_attempt_claims is_uuid not_object = none
parse_attempt_claims is_uuid (object claims) =
    parse_parts (is_one (field (b'v' ∷ []) claims))
      (as_text (eq_text attempt_purpose) (field (b'p' ∷ []) claims))
      (as_text is_uuid (field (b'a' ∷ b'i' ∷ b'd' ∷ []) claims))
      (as_text is_uuid (field (b'o' ∷ b'i' ∷ b'd' ∷ []) claims))
      (as_instant (field (b'e' ∷ b'x' ∷ b'p' ∷ []) claims))

-- `clock.now().getTime() >= claims.expiresAt.getTime()`
unfoldable pub is_spent : ℕ → Option ℕ → Bool
is_spent now none = false
is_spent now (some expires_at) = leb expires_at now

-- No expected attempt, or another one.
unfoldable pub is_other : Text → Option Text → Bool
unfolding eq_text
is_other attempt_id none = false
is_other attempt_id (some expected) = not (eq_text attempt_id expected)

-- Expiry, then scope.
unfoldable pub check_claims :
    ℕ → Option Text → AttemptTokenClaims → Result AttemptTokenClaims AuthErrorReason
unfolding is_spent is_other get_time
check_claims now expected claims =
    if is_spent now (get_time claims.expires_at)
    then err expired
    else if is_other claims.attempt_id expected
    then err attempt_mismatch
    else ok claims

unfoldable pub check_parsed :
    ℕ → Option Text → Option AttemptTokenClaims → Result AttemptTokenClaims AuthErrorReason
unfolding check_claims
check_parsed now expected none = err claims_invalid
check_parsed now expected (some claims) = check_claims now expected claims

unfoldable pub verify_attempt_token :
    Platform
    → (Text → Bool)
    → Text
    → Text
    → ℕ
    → Option Text
    → Result AttemptTokenClaims AuthErrorReason
unfolding open_envelope parse_attempt_claims check_parsed
verify_attempt_token env is_uuid token secret now expected =
    open_envelope env token attempt_token_prefix secret >>= λ opened.
    check_parsed now expected (parse_attempt_claims is_uuid opened)
