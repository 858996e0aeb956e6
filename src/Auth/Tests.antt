-- ===== src/Auth/Tests.antt =====
-- Tickets and tokens on a platform of a few lines: its hash is constant, its encoding moves every
-- code unit beyond the dot, and its `JSON` writes and reads one object.
use assaybank.Prelude.{
  ◌+◌, ◌-◌, ◌<◌, ◌≡◌, ◌↔◌, ◌⊎◌, refl, Bool, true, none, some, [], ◌∷◌, map, ok, err, arith,
}
use assaybank.Prelude.Text.{Text}
use assaybank.Prelude.Parts.{Lacks}
use assaybank.Auth.Envelope.{Claims, object, Platform, dot, seal, wrong_purpose}
use assaybank.Auth.Envelope.Sealed.{IsDotless}
use assaybank.Auth.Claims.{max_date_ms}
use assaybank.Auth.AttemptToken.{
  AttemptTokenClaims, attempt_claims, attempt_token_prefix, issue_attempt_token,
  verify_attempt_token,
}
use assaybank.Auth.AttemptToken.Carried.{Carries}
use assaybank.Auth.AttemptToken.Scope.{IsFor, verify-issue_iff, verify_attempt_token_ok}
use assaybank.Auth.WsTicket.{Ticket, ticket_claims, issue_ws_ticket, verify_ws_ticket}
use assaybank.Auth.WsTicket.Life.{InWindow, verify-issue_ws_iff, verify_attempt_token-ws_ticket}

abbrev moved : Text → Text
moved [] = []
moved (c ∷ s) = (c + 47) ∷ moved s

moved-Lacks : (s : Text) → Lacks dot (moved s)
unfolding Lacks
moved-Lacks [] = tt
moved-Lacks (c ∷ s) = ((λ e. absurd (omega arith)), moved-Lacks s)

abbrev platform : Claims → Platform
platform claims = record {
  hmac_sha256_hex = λ key message. b'f' ∷ b'f' ∷ [];
  to_base64url = moved;
  of_base64url = map (λ c. c - 47);
  stringify = λ c. b'{' ∷ b'}' ∷ [];
  parse = λ t. some (object claims);
}

platform-IsDotless : (claims : Claims) → IsDotless (platform claims)
unfolding Lacks
platform-IsDotless claims = record {
  hex = λ key message. omega arith;
  base64url = λ t. moved-Lacks t;
}

abbrev token_claims : AttemptTokenClaims
token_claims = record { attempt_id = b'a' ∷ []; org_id = b'o' ∷ []; expires_at = 1_000 }

abbrev ticket : Ticket
ticket = record { session_id = b's' ∷ []; issued_at = 100_000 }

abbrev nonce : Text
nonce = b'n' ∷ []

abbrev secret : Text
secret = b'k' ∷ []

abbrev any_uuid : Text → Bool
any_uuid t = true

abbrev token_platform : Platform
unfolding attempt_claims
token_platform = platform (attempt_claims token_claims)

abbrev ticket_platform : Platform
unfolding ticket_claims
ticket_platform = platform (ticket_claims ticket nonce)

verify-issue_iff_example :
    (verify_attempt_token token_platform any_uuid
        (issue_attempt_token token_platform token_claims secret)
        secret
        999
        (some (b'a' ∷ []))
      ≡ ok token_claims)
    ↔ ((999 < token_claims.expires_at) × IsFor token_claims.attempt_id (some (b'a' ∷ [])))
unfolding issue_attempt_token
verify-issue_iff_example =
    verify-issue_iff token_platform any_uuid token_claims secret 999 (some (b'a' ∷ []))
      (record { attempt_id = refl; org_id = refl; positive = omega arith; in_date = omega arith })
      (platform-IsDotless (attempt_claims token_claims))
      (record { not_empty = λ e. ground arith; read_back = refl }) (omega arith)

verify_attempt_token_ok_example :
    ((payload : Text) × (issue_attempt_token token_platform token_claims secret
        ≡ seal token_platform attempt_token_prefix secret payload)
      × Carries token_platform payload token_claims)
    × ((999 < token_claims.expires_at) ⊎ (max_date_ms < token_claims.expires_at))
    × IsFor token_claims.attempt_id (some (b'a' ∷ []))
verify_attempt_token_ok_example =
    verify_attempt_token_ok token_platform any_uuid
      (issue_attempt_token token_platform token_claims secret) secret 999 (some (b'a' ∷ []))
      token_claims (verify-issue_iff_example.1 ((omega arith), refl))

verify-issue_ws_iff_example :
    (verify_ws_ticket ticket_platform any_uuid
        (issue_ws_ticket ticket_platform ticket nonce secret)
        secret
        159_999
      ≡ ok ticket)
    ↔ InWindow 159_999 ticket
unfolding issue_ws_ticket
verify-issue_ws_iff_example =
    verify-issue_ws_iff ticket_platform any_uuid ticket nonce secret 159_999
      (record {
        session_id = refl;
        positive = omega arith;
        in_date = omega arith;
        some_nonce = omega arith;
        short_nonce = omega arith;
      })
      (platform-IsDotless (ticket_claims ticket nonce))
      (record { not_empty = λ e. ground arith; read_back = refl }) (omega arith)

verify_attempt_token-ws_ticket_example :
    verify_attempt_token ticket_platform any_uuid
      (issue_ws_ticket ticket_platform ticket nonce secret)
      secret
      7
      none
    ≡ err wrong_purpose
verify_attempt_token-ws_ticket_example =
    verify_attempt_token-ws_ticket ticket_platform any_uuid
      (issue_ws_ticket ticket_platform ticket nonce secret) secret secret 159_999 7 none ticket
      (verify-issue_ws_iff_example.1 (omega arith))
