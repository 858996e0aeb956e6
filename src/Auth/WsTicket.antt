-- ===== src/Auth/WsTicket.antt =====
-- packages/auth/src/ws-ticket.ts: the ticket that opens a socket of a live interview.
pub mod Life
use assaybank.Prelude.{
  ℕ, ◌+◌, ◌*◌, Bool, true, false, ◌&&◌, Option, none, some, [], ◌∷◌, Result, ok, err, ◌>>=◌, length,
  ltb, leb, if◌then◌else◌,
}
use assaybank.Prelude.Num.{nat}
use assaybank.Prelude.Text.{Text, eq_text}
use assaybank.Auth.Envelope.{
  AuthErrorReason, claims_invalid, expired, not_yet_valid, number, text, Claims, Json, object,
  not_object, Platform, seal_envelope, open_envelope,
}
use assaybank.Auth.Claims.{field, as_instant, is_one, as_text, get_time}

-- `abwt1`
abbrev pub ws_ticket_prefix : Text
ws_ticket_prefix = b'a' ∷ b'b' ∷ b'w' ∷ b't' ∷ b'1' ∷ []

abbrev pub ws_ticket_ttl_seconds : ℕ
ws_ticket_ttl_seconds = 60

abbrev pub ws_ticket_clock_skew_seconds : ℕ
ws_ticket_clock_skew_seconds = 5

-- `issued_at` is the time value that the `Date` was made of.
pub record Ticket : Type 0 where
  pub session_id : Text
  pub issued_at : ℕ

-- `ws`
abbrev ws_purpose : Text
ws_purpose = b'w' ∷ b's' ∷ []

unfoldable pub ticket_claims : Ticket → Text → Claims
ticket_claims ticket nonce =
    (b'v' ∷ [], number (nat 1))
    ∷ (b'p' ∷ [], text ws_purpose)
    ∷ (b's' ∷ b'i' ∷ b'd' ∷ [], text ticket.session_id)
    ∷ (b'i' ∷ b'a' ∷ b't' ∷ [], number (nat ticket.issued_at))
    ∷ (b'n' ∷ [], text nonce)
    ∷ []

-- The nonce is the random bytes that the code draws, in base64url.
unfoldable pub issue_ws_ticket : Platform → Ticket → Text → Text → Text
unfolding ticket_claims seal_envelope
issue_ws_ticket env ticket nonce secret =
    seal_envelope env ws_ticket_prefix (ticket_claims ticket nonce) secret

-- `z.string().min(1).max(64)`
unfoldable pub is_nonce : Text → Bool
is_nonce n = leb 1 (length n) && leb (length n) 64

unfoldable pub parse_parts :
    Bool → Option Text → Option Text → Option ℕ → Option Text → Option Ticket
parse_parts true (some purpose) (some sid) (some iat) (some nonce) =
    some (record { session_id = sid; issued_at = iat })
parse_parts _ _ _ _ _ = none

-- `WsTicketClaimsSchema.safeParse`; `is_uuid` is the test of `z.uuid()`.
unfoldable pub parse_ticket_claims : (Text → Bool) → Json → Option Ticket
unfolding parse_parts field as_instant is_one as_text is_nonce
parse_ticket_claims is_uuid not_object = none
parse_ticket_claims is_uuid (object claims) =
    parse_parts (is_one (field (b'v' ∷ []) claims))
      (as_text (eq_text ws_purpose) (field (b'p' ∷ []) claims))
      (as_text is_uuid (field (b's' ∷ b'i' ∷ b'd' ∷ []) claims))
      (as_instant (field (b'i' ∷ b'a' ∷ b't' ∷ []) claims))
      (as_text is_nonce (field (b'n' ∷ []) claims))

-- `ageMs < -WS_TICKET_CLOCK_SKEW_SECONDS * 1000`
unfoldable pub is_early : ℕ → Option ℕ → Bool
is_early now none = false
is_early now (some issued_at) = ltb (now + ws_ticket_clock_skew_seconds * 1000) issued_at

-- `ageMs >= WS_TICKET_TTL_SECONDS * 1000`
unfoldable pub is_late : ℕ → Option ℕ → Bool
is_late now none = false
is_late now (some issued_at) = leb (issued_at + ws_ticket_ttl_seconds * 1000) now

unfoldable pub check_age : ℕ → Ticket → Result Ticket AuthErrorReason
unfolding is_early is_late get_time
check_age now ticket =
    if is_early now (get_time ticket.issued_at)
    then err not_yet_valid
    else if is_late now (get_time ticket.issued_at)
    then err expired
    else ok ticket

unfoldable pub check_parsed : ℕ → Option Ticket → Result Ticket AuthErrorReason
unfolding check_age
check_parsed now none = err claims_invalid
check_parsed now (some ticket) = check_age now ticket

unfoldable pub verify_ws_ticket :
    Platform → (Text → Bool) → Text → Text → ℕ → Result Ticket AuthErrorReason
unfolding open_envelope parse_ticket_claims check_parsed
verify_ws_ticket env is_uuid ticket secret now =
    open_envelope env ticket ws_ticket_prefix secret >>= λ opened.
    check_parsed now (parse_ticket_claims is_uuid opened)
