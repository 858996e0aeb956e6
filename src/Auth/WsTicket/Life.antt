-- ===== src/Auth/WsTicket/Life.antt =====
-- Which tickets are accepted, and when; and that no ticket is an attempt token.
use assaybank.Prelude.{
  ℕ, ◌+◌, ◌≤◌, ◌<◌, ◌≡◌, ◌≢◌, ◌↔◌, ◌⊎◌, refl, ap, Bool, true, Option, none, some, ok, err, length,
  arith, Result-cases, subst, inl, inr,
}
use assaybank.Prelude.Text.{Text, eq_text, eq_text_iff}
use assaybank.Prelude.Parts.{Lacks}
use assaybank.Auth.Envelope.{
  wrong_purpose, Json, object, Platform, max_credential_length, dot, open_envelope,
}
use assaybank.Auth.Envelope.Sealed.{
  IsDotless, Reads, open_envelope-seal_envelope, open_envelope-wrong_purpose,
}
use assaybank.Auth.Claims.{max_date_ms, get_time, field, as_instant, is_one, as_text}
use assaybank.Auth.AttemptToken.{attempt_token_prefix, verify_attempt_token}
use assaybank.Auth.WsTicket.{
  ws_ticket_prefix, Ticket, ticket_claims, issue_ws_ticket, parse_ticket_claims, is_early, is_late,
  is_nonce, check_age, check_parsed, verify_ws_ticket, parse_parts,
}

-- The ticket and the nonce that the schema lets through.
pub record IsTicket (is_uuid : Text → Bool) (ticket : Ticket) (nonce : Text) : Type 0 where
  pub session_id : is_uuid ticket.session_id ≡ true
  pub positive : 0 < ticket.issued_at
  pub in_date : ticket.issued_at ≤ max_date_ms
  pub some_nonce : 1 ≤ length nonce
  pub short_nonce : length nonce ≤ 64

-- From five seconds before the issue until sixty seconds after it.
abbrev pub InWindow : ℕ → Ticket → Type 0
InWindow now ticket = (ticket.issued_at ≤ now + 5000) × (now < ticket.issued_at + 60_000)

parse-ticket_claims :
    (is_uuid : Text → Bool) (ticket : Ticket) (nonce : Text)
    → IsTicket is_uuid ticket nonce
    → parse_ticket_claims is_uuid (object (ticket_claims ticket nonce)) ≡ some ticket
unfolding parse_ticket_claims parse_parts ticket_claims field as_instant is_one as_text is_nonce
parse-ticket_claims is_uuid ticket nonce h = rw h.session_id (ground arith)

check_age_iff :
    (now : ℕ) (ticket : Ticket)
    → ticket.issued_at ≤ max_date_ms
    → (check_age now ticket ≡ ok ticket) ↔ InWindow now ticket
unfolding check_age is_early is_late get_time
check_age_iff now ticket h = ground arith

verify-opened :
    (env : Platform) (is_uuid : Text → Bool) (credential secret : Text) (now : ℕ) (json : Json)
    → open_envelope env credential ws_ticket_prefix secret ≡ ok json
    → verify_ws_ticket env is_uuid credential secret now
      ≡ check_parsed now (parse_ticket_claims is_uuid json)
unfolding verify_ws_ticket
verify-opened env is_uuid credential secret now json h = rw h refl

prefix-Lacks : Lacks dot ws_ticket_prefix
unfolding Lacks
prefix-Lacks = omega arith

-- An issued ticket is accepted exactly from five seconds before its issue until sixty seconds after
-- it. Its session is a UUID, its nonce has 1 to 64 characters, the instant is within the range of
-- dates and not 0, the platform's encodings have no dot and read back these claims, and the ticket
-- is not too long.
pub verify-issue_ws_iff :
    (env : Platform) (is_uuid : Text → Bool) (ticket : Ticket) (nonce secret : Text) (now : ℕ)
    → IsTicket is_uuid ticket nonce
    → IsDotless env
    → Reads env (ticket_claims ticket nonce)
    → length (issue_ws_ticket env ticket nonce secret) ≤ max_credential_length
    → (verify_ws_ticket env is_uuid (issue_ws_ticket env ticket nonce secret) secret now
        ≡ ok ticket)
      ↔ InWindow now ticket
unfolding issue_ws_ticket check_parsed
verify-issue_ws_iff env is_uuid ticket nonce secret now c d r fits =
    let opened =
      open_envelope-seal_envelope env ws_ticket_prefix (ticket_claims ticket nonce) secret d r
        prefix-Lacks fits in
    rw (verify-opened env is_uuid _ secret now _ opened, parse-ticket_claims is_uuid ticket nonce c)
      (check_age_iff now ticket c.in_date)

check_parsed_ok :
    (now : ℕ) (parsed : Option Ticket) (accepted : Ticket)
    → check_parsed now parsed ≡ ok accepted
    → (parsed ≡ some accepted) × (InWindow now accepted ⊎ (max_date_ms < accepted.issued_at))
unfolding check_parsed check_age is_early is_late get_time
check_parsed_ok now none accepted h = cc
check_parsed_ok now (some ticket) accepted h =
    let same : ticket ≡ accepted = ground arith in
    (
      ap (λ t. some t) same,
      subst (λ (t : Ticket). InWindow now t ⊎ (max_date_ms < t.issued_at)) same (ground arith),
    )

-- What opened to a ticket that was accepted.
pub verify_ws_ok :
    (env : Platform) (is_uuid : Text → Bool) (credential secret : Text) (now : ℕ)
    (accepted : Ticket)
    → verify_ws_ticket env is_uuid credential secret now ≡ ok accepted
    → (json : Json) × (open_envelope env credential ws_ticket_prefix secret ≡ ok json)
      × (parse_ticket_claims is_uuid json ≡ some accepted)
      × (InWindow now accepted ⊎ (max_date_ms < accepted.issued_at))
unfolding verify_ws_ticket
verify_ws_ok env is_uuid credential secret now accepted h =
    elim (Result-cases (open_envelope env credential ws_ticket_prefix secret)) [
      | inl (json, e) ↦
          let (parsed, life) =
            check_parsed_ok now (parse_ticket_claims is_uuid json) accepted (ground (arith, e)) in
          (json, e, parsed, life)
      | inr (reason, e) ↦ ground (arith, e)
    ]

other_prefix : ws_ticket_prefix ≢ attempt_token_prefix
unfolding eq_text
other_prefix e = ground (arith, (eq_text_iff ws_ticket_prefix attempt_token_prefix).1 e)

-- A credential that opens a socket is refused as an attempt token for its purpose, whatever the
-- secrets, the clock and the attempt that is expected.
pub verify_attempt_token-ws_ticket :
    (env : Platform) (is_uuid : Text → Bool) (credential secret secret' : Text) (now later : ℕ)
    (expected : Option Text) (accepted : Ticket)
    → verify_ws_ticket env is_uuid credential secret now ≡ ok accepted
    → verify_attempt_token env is_uuid credential secret' later expected ≡ err wrong_purpose
unfolding verify_attempt_token
verify_attempt_token-ws_ticket env is_uuid credential secret secret' now later expected accepted h =
    let (json, opened, _, _) = verify_ws_ok env is_uuid credential secret now accepted h in
    rw
      (open_envelope-wrong_purpose env credential ws_ticket_prefix attempt_token_prefix secret
        secret' json opened other_prefix)
      refl
