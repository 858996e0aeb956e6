-- ===== src/Collab/Handshake.antt =====
-- apps/collab/src/server.ts, `authorise`: which requests for an upgrade open a socket. What `URL`
-- makes of the request, the path and the first `ticket` of the query, is part of the request.
pub mod Admitted
pub mod Once
use assaybank.Prelude.{
  ℕ, Bool, true, false, ◌&&◌, ◌||◌, Option, none, some, List, [], ◌∷◌, Result, ok, err, length,
  keep, leb, ltb, ◌==◌, if◌then◌else◌,
}
use assaybank.Prelude.Text.{Text, eq_text}
use assaybank.Prelude.Parts.{split_on}
use assaybank.Auth.Envelope.{AuthErrorReason, Platform}
use assaybank.Auth.WsTicket.{Ticket, verify_ws_ticket}
use assaybank.Api.SingleUse.{ClaimOutcome, claimed, replayed, Store}
use assaybank.Collab.TicketStore.{claim_ticket, replay_retention_ms}

-- The options that the handshake reads, with the platform; `is_uuid` is the test of `z.uuid()`.
pub record Config : Type 0 where
  pub env : Platform
  pub is_uuid : Text → Bool
  pub ticket_secret : Text
  pub ticket_pepper : Text

pub record Request : Type 0 where
  pub pathname : Text
  pub ticket : Option Text

pub data Refusal : Type 0 where
  shutting_down unknown_path no_ticket replayed_ticket : Refusal
  bad_ticket : AuthErrorReason → Refusal

pub record Authorised : Type 0 where
  pub ticket : Ticket
  pub room_code : Text

unfoldable pub status : Refusal → ℕ
status shutting_down = 503
status unknown_path = 404
status no_ticket = 401
status replayed_ticket = 401
status (bad_ticket reason) = 401

unfoldable pub is_alphanumeric : ℕ → Bool
is_alphanumeric c =
    (leb b'A' c && leb c b'Z') || (leb b'a' c && leb c b'z') || (leb b'0' c && leb c b'9')

unfoldable pub all_code_chars : Text → Bool
unfolding is_alphanumeric
all_code_chars [] = true
all_code_chars (c ∷ s) = (is_alphanumeric c || c == b'_' || c == b'-') && all_code_chars s

-- `/^[A-Za-z0-9][A-Za-z0-9_-]{2,63}$/u`
unfoldable pub is_room_code : Text → Bool
unfolding is_alphanumeric all_code_chars
is_room_code [] = false
is_room_code (c ∷ s) =
    is_alphanumeric c && all_code_chars s && leb 2 (length s) && leb (length s) 63

-- `collab`, the path's prefix without its slash.
abbrev pub collab_path : Text
collab_path = b'c' ∷ b'o' ∷ b'l' ∷ b'l' ∷ b'a' ∷ b'b' ∷ []

-- The room code of a path with just the two segments.
unfoldable pub room_code_of : List Text → Option Text
unfolding is_room_code eq_text
room_code_of (prefix ∷ (room_code ∷ [])) =
    if eq_text prefix collab_path && is_room_code room_code then some room_code else none
room_code_of _ = none

unfoldable pub addressed : Request → Option Text
unfolding room_code_of split_on
addressed request =
    room_code_of (keep (λ segment. ltb 0 (length segment)) (split_on b'/' request.pathname))

unfoldable pub settle : Authorised → ClaimOutcome × Store → Result Authorised Refusal × Store
settle authorised (claimed, tickets) = (ok authorised, tickets)
settle authorised (replayed, tickets) = (err replayed_ticket, tickets)

-- A ticket that verified is claimed.
unfoldable pub claim_verified :
    Config → ℕ → Text → Text → Ticket → Store → Result Authorised Refusal × Store
unfolding settle claim_ticket
claim_verified cfg now room_code presented ticket tickets =
    settle (record { ticket = ticket; room_code = room_code })
      (claim_ticket cfg.env cfg.ticket_pepper replay_retention_ms presented now tickets)

unfoldable pub authorise_verified :
    Config
    → ℕ
    → Text
    → Text
    → Result Ticket AuthErrorReason
    → Store
    → Result Authorised Refusal × Store
unfolding claim_verified
authorise_verified cfg now room_code presented (ok ticket) tickets =
    claim_verified cfg now room_code presented ticket tickets
authorise_verified cfg now room_code presented (err reason) tickets =
    (err (bad_ticket reason), tickets)

unfoldable pub authorise_presented :
    Config → ℕ → Text → Option Text → Store → Result Authorised Refusal × Store
unfolding authorise_verified verify_ws_ticket
authorise_presented cfg now room_code none tickets = (err no_ticket, tickets)
authorise_presented cfg now room_code (some presented) tickets =
    if length presented == 0
    then (err no_ticket, tickets)
    else authorise_verified cfg now room_code presented
        (verify_ws_ticket cfg.env cfg.is_uuid presented cfg.ticket_secret now) tickets

unfoldable pub authorise_addressed :
    Config → ℕ → Option Text → Option Text → Store → Result Authorised Refusal × Store
unfolding authorise_presented
authorise_addressed cfg now none presented tickets = (err unknown_path, tickets)
authorise_addressed cfg now (some room_code) presented tickets =
    authorise_presented cfg now room_code presented tickets

unfoldable pub authorise : Config → Bool → ℕ → Request → Store → Result Authorised Refusal × Store
unfolding authorise_addressed addressed
authorise cfg draining now request tickets =
    if draining
    then (err shutting_down, tickets)
    else authorise_addressed cfg now (addressed request) request.ticket tickets
