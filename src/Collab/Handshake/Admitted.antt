-- ===== src/Collab/Handshake/Admitted.antt =====
-- A ticket opens one socket.
use assaybank.Prelude.{
  ℕ, ◌<◌, ◌≡◌, ◌⊎◌, refl, sym, ap, ◌∙◌, Bool, true, false, Option, none, some, Result, ok, err,
  ok-injective, arith, Option-cases, inl, inr, if◌then◌else◌,
}
use assaybank.Prelude.Text.{Text}
use assaybank.Auth.Envelope.{AuthErrorReason, seal}
use assaybank.Auth.Envelope.Sealed.{open_envelope_ok}
use assaybank.Auth.Claims.{max_date_ms}
use assaybank.Auth.Token.{hash_token}
use assaybank.Auth.WsTicket.{ws_ticket_prefix, Ticket, verify_ws_ticket}
use assaybank.Auth.WsTicket.Life.{InWindow, verify_ws_ok}
use assaybank.Api.SingleUse.{ClaimOutcome, claimed, replayed, Store, claim}
use assaybank.Collab.TicketStore.{replay_retention_ms}
use assaybank.Collab.TicketStore.Once.{claim_ticket-claim}
use assaybank.Collab.Handshake.{
  Config, Request, Refusal, Authorised, addressed, claim_verified, authorise_verified,
  authorise_presented, authorise_addressed, authorise, settle,
}

-- A request that is refused before the claim changes nothing; every other is decided by it.
pub data Handled (cfg : Config) (now : ℕ) (request : Request) (tickets : Store)
    : Result Authorised Refusal × Store → Type 0 where
  refused : (refusal : Refusal) → Handled cfg now request tickets (err refusal, tickets)
  verified :
      (room_code presented : Text) (ticket : Ticket)
      → request.ticket ≡ some presented
      → verify_ws_ticket cfg.env cfg.is_uuid presented cfg.ticket_secret now ≡ ok ticket
      → addressed request ≡ some room_code
      → Handled cfg now request tickets (claim_verified cfg now room_code presented ticket tickets)

authorise_verified-Handled :
    (cfg : Config) (now : ℕ) (request : Request) (tickets : Store) (room_code presented : Text)
    (r : Result Ticket AuthErrorReason)
    → request.ticket ≡ some presented
    → addressed request ≡ some room_code
    → verify_ws_ticket cfg.env cfg.is_uuid presented cfg.ticket_secret now ≡ r
    → Handled cfg now request tickets (authorise_verified cfg now room_code presented r tickets)
unfolding authorise_verified
authorise_verified-Handled cfg now request tickets room_code presented (ok ticket) e f h =
    verified room_code presented ticket e h f
authorise_verified-Handled cfg now request tickets room_code presented (err reason) e f h =
    refused _

if-Handled :
    (cfg : Config) (now : ℕ) (request : Request) (tickets : Store) (b : Bool)
    (x y : Result Authorised Refusal × Store)
    → Handled cfg now request tickets x
    → Handled cfg now request tickets y
    → Handled cfg now request tickets (if b then x else y)
if-Handled cfg now request tickets true x y h k = h
if-Handled cfg now request tickets false x y h k = k

authorise_presented-Handled :
    (cfg : Config) (now : ℕ) (request : Request) (tickets : Store) (room_code : Text)
    (ticket : Option Text)
    → request.ticket ≡ ticket
    → addressed request ≡ some room_code
    → Handled cfg now request tickets (authorise_presented cfg now room_code ticket tickets)
unfolding authorise_presented
authorise_presented-Handled cfg now request tickets room_code none e f = refused _
authorise_presented-Handled cfg now request tickets room_code (some presented) e f =
    if-Handled cfg now request tickets _ _ _ (refused _)
      (authorise_verified-Handled cfg now request tickets room_code presented _ e f refl)

pub authorise-Handled :
    (cfg : Config) (draining : Bool) (now : ℕ) (request : Request) (tickets : Store)
    → Handled cfg now request tickets (authorise cfg draining now request tickets)
unfolding authorise authorise_addressed
authorise-Handled cfg true now request tickets = refused _
authorise-Handled cfg false now request tickets = elim (Option-cases (addressed request)) [
  | inl unknown ↦ rw unknown (refused _)
  | inr (room_code, e) ↦
      rw e (authorise_presented-Handled cfg now request tickets room_code request.ticket refl e)
]

settle_ok :
    (a b : Authorised) (c : ClaimOutcome × Store)
    → (settle a c).0 ≡ ok b
    → (a ≡ b) × (c.0 ≡ claimed)
unfolding settle
settle_ok a b (claimed, s) h = (ok-injective h, refl)
settle_ok a b (replayed, s) h = cc

pub settle-store : (a : Authorised) (c : ClaimOutcome × Store) → (settle a c).1 ≡ c.1
unfolding settle
settle-store a (claimed, s) = refl
settle-store a (replayed, s) = refl

pub claim_verified_lem :
    (cfg : Config) (now : ℕ) (room_code presented : Text) (ticket : Ticket) (tickets : Store)
    → claim_verified cfg now room_code presented ticket tickets
      ≡ settle
          (record { ticket = ticket; room_code = room_code })
          (claim (hash_token cfg.env presented cfg.ticket_pepper) replay_retention_ms now tickets)
unfolding claim_verified settle
claim_verified_lem cfg now room_code presented ticket tickets =
    ap (settle (record { ticket = ticket; room_code = room_code })) (
      claim_ticket-claim cfg.env cfg.ticket_pepper replay_retention_ms presented now tickets
        (omega arith))

-- An authorised request.
pub record Admits (cfg : Config) (now : ℕ) (request : Request) (tickets : Store) (a : Authorised)
    (after : Store) : Type 0 where
  pub presented : Text
  pub is_presented : request.ticket ≡ some presented
  pub is_verified :
      verify_ws_ticket cfg.env cfg.is_uuid presented cfg.ticket_secret now ≡ ok a.ticket
  pub is_addressed : addressed request ≡ some a.room_code
  pub is_claimed :
      (claim (hash_token cfg.env presented cfg.ticket_pepper) replay_retention_ms now tickets).0
      ≡ claimed
  pub is_after :
      after
      ≡ (claim (hash_token cfg.env presented cfg.ticket_pepper) replay_retention_ms now tickets).1

pub Handled-Admits :
    (cfg : Config) (now : ℕ) (request : Request) (tickets : Store)
    (x : Result Authorised Refusal × Store) (a : Authorised)
    → Handled cfg now request tickets x
    → x.0 ≡ ok a
    → Admits cfg now request tickets a x.1
Handled-Admits cfg now request tickets x a (refused r) h = cc
Handled-Admits cfg now request tickets x a (verified room_code presented ticket e v f) h =
    let l = claim_verified_lem cfg now room_code presented ticket tickets in
    let c =
      claim (hash_token cfg.env presented cfg.ticket_pepper) replay_retention_ms now tickets in
    let (same, won) = settle_ok _ a c (sym (ap (λ p. p.0) l) ∙ h) in
    record {
      presented = presented;
      is_presented = e;
      is_verified = v ∙ ap (λ (b : Authorised). ok b.ticket) same;
      is_addressed = f ∙ ap (λ (b : Authorised). some b.room_code) same;
      is_claimed = won;
      is_after = ap (λ p. p.1) l ∙ settle-store _ c;
    }

pub authorise-Admits :
    (cfg : Config) (draining : Bool) (now : ℕ) (request : Request) (tickets : Store)
    (a : Authorised)
    → (authorise cfg draining now request tickets).0 ≡ ok a
    → Admits cfg now request tickets a (authorise cfg draining now request tickets).1
authorise-Admits cfg draining now request tickets a h =
    Handled-Admits cfg now request tickets _ a (authorise-Handled cfg draining now request tickets)
      h

-- A request that opens a socket is for a room by its code, and presents a ticket that the secret
-- signed and that is within its life, unless it was issued beyond the range of dates.
pub authorise_ok :
    (cfg : Config) (draining : Bool) (now : ℕ) (request : Request) (tickets : Store)
    (a : Authorised)
    → (authorise cfg draining now request tickets).0 ≡ ok a
    → (addressed request ≡ some a.room_code)
      × ((payload : Text) × (request.ticket
            ≡ some (seal cfg.env ws_ticket_prefix cfg.ticket_secret payload)))
      × (InWindow now a.ticket ⊎ (max_date_ms < a.ticket.issued_at))
authorise_ok cfg draining now request tickets a h =
    let m = authorise-Admits cfg draining now request tickets a h in
    let (json, opened, _, life) =
      verify_ws_ok cfg.env cfg.is_uuid m.presented cfg.ticket_secret now a.ticket m.is_verified in
    let (payload, sealed, _, _) =
      open_envelope_ok cfg.env m.presented ws_ticket_prefix cfg.ticket_secret json opened in
    (m.is_addressed, (payload, m.is_presented ∙ ap (λ t. some t) sealed), life)
