-- ===== src/Collab/Handshake/Once.antt =====
-- A ticket opens one socket: how long it is remembered is enough.
use assaybank.Prelude.{
  ℕ, ◌+◌, ◌≤◌, ◌<◌, ◌≡◌, ◌≢◌, sym, ap, ◌∙◌, Bool, some, List, [], ◌∷◌, Result, ok, ok-injective,
  arith, subst,
}
use assaybank.Prelude.Text.{Text}
use assaybank.Auth.Claims.{max_date_ms}
use assaybank.Auth.Token.{hash_token}
use assaybank.Auth.WsTicket.{Ticket, parse_ticket_claims, verify_ws_ticket}
use assaybank.Auth.WsTicket.Life.{verify_ws_ok}
use assaybank.Api.SingleUse.{claimed, replayed, Store, Call, get, claim}
use assaybank.Api.SingleUse.Once.{claim_held, get-claim}
use assaybank.Collab.TicketStore.{replay_retention_ms}
use assaybank.Collab.Handshake.{Config, Request, Refusal, Authorised, authorise}
use assaybank.Collab.Handshake.Admitted.{
  Handled, refused, verified, authorise-Handled, authorise-Admits, claim_verified_lem, settle-store,
}

pub record Attempt : Type 0 where
  pub draining : Bool
  pub now : ℕ
  pub request : Request

-- The outcomes of the attempts, one after the other.
unfoldable pub run : Config → Store → List Attempt → List (Result Authorised Refusal)
run cfg tickets [] = []
run cfg tickets (a ∷ attempts) =
    let r = authorise cfg a.draining a.now a.request tickets in r.0 ∷ run cfg r.1 attempts

-- The clock does not go backwards.
abbrev pub IsOrdered : ℕ → List Attempt → Type 0
IsOrdered now [] = Unit
IsOrdered now (a ∷ attempts) = (now ≤ a.now) × IsOrdered a.now attempts

-- No attempt with this ticket opens a socket.
abbrev pub AllRefused : Text → List Attempt → List (Result Authorised Refusal) → Type 0
AllRefused presented [] [] = Unit
AllRefused presented (a ∷ attempts) (r ∷ outcomes) =
    (a.request.ticket ≡ some presented → (b : Authorised) → r ≢ ok b)
    × AllRefused presented attempts outcomes
AllRefused presented _ _ = ⊥

abbrev ticket_call : Config → Text → ℕ → Call
ticket_call cfg presented now = record {
  key = hash_token cfg.env presented cfg.ticket_pepper;
  ttl = replay_retention_ms;
  now = now;
}

-- The same credential carries the same ticket, whenever it is verified.
verify_ws-same :
    (cfg : Config) (presented : Text) (now later : ℕ) (a b : Ticket)
    → verify_ws_ticket cfg.env cfg.is_uuid presented cfg.ticket_secret now ≡ ok a
    → verify_ws_ticket cfg.env cfg.is_uuid presented cfg.ticket_secret later ≡ ok b
    → a ≡ b
verify_ws-same cfg presented now later a b h k =
    let (json, opened, parsed, _) =
      verify_ws_ok cfg.env cfg.is_uuid presented cfg.ticket_secret now a h in
    let (json', opened', parsed', _) =
      verify_ws_ok cfg.env cfg.is_uuid presented cfg.ticket_secret later b k in
    let same : json ≡ json' = ok-injective (sym opened ∙ opened') in
    cc (sym parsed ∙ ap (parse_ticket_claims cfg.is_uuid) same ∙ parsed')

-- Once it was admitted at `now`, no credential verifies after the retention is over.
abbrev VerifiesUntil : Config → Text → ℕ → Type 0
VerifiesUntil cfg presented until =
    (later : ℕ) (b : Ticket)
    → verify_ws_ticket cfg.env cfg.is_uuid presented cfg.ticket_secret later ≡ ok b
    → later < until

retention_enough :
    (cfg : Config) (presented : Text) (now : ℕ) (a : Ticket)
    → verify_ws_ticket cfg.env cfg.is_uuid presented cfg.ticket_secret now ≡ ok a
    → a.issued_at ≤ max_date_ms
    → VerifiesUntil cfg presented (now + replay_retention_ms)
retention_enough cfg presented now a h d later b k =
    let same = verify_ws-same cfg presented now later a b h k in
    let (_, _, _, first) = verify_ws_ok cfg.env cfg.is_uuid presented cfg.ticket_secret now a h in
    let (_, _, _, second) =
      verify_ws_ok cfg.env cfg.is_uuid presented cfg.ticket_secret later b k in
    let issued : a.issued_at ≡ b.issued_at = ap (λ (t : Ticket). t.issued_at) same in ground arith

-- One attempt before the retention is over: the entry of the ticket stays.
entry_stays :
    (cfg : Config) (presented : Text) (until now : ℕ) (request : Request) (tickets : Store)
    (x : Result Authorised Refusal × Store)
    → Handled cfg now request tickets x
    → now < until
    → get (hash_token cfg.env presented cfg.ticket_pepper) tickets.entries ≡ some until
    → get (hash_token cfg.env presented cfg.ticket_pepper) x.1.entries ≡ some until
entry_stays cfg presented until now request tickets x (refused r) h g = g
entry_stays cfg presented until now request tickets x (verified room_code other ticket e v f) h g =
    let key = hash_token cfg.env presented cfg.ticket_pepper in
    let l = claim_verified_lem cfg now room_code other ticket tickets in
    let (_, kept) = claim_held (ticket_call cfg other now) until key tickets h g in
    subst (λ (s : Store). get key s.entries ≡ some until) (sym (ap (λ p. p.1) l ∙ settle-store _ _))
      kept

-- One attempt with the ticket is refused.
attempt_refused :
    (cfg : Config) (presented : Text) (until : ℕ) (a : Attempt) (tickets : Store) (b : Authorised)
    → VerifiesUntil cfg presented until
    → (a.now < until
        → get (hash_token cfg.env presented cfg.ticket_pepper) tickets.entries ≡ some until)
    → a.request.ticket ≡ some presented
    → (authorise cfg a.draining a.now a.request tickets).0 ≢ ok b
attempt_refused cfg presented until a tickets b v g e h =
    let m = authorise-Admits cfg a.draining a.now a.request tickets b h in
    let same : m.presented ≡ presented = cc (sym m.is_presented ∙ e) in
    let in_time : a.now < until = v a.now b.ticket (
      subst (λ t. verify_ws_ticket cfg.env cfg.is_uuid t cfg.ticket_secret a.now ≡ ok b.ticket) same
        m.is_verified) in
    let (again, _) =
      claim_held (ticket_call cfg m.presented a.now) until
        (hash_token cfg.env presented cfg.ticket_pepper) tickets in_time (g in_time) in
    twice (sym m.is_claimed ∙ again (ap (λ t. hash_token cfg.env t cfg.ticket_pepper) same))
  where
    twice : claimed ≡ replayed → ⊥
    twice e = absurd (ground arith)

run-AllRefused :
    (cfg : Config) (presented : Text) (until now : ℕ) (attempts : List Attempt) (tickets : Store)
    → VerifiesUntil cfg presented until
    → (now < until
        → get (hash_token cfg.env presented cfg.ticket_pepper) tickets.entries ≡ some until)
    → IsOrdered now attempts
    → AllRefused presented attempts (run cfg tickets attempts)
unfolding run
run-AllRefused cfg presented until now [] tickets v g o = tt
run-AllRefused cfg presented until now (a ∷ attempts) tickets v g o =
    let held = λ (h : a.now < until). g (omega (arith, o.0)) in
    (
      λ e b. attempt_refused cfg presented until a tickets b v held e,
      run-AllRefused cfg presented until a.now attempts _ v
          (λ h.
            entry_stays cfg presented until a.now a.request tickets _
              (authorise-Handled cfg a.draining a.now a.request tickets) h (held h))
          o.1,
    )

-- A ticket opens one socket. After a request that was admitted, every later one with the same ticket
-- is refused, whatever else is asked in between and however long, if the clock does not go
-- backwards and the ticket was issued within the range of dates: the store forgets a ticket only
-- when it has expired.
pub admitted_once :
    (cfg : Config) (first : Attempt) (tickets : Store) (a : Authorised) (attempts : List Attempt)
    → (presented : Text) → first.request.ticket ≡ some presented
    → (authorise cfg first.draining first.now first.request tickets).0 ≡ ok a
    → a.ticket.issued_at ≤ max_date_ms
    → IsOrdered first.now attempts
    → AllRefused presented attempts
        (run cfg (authorise cfg first.draining first.now first.request tickets).1 attempts)
admitted_once cfg first tickets a attempts presented e h d o =
    let m = authorise-Admits cfg first.draining first.now first.request tickets a h in
    let same : m.presented ≡ presented = cc (sym m.is_presented ∙ e) in
    let key = λ (t : Text). hash_token cfg.env t cfg.ticket_pepper in
    let v : VerifiesUntil cfg presented (first.now + replay_retention_ms) =
      subst (λ t. VerifiesUntil cfg t (first.now + replay_retention_ms)) same
        (retention_enough cfg m.presented first.now a.ticket m.is_verified d) in
    let entry = get-claim (ticket_call cfg m.presented first.now) tickets m.is_claimed in
    run-AllRefused cfg presented (first.now + replay_retention_ms) first.now attempts _ v
      (λ _.
        subst
          (λ (s : Store). get (key presented) s.entries ≡ some (first.now + replay_retention_ms))
          (sym m.is_after)
          (subst
            (λ t.
              get (key t) (claim (key m.presented) replay_retention_ms first.now tickets).1.entries
              ≡ some (first.now + replay_retention_ms))
            same entry))
      o
