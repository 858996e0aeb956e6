-- ===== src/Collab/TicketStore/Once.antt =====
-- The store of tickets is the store of credentials of the API.
use assaybank.Prelude.{ℕ, ◌≤◌, ◌≡◌, refl, max, arith}
use assaybank.Prelude.Text.{Text}
use assaybank.Auth.Envelope.{Platform}
use assaybank.Auth.Token.{hash_token}
use assaybank.Api.SingleUse.{Store, claim, sweep}
use assaybank.Collab.TicketStore.{forget, claim_ticket}

forget-sweep : (now : ℕ) (s : Store) → forget now s ≡ sweep now s
unfolding forget sweep
forget-sweep now s = refl

-- A claim of a ticket is the claim of its hash for the retention.
pub claim_ticket-claim :
    (env : Platform) (pepper : Text) (retention_ms : ℕ) (ticket : Text) (now : ℕ) (s : Store)
    → 1 ≤ retention_ms
    → claim_ticket env pepper retention_ms ticket now s
      ≡ claim (hash_token env ticket pepper) retention_ms now s
unfolding claim_ticket claim
claim_ticket-claim env pepper retention_ms ticket now s h =
    let e : max 1 retention_ms ≡ retention_ms = omega arith in rw (e, forget-sweep now s) refl
