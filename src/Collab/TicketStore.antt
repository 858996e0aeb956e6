-- ===== src/Collab/TicketStore.antt =====
-- apps/collab/src/ticket-store.ts: each ticket is accepted once. The map, with `get` and `set`, is
-- that of Api.SingleUse; the clock is an argument of each call.
pub mod Once
use assaybank.Prelude.{ℕ, ◌+◌, ◌*◌, keep, ltb, if◌then◌else◌}
use assaybank.Prelude.Text.{Text}
use assaybank.Auth.Envelope.{Platform}
use assaybank.Auth.Token.{hash_token}
use assaybank.Auth.WsTicket.{ws_ticket_ttl_seconds, ws_ticket_clock_skew_seconds}
use assaybank.Api.SingleUse.{ClaimOutcome, claimed, replayed, Store, get, set, is_live}

abbrev pub replay_retention_ms : ℕ
replay_retention_ms = (ws_ticket_ttl_seconds + ws_ticket_clock_skew_seconds) * 1000

abbrev pub sweep_interval_ms : ℕ
sweep_interval_ms = 10_000

unfoldable pub forget : ℕ → Store → Store
forget now s =
    if ltb now (s.last_sweep + sweep_interval_ms)
    then s
    else record { entries = keep (λ e. ltb now e.1) s.entries; last_sweep = now }

unfoldable pub claim_ticket : Platform → Text → ℕ → Text → ℕ → Store → ClaimOutcome × Store
unfolding forget is_live get set hash_token
claim_ticket env pepper retention_ms ticket now s =
    let swept = forget now s in
    let key = hash_token env ticket pepper in
    if is_live now (get key swept.entries)
    then (replayed, swept)
    else (claimed, record swept { entries = set key (now + retention_ms) swept.entries })
