-- ===== src/Collab/Lifecycle.antt =====
-- apps/collab/src/server.ts: the pongs, the ends of sockets, the heartbeat and the shutdown.
use assaybank.Prelude.{ℕ, true, false, not, List, [], ◌∷◌, ◌++◌, map, if◌then◌else◌}
use assaybank.Api.SingleUse.{empty}
use assaybank.Collab.Rooms.{delete, detach, clear}
use assaybank.Collab.Server.{Effect, terminated, pinged, going_away, Server, set_peer, close_socket}

module _ {Doc : Type 0} where
  -- `ws.on('pong', …)`
  unfoldable pub on_pong : ℕ → Server Doc → Server Doc
  unfolding set_peer
  on_pong peer s = set_peer peer (record (s.peers peer) { alive = true }) s

  -- `ws.on('close', …)`
  unfoldable pub on_close : ℕ → ℕ → ℕ → Server Doc → Server Doc
  unfolding set_peer detach delete
  on_close now retention_ms peer s =
      set_peer peer (record (s.peers peer) { is_open = false })
        (record s {
          connections = delete peer s.connections;
          registry = detach now retention_ms (s.peers peer).room peer s.registry;
        })

  -- One peer of a heartbeat.
  unfoldable pub beat : ℕ → Server Doc → List Effect × Server Doc
  unfolding set_peer
  beat peer s =
      if not (s.peers peer).alive
      then (terminated peer ∷ [], set_peer peer (record (s.peers peer) { is_open = false }) s)
      else (pinged peer ∷ [], set_peer peer (record (s.peers peer) { alive = false }) s)

  unfoldable pub for_each :
      (ℕ → Server Doc → List Effect × Server Doc) → List ℕ → Server Doc → List Effect × Server Doc
  for_each f [] s = ([], s)
  for_each f (peer ∷ peers) s =
      let first = f peer s in let rest = for_each f peers first.1 in (first.0 ++ rest.0, rest.1)

  unfoldable pub heartbeat : Server Doc → List Effect × Server Doc
  unfolding for_each beat
  heartbeat s = for_each beat s.connections s

  -- The start of `close`, up to its first wait.
  unfoldable pub start_close : Server Doc → List Effect × Server Doc
  unfolding for_each close_socket
  start_close s =
      if s.draining
      then ([], s)
      else for_each (λ peer. close_socket peer going_away) s.connections
          (record s { draining = true })

  -- The end of `close`, once the sockets have closed or the grace is over.
  unfoldable pub finish_close : Server Doc → List Effect × Server Doc
  unfolding clear
  finish_close s = (
    map (λ peer. terminated peer) s.connections,
    record s { connections = []; registry = clear s.registry; tickets = empty },
  )
