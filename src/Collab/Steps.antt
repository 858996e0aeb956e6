-- ===== src/Collab/Steps.antt =====
-- The turns of the event loop of apps/collab/src/server.ts, before the service has stopped.
pub mod Collections
pub mod Sound
pub mod Preserved
pub mod Reached
pub mod Isolated
use assaybank.Prelude.{ℕ, ◌≤◌, ◌≡◌, Bool, true, some, List, []}
use assaybank.Collab.Protocol.{Bytes}
use assaybank.Collab.Handshake.{Config, Request}
use assaybank.Collab.Rooms.{Yjs, has, collect}
use assaybank.Collab.Server.{Effect, Server, on_upgrade}
use assaybank.Collab.Frames.{handle_frame}
use assaybank.Collab.Lifecycle.{on_pong, on_close, heartbeat, start_close}

pub data Event : Type 0 where
  upgraded : ℕ → Request → Event
  framed : ℕ → Bytes → Bool → Event
  ponged : ℕ → Event
  ended : ℕ → ℕ → Event
  fired : ℕ → ℕ → Event
  beaten closing : Event

module _ {Doc : Type 0} where
  unfoldable pub step : Yjs Doc → Config → ℕ → Event → Server Doc → List Effect × Server Doc
  unfolding on_upgrade handle_frame on_pong on_close collect heartbeat start_close
  step yjs cfg retention_ms (upgraded now request) s = on_upgrade yjs cfg now request s
  step yjs cfg retention_ms (framed peer bytes is_binary) s =
      handle_frame yjs peer bytes is_binary s
  step yjs cfg retention_ms (ponged peer) s = ([], on_pong peer s)
  step yjs cfg retention_ms (ended now peer) s = ([], on_close now retention_ms peer s)
  step yjs cfg retention_ms (fired now room) s =
      ([], record s { registry = collect room s.registry })
  step yjs cfg retention_ms beaten s = heartbeat s
  step yjs cfg retention_ms closing s = start_close s

  -- A frame, a pong and an end are of a connection; a timer that fires is pending, and it is time.
  abbrev pub IsEnabled : Event → Server Doc → Type 0
  IsEnabled (upgraded now request) s = Unit
  IsEnabled (framed peer bytes is_binary) s = has peer s.connections ≡ true
  IsEnabled (ponged peer) s = has peer s.connections ≡ true
  IsEnabled (ended now peer) s = has peer s.connections ≡ true
  IsEnabled (fired now room) s = (at : ℕ) × ((s.registry.heap room).reaper ≡ some at) × (at ≤ now)
  IsEnabled beaten s = Unit
  IsEnabled closing s = Unit
