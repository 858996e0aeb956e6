-- ===== src/Collab/Steps/Preserved.antt =====
-- Every turn of the event loop keeps the invariant.
use assaybank.Prelude.{
  ℕ, suc, ◌≡◌, refl, sym, subst, Bool, true, false, List, [], ◌∷◌, Result, ok, err, ◌==◌,
  if◌then◌else◌, arith, inl, inr, Bool-cases,
}
use mathlib.Core.Path.{fun_ext}
use assaybank.Api.SingleUse.{Store}
use assaybank.Collab.Protocol.{Bytes, ProtocolError, InboundFrame}
use assaybank.Collab.Handshake.{Config, Refusal, Authorised}
use assaybank.Collab.Rooms.{Yjs, Room, has, add, delete, acquire, attach, detach}
use assaybank.Collab.Server.{
  PeerConnection, Effect, Server, room_of, set_peer, close_socket, admit, protocol_error,
  going_away, unsupported_data, accept, on_authorised, on_upgrade,
}
use assaybank.Collab.Frames.{set_room, on_update, on_frame, settle_frame, on_decoded, handle_frame}
use assaybank.Collab.Lifecycle.{on_pong, on_close, beat, for_each, heartbeat, start_close}
use assaybank.Collab.Steps.{
  Event, upgraded, framed, ponged, ended, fired, beaten, closing, step, IsEnabled,
}
use assaybank.Collab.Steps.Sound.{
  Sound, write-Sound, acquire-Sound, attach-Sound, detach-Sound, collect-Sound,
}

module _ {Doc : Type 0} where
  -- The invariant of a server.
  abbrev pub IsSound : Server Doc → Type 0
  IsSound s = Sound s.connections (λ p. (s.peers p).room) s.next_peer s.registry

  -- A change of a connection that keeps its room.
  set_peer-IsSound :
      (peer : ℕ) (value : PeerConnection) (s : Server Doc)
      → value.room ≡ (s.peers peer).room
      → IsSound s
      → IsSound (set_peer peer value s)
  unfolding set_peer
  set_peer-IsSound peer value s e h =
      subst (λ home. Sound s.connections home s.next_peer s.registry) (fun_ext (λ p. sym (same p)))
        h
    where
      same : (p : ℕ) → (if p == peer then value else s.peers p).room ≡ (s.peers p).room
      same p = ground (arith, e)

  close_socket-IsSound :
      (peer code : ℕ) (s : Server Doc) → IsSound s → IsSound (close_socket peer code s).1
  unfolding close_socket
  close_socket-IsSound peer code s h = set_peer-IsSound peer _ s refl h

  on_pong-IsSound : (peer : ℕ) (s : Server Doc) → IsSound s → IsSound (on_pong peer s)
  unfolding on_pong
  on_pong-IsSound peer s h = set_peer-IsSound peer _ s refl h

  beat-IsSound : (peer : ℕ) (s : Server Doc) → IsSound s → IsSound (beat peer s).1
  unfolding beat
  beat-IsSound peer s h = elim (Bool-cases (s.peers peer).alive) [
    | inl alive ↦ rw alive (set_peer-IsSound peer _ s refl h)
    | inr gone ↦ rw gone (set_peer-IsSound peer _ s refl h)
  ]

  for_each-IsSound :
      (f : ℕ → Server Doc → List Effect × Server Doc)
      → ((p : ℕ) (s : Server Doc) → IsSound s → IsSound (f p s).1)
      → (l : List ℕ) (s : Server Doc) → IsSound s
      → IsSound (for_each f l s).1
  unfolding for_each
  for_each-IsSound f k [] s h = h
  for_each-IsSound f k (p ∷ l) s h = for_each-IsSound f k l (f p s).1 (k p s h)

  start_close-IsSound : (s : Server Doc) → IsSound s → IsSound (start_close s).1
  unfolding start_close
  start_close-IsSound s h = elim (Bool-cases s.draining) [
    | inl already ↦ rw already h
    | inr running ↦ rw running (
        for_each-IsSound (λ p. close_socket p going_away)
          (λ p t. close_socket-IsSound p going_away t) s.connections (record s { draining = true })
          h)
  ]

  on_close-IsSound :
      (now retention_ms peer : ℕ) (s : Server Doc)
      → has peer s.connections ≡ true
      → IsSound s
      → IsSound (on_close now retention_ms peer s)
  unfolding on_close
  on_close-IsSound now retention_ms peer s c h =
      set_peer-IsSound peer _
        (record s {
          connections = delete peer s.connections;
          registry = detach now retention_ms (s.peers peer).room peer s.registry;
        })
        refl
        (detach-Sound s.connections (λ p. (s.peers p).room) s.next_peer now retention_ms peer
          s.registry h c)

  admit-IsSound :
      (yjs : Yjs Doc) (a : Authorised) (s : Server Doc) → IsSound s → IsSound (admit yjs a s)
  unfolding admit set_peer
  admit-IsSound yjs a s h =
      let key = a.ticket.session_id in
      let (sound, found) =
        acquire-Sound s.connections (λ p. (s.peers p).room) s.next_peer yjs key s.registry h in
      let acquired = acquire yjs key s.registry in
      subst
        (λ home.
          Sound (add s.next_peer s.connections) home (suc s.next_peer)
            (attach acquired.0 s.next_peer acquired.1).1)
        (fun_ext (λ p. sym (homes p)))
        (attach-Sound s.connections (λ p. (s.peers p).room) s.next_peer acquired.0 key acquired.1
          sound found)
    where
      homes :
          (p : ℕ)
          → (if p == s.next_peer
              then record {
                room = (acquire yjs a.ticket.session_id s.registry).0;
                is_open = true;
                alive = true;
              }
              else s.peers p).room
            ≡ (if p == s.next_peer
                then (acquire yjs a.ticket.session_id s.registry).0
                else (s.peers p).room)
      homes p = ground arith

  on_upgrade-IsSound :
      (yjs : Yjs Doc) (r : Result Authorised Refusal × Store) (s : Server Doc)
      → IsSound s
      → IsSound (on_authorised yjs r s).1
  unfolding on_authorised accept
  on_upgrade-IsSound yjs (ok a, tickets) s h =
      admit-IsSound yjs a (record s { tickets = tickets }) h
  on_upgrade-IsSound yjs (err refusal, tickets) s h = h

  settle_frame-IsSound :
      (peer : ℕ) (r : (List Effect × Bool) × Server Doc)
      → IsSound r.1
      → IsSound (settle_frame peer r).1
  unfolding settle_frame
  settle_frame-IsSound peer ((effects, true), s) h = h
  settle_frame-IsSound peer ((effects, false), s) h = close_socket-IsSound peer protocol_error s h

  -- The room of the peer gets another document or other payloads.
  set_room-IsSound :
      (peer : ℕ) (room : Room Doc) (s : Server Doc)
      → room.key ≡ (room_of s peer).key
      → room.peers ≡ (room_of s peer).peers
      → room.reaper ≡ (room_of s peer).reaper
      → IsSound s
      → IsSound (set_room peer room s)
  unfolding set_room
  set_room-IsSound peer room s k e t h =
      write-Sound s.connections (λ p. (s.peers p).room) s.next_peer (s.peers peer).room room
        s.registry k e (inl t) h

  on_frame-IsSound :
      (yjs : Yjs Doc) (peer : ℕ) (frame : InboundFrame) (s : Server Doc)
      → IsSound s
      → IsSound (on_frame yjs peer frame s).1
  unfolding on_frame on_update
  on_frame-IsSound yjs peer (InboundFrame.sync_step_1 v) s h = h
  on_frame-IsSound yjs peer (InboundFrame.sync_step_2 u) s h =
      set_room-IsSound peer _ s refl refl refl h
  on_frame-IsSound yjs peer (InboundFrame.sync_update u) s h =
      set_room-IsSound peer _ s refl refl refl h
  on_frame-IsSound yjs peer (InboundFrame.awareness p) s h =
      set_room-IsSound peer _ s refl refl refl h
  on_frame-IsSound yjs peer InboundFrame.query_awareness s h = h
  on_frame-IsSound yjs peer (InboundFrame.ignored t) s h = h

  on_decoded-IsSound :
      (yjs : Yjs Doc) (peer : ℕ) (r : Result InboundFrame ProtocolError) (s : Server Doc)
      → IsSound s
      → IsSound (on_decoded yjs peer r s).1
  unfolding on_decoded
  on_decoded-IsSound yjs peer (ok frame) s h =
      settle_frame-IsSound peer _ (on_frame-IsSound yjs peer frame s h)
  on_decoded-IsSound yjs peer (err e) s h = close_socket-IsSound peer protocol_error s h

  handle_frame-IsSound :
      (yjs : Yjs Doc) (peer : ℕ) (bytes : Bytes) (is_binary : Bool) (s : Server Doc)
      → IsSound s
      → IsSound (handle_frame yjs peer bytes is_binary s).1
  unfolding handle_frame
  handle_frame-IsSound yjs peer bytes true s h = on_decoded-IsSound yjs peer _ s h
  handle_frame-IsSound yjs peer bytes false s h = close_socket-IsSound peer unsupported_data s h

  pub step-IsSound :
      (yjs : Yjs Doc) (cfg : Config) (retention_ms : ℕ) (e : Event) (s : Server Doc)
      → IsEnabled e s
      → IsSound s
      → IsSound (step yjs cfg retention_ms e s).1
  unfolding step on_upgrade heartbeat
  step-IsSound yjs cfg retention_ms (upgraded now request) s k h = on_upgrade-IsSound yjs _ s h
  step-IsSound yjs cfg retention_ms (framed peer bytes is_binary) s k h =
      handle_frame-IsSound yjs peer bytes is_binary s h
  step-IsSound yjs cfg retention_ms (ponged peer) s k h = on_pong-IsSound peer s h
  step-IsSound yjs cfg retention_ms (ended now peer) s k h =
      on_close-IsSound now retention_ms peer s k h
  step-IsSound yjs cfg retention_ms (fired now room) s (at, t, late) h =
      collect-Sound s.connections (λ p. (s.peers p).room) s.next_peer room at s.registry h t
  step-IsSound yjs cfg retention_ms beaten s k h =
      for_each-IsSound beat beat-IsSound s.connections s h
  step-IsSound yjs cfg retention_ms closing s k h = start_close-IsSound s h
