-- ===== src/Collab/Frames.antt =====
-- apps/collab/src/server.ts, `handleFrame`: what a frame of a peer does. A frame that throws closes the
-- socket of its peer.
use assaybank.Prelude.{
  ℕ, Bool, true, false, Option, none, some, none, some, List, [], ◌∷◌, ◌++◌, Result, ok, err,
  if◌then◌else◌,
}
use assaybank.Collab.Protocol.{
  Bytes, ProtocolError, encode_sync_step_2, encode_sync_update, encode_awareness, InboundFrame,
  sync_step_1, sync_step_2, sync_update, awareness, query_awareness, ignored, decode_frame,
}
use assaybank.Collab.Rooms.{Yjs, Room, publish, broadcast_targets, write}
use assaybank.Collab.Server.{
  Effect, protocol_error, unsupported_data, Server, room_of, send_encoded, send_awareness,
  close_socket,
}

module _ {Doc : Type 0} where
  unfoldable pub set_room : ℕ → Room Doc → Server Doc → Server Doc
  unfolding write
  set_room peer room s = record s { registry = write (s.peers peer).room room s.registry }

  unfoldable pub on_update : Yjs Doc → ℕ → Bytes → Server Doc → (List Effect × Bool) × Server Doc
  unfolding set_room send_encoded broadcast_targets
  on_update yjs peer update s =
      let room = room_of s peer in
      let applied = yjs.apply_update room.doc update in
      let after = set_room peer (record room { doc = applied.0 }) s in
      (
        if applied.1
            then send_encoded after (broadcast_targets peer room) (encode_sync_update update)
            else ([], false),
        after,
      )

  -- The difference to the peer's state vector, if it could be computed.
  unfoldable pub reply : ℕ → Option Bytes → Server Doc → List Effect × Bool
  unfolding send_encoded
  reply peer none s = ([], false)
  reply peer (some update) s = send_encoded s (peer ∷ []) (encode_sync_step_2 update)

  unfoldable pub on_step_1 : Yjs Doc → ℕ → Bytes → Server Doc → List Effect × Bool
  unfolding reply
  on_step_1 yjs peer state_vector s =
      reply peer (yjs.state_as_update (room_of s peer).doc state_vector) s

  -- The `switch` on the kind of the frame.
  unfoldable pub on_frame :
      Yjs Doc → ℕ → InboundFrame → Server Doc → (List Effect × Bool) × Server Doc
  unfolding on_update on_step_1 set_room publish send_encoded send_awareness broadcast_targets
  on_frame yjs peer (sync_step_1 state_vector) s = (on_step_1 yjs peer state_vector s, s)
  on_frame yjs peer (sync_step_2 update) s = on_update yjs peer update s
  on_frame yjs peer (sync_update update) s = on_update yjs peer update s
  on_frame yjs peer (awareness payload) s =
      let room = room_of s peer in
      let after =
        set_room peer (record room { last_awareness = publish peer payload room.last_awareness })
          s in
      (send_encoded after (broadcast_targets peer room) (encode_awareness payload), after)
  on_frame yjs peer query_awareness s = (send_awareness s peer (room_of s peer).last_awareness, s)
  on_frame yjs peer (ignored message_type) s = (([], true), s)

  -- A frame that threw closes the socket.
  unfoldable pub settle_frame : ℕ → (List Effect × Bool) × Server Doc → List Effect × Server Doc
  unfolding close_socket
  settle_frame peer ((effects, true), s) = (effects, s)
  settle_frame peer ((effects, false), s) =
      let c = close_socket peer protocol_error s in (effects ++ c.0, c.1)

  unfoldable pub on_decoded :
      Yjs Doc → ℕ → Result InboundFrame ProtocolError → Server Doc → List Effect × Server Doc
  unfolding settle_frame on_frame close_socket
  on_decoded yjs peer (ok frame) s = settle_frame peer (on_frame yjs peer frame s)
  on_decoded yjs peer (err e) s = close_socket peer protocol_error s

  unfoldable pub handle_frame : Yjs Doc → ℕ → Bytes → Bool → Server Doc → List Effect × Server Doc
  unfolding on_decoded close_socket
  handle_frame yjs peer bytes is_binary s =
      if is_binary
      then on_decoded yjs peer (decode_frame bytes) s
      else close_socket peer unsupported_data s
