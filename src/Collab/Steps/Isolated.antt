-- ===== src/Collab/Steps/Isolated.antt =====
-- What a frame does to the sockets of others.
use assaybank.Prelude.{
  ℕ, ◌≡◌, refl, Bool, true, false, Option, none, some, List, [], ◌∷◌, ◌++◌, Result, ok, err, All,
  arith, ◌==◌, Bool-cases, subst, inl, inr,
}
use assaybank.Collab.Protocol.{Bytes, ProtocolError, InboundFrame, decode_frame, encode_awareness}
use assaybank.Collab.Handshake.{Config}
use assaybank.Collab.Rooms.{Yjs, publish, has, broadcast_targets}
use assaybank.Collab.Server.{
  Effect, sent, closed, terminated, pinged, refused, Server, room_of, send, send_all, send_encoded,
  and_then, send_awareness, close_socket,
}
use assaybank.Collab.Frames.{
  set_room, reply, on_step_1, on_update, on_frame, settle_frame, on_decoded, handle_frame,
}
use assaybank.Collab.Steps.Collections.{has-delete}
use assaybank.Collab.Steps.Preserved.{IsSound}
use assaybank.Collab.Steps.Reached.{Reached, Reached-IsSound}

module _ {Doc : Type 0} where
  -- The effect is a frame to a connected peer of the room of `peer`, or closes the socket of `peer`.
  abbrev pub StaysInRoom : Server Doc → ℕ → Effect → Type 0
  StaysInRoom s peer (sent q frame) =
      (has q s.connections ≡ true) × ((s.peers q).room ≡ (s.peers peer).room)
  StaysInRoom s peer (closed q code) = q ≡ peer
  StaysInRoom s peer (terminated q) = ⊥
  StaysInRoom s peer (pinged q) = ⊥
  StaysInRoom s peer (refused refusal) = ⊥

module _ {Doc : Type 0} (s : Server Doc) (peer : ℕ) where
  -- A peer that a frame of `peer` may be sent to.
  abbrev Near : ℕ → Type 0
  Near q = (has q s.connections ≡ true) × ((s.peers q).room ≡ (s.peers peer).room)

  All-append :
      (a b : List Effect)
      → All (StaysInRoom s peer) a
      → All (StaysInRoom s peer) b
      → All (StaysInRoom s peer) (a ++ b)
  All-append [] b h k = k
  All-append (e ∷ a) b h k = (h.0, All-append a b h.1 k)

  send-StaysInRoom :
      (t : Server Doc) (q : ℕ) (frame : Bytes) → Near q → All (StaysInRoom s peer) (send t q frame)
  unfolding send
  send-StaysInRoom t q frame n = elim (Bool-cases (t.peers q).is_open) [
    | inl o ↦ rw o (n, tt)
    | inr c ↦ rw c tt
  ]

  send_all-StaysInRoom :
      (t : Server Doc) (l : List ℕ) (frame : Bytes)
      → ((q : ℕ) → has q l ≡ true → Near q)
      → All (StaysInRoom s peer) (send_all t l frame)
  unfolding send_all has
  send_all-StaysInRoom t [] frame n = tt
  send_all-StaysInRoom t (q ∷ l) frame n =
      All-append _ _ (send-StaysInRoom t q frame (n q (ground arith)))
        (send_all-StaysInRoom t l frame (λ p h. n p (ground arith)))

  send_encoded-StaysInRoom :
      (t : Server Doc) (l : List ℕ) (r : Result Bytes ProtocolError)
      → ((q : ℕ) → has q l ≡ true → Near q)
      → All (StaysInRoom s peer) (send_encoded t l r).0
  unfolding send_encoded
  send_encoded-StaysInRoom t l (ok frame) n = send_all-StaysInRoom t l frame n
  send_encoded-StaysInRoom t l (err e) n = tt

  and_then-StaysInRoom :
      (a b : List Effect × Bool)
      → All (StaysInRoom s peer) a.0
      → All (StaysInRoom s peer) b.0
      → All (StaysInRoom s peer) (and_then a b).0
  and_then-StaysInRoom (effects, true) b h k = All-append effects b.0 h k
  and_then-StaysInRoom (effects, false) b h k = h

  send_awareness-StaysInRoom :
      (t : Server Doc) (entries : List (ℕ × Bytes))
      → ((q : ℕ) → has q (peer ∷ []) ≡ true → Near q)
      → All (StaysInRoom s peer) (send_awareness t peer entries).0
  unfolding send_awareness
  send_awareness-StaysInRoom t [] n = tt
  send_awareness-StaysInRoom t ((other, payload) ∷ entries) n =
      let rest = send_awareness-StaysInRoom t entries n in
      elim (Bool-cases (other == peer)) [
        | inl own ↦ rw own rest
        | inr foreign ↦ rw foreign (
            and_then-StaysInRoom _ (send_awareness t peer entries)
              (send_encoded-StaysInRoom t (peer ∷ []) (encode_awareness payload) n) rest)
      ]

  own_socket : has peer s.connections ≡ true → (q : ℕ) → has q (peer ∷ []) ≡ true → Near q
  unfolding has
  own_socket c q h = let e : peer ≡ q = ground arith in subst Near e (c, refl)

  targets : IsSound s → (q : ℕ) → has q (broadcast_targets peer (room_of s peer)) ≡ true → Near q
  unfolding broadcast_targets
  targets h q k =
      h.connected (s.peers peer).room q (ground (arith, has-delete peer q (room_of s peer).peers))

  reply-StaysInRoom :
      (update : Option Bytes)
      → has peer s.connections ≡ true
      → All (StaysInRoom s peer) (reply peer update s).0
  unfolding reply
  reply-StaysInRoom none c = tt
  reply-StaysInRoom (some update) c = send_encoded-StaysInRoom s (peer ∷ []) _ (own_socket c)

  on_update-StaysInRoom :
      (yjs : Yjs Doc) (update : Bytes)
      → IsSound s
      → All (StaysInRoom s peer) (on_update yjs peer update s).0.0
  unfolding on_update
  on_update-StaysInRoom yjs update h =
      elim (Bool-cases (yjs.apply_update (room_of s peer).doc update).1) [
        | inl applied ↦ rw applied (
            send_encoded-StaysInRoom
              (set_room peer
                (record (room_of s peer) { doc = (yjs.apply_update (room_of s peer).doc update).0 })
                s)
              _ _ (targets h))
        | inr threw ↦ rw threw tt
      ]

  on_frame-StaysInRoom :
      (yjs : Yjs Doc) (frame : InboundFrame)
      → IsSound s
      → has peer s.connections ≡ true
      → All (StaysInRoom s peer) (on_frame yjs peer frame s).0.0
  unfolding on_frame on_step_1
  on_frame-StaysInRoom yjs (InboundFrame.sync_step_1 v) h c = reply-StaysInRoom _ c
  on_frame-StaysInRoom yjs (InboundFrame.sync_step_2 u) h c = on_update-StaysInRoom yjs u h
  on_frame-StaysInRoom yjs (InboundFrame.sync_update u) h c = on_update-StaysInRoom yjs u h
  on_frame-StaysInRoom yjs (InboundFrame.awareness p) h c =
      send_encoded-StaysInRoom
        (set_room peer
          (record (room_of s peer) {
            last_awareness = publish peer p (room_of s peer).last_awareness;
          })
          s)
        _ (encode_awareness p) (targets h)
  on_frame-StaysInRoom yjs InboundFrame.query_awareness h c =
      send_awareness-StaysInRoom s (room_of s peer).last_awareness (own_socket c)
  on_frame-StaysInRoom yjs (InboundFrame.ignored t) h c = tt

  settle_frame-StaysInRoom :
      (r : (List Effect × Bool) × Server Doc)
      → All (StaysInRoom s peer) r.0.0
      → All (StaysInRoom s peer) (settle_frame peer r).0
  unfolding settle_frame close_socket
  settle_frame-StaysInRoom ((effects, true), t) h = h
  settle_frame-StaysInRoom ((effects, false), t) h = All-append effects _ h (refl, tt)

  on_decoded-StaysInRoom :
      (yjs : Yjs Doc) (r : Result InboundFrame ProtocolError)
      → IsSound s
      → has peer s.connections ≡ true
      → All (StaysInRoom s peer) (on_decoded yjs peer r s).0
  unfolding on_decoded close_socket
  on_decoded-StaysInRoom yjs (ok frame) h c =
      settle_frame-StaysInRoom (on_frame yjs peer frame s) (on_frame-StaysInRoom yjs frame h c)
  on_decoded-StaysInRoom yjs (err e) h c = (refl, tt)

  handle_frame_near :
      (yjs : Yjs Doc) (bytes : Bytes) (is_binary : Bool)
      → IsSound s
      → has peer s.connections ≡ true
      → All (StaysInRoom s peer) (handle_frame yjs peer bytes is_binary s).0
  unfolding handle_frame close_socket
  handle_frame_near yjs bytes true h c = on_decoded-StaysInRoom yjs (decode_frame bytes) h c
  handle_frame_near yjs bytes false h c = (refl, tt)

module _ {Doc : Type 0} where
  -- Whatever bytes a connected peer sends, and whatever happened before: what the service sends for
  -- them goes to connected peers of the same room only, and no socket is closed but the peer's own.
  pub handle_frame-StaysInRoom :
      (yjs : Yjs Doc) (cfg : Config) (retention_ms : ℕ) (s : Server Doc) (peer : ℕ) (bytes : Bytes)
      (is_binary : Bool)
      → Reached yjs cfg retention_ms s
      → has peer s.connections ≡ true
      → All (StaysInRoom s peer) (handle_frame yjs peer bytes is_binary s).0
  handle_frame-StaysInRoom yjs cfg retention_ms s peer bytes is_binary r c =
      handle_frame_near s peer yjs bytes is_binary (Reached-IsSound yjs cfg retention_ms s r) c
