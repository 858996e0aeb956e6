-- ===== src/Collab/Server.antt =====
-- apps/collab/src/server.ts: the connections of the service. A step is one turn of the event loop:
-- an upgrade, a frame, a pong, the end of a socket, a timer or a part of the shutdown. What a step
-- does to the sockets is the list of its effects.
use assaybank.Prelude.{
  ℕ, suc, Bool, true, false, List, [], ◌∷◌, ◌++◌, Result, ok, err, ◌==◌, if◌then◌else◌,
}
use assaybank.Api.SingleUse.{Store, empty}
use assaybank.Collab.Protocol.{Bytes, ProtocolError, encode_sync_step_1, encode_awareness}
use assaybank.Collab.Handshake.{Config, Request, Refusal, Authorised, authorise}
use assaybank.Collab.Rooms.{Yjs, Room, RoomRegistry, new_room, add, acquire, attach}

-- `is_open` is that the socket's `readyState` is OPEN.
pub record PeerConnection : Type 0 where
  pub room : ℕ
  pub is_open : Bool
  pub alive : Bool

pub data Effect : Type 0 where
  sent : ℕ → Bytes → Effect
  closed : ℕ → ℕ → Effect
  terminated pinged : ℕ → Effect
  refused : Refusal → Effect

abbrev pub going_away : ℕ
going_away = 1001

abbrev pub protocol_error : ℕ
protocol_error = 1002

abbrev pub unsupported_data : ℕ
unsupported_data = 1003

-- A connection that was not made yet is blank.
pub record Server (Doc : Type 0) : Type 0 where
  pub draining : Bool
  pub tickets : Store
  pub registry : RoomRegistry Doc
  pub connections : List ℕ
  pub peers : ℕ → PeerConnection
  pub next_peer : ℕ

-- One part after the other, unless the first threw.
abbrev pub and_then : List Effect × Bool → List Effect × Bool → List Effect × Bool
and_then (effects, true) rest = (effects ++ rest.0, rest.1)
and_then (effects, false) rest = (effects, false)

module _ {Doc : Type 0} where
  abbrev pub room_of : Server Doc → ℕ → Room Doc
  room_of s peer = s.registry.heap (s.peers peer).room

  unfoldable pub set_peer : ℕ → PeerConnection → Server Doc → Server Doc
  set_peer peer value s = record s { peers = λ p. if p == peer then value else s.peers p }

  unfoldable pub send : Server Doc → ℕ → Bytes → List Effect
  send s peer frame = if (s.peers peer).is_open then sent peer frame ∷ [] else []

  unfoldable pub send_all : Server Doc → List ℕ → Bytes → List Effect
  unfolding send
  send_all s [] frame = []
  send_all s (peer ∷ peers) frame = send s peer frame ++ send_all s peers frame

  -- What was sent, and whether the code came to its end or threw.
  unfoldable pub send_encoded :
      Server Doc → List ℕ → Result Bytes ProtocolError → List Effect × Bool
  unfolding send_all
  send_encoded s peers (ok frame) = (send_all s peers frame, true)
  send_encoded s peers (err e) = ([], false)

  -- The payloads of the others.
  unfoldable pub send_awareness : Server Doc → ℕ → List (ℕ × Bytes) → List Effect × Bool
  unfolding send_encoded
  send_awareness s peer [] = ([], true)
  send_awareness s peer ((other, payload) ∷ entries) =
      let rest = send_awareness s peer entries in
      if other == peer
      then rest
      else and_then (send_encoded s (peer ∷ []) (encode_awareness payload)) rest

  unfoldable pub close_socket : ℕ → ℕ → Server Doc → List Effect × Server Doc
  unfolding set_peer
  close_socket peer code s =
      (closed peer code ∷ [], set_peer peer (record (s.peers peer) { is_open = false }) s)

  -- The connection and its room; the frames of the handshake are sent from there.
  unfoldable pub admit : Yjs Doc → Authorised → Server Doc → Server Doc
  unfolding acquire attach add set_peer
  admit yjs authorised s =
      let peer = s.next_peer in
      let acquired = acquire yjs authorised.ticket.session_id s.registry in
      let attached = attach acquired.0 peer acquired.1 in
      set_peer peer (record { room = acquired.0; is_open = true; alive = true })
        (record s {
          registry = attached.1;
          connections = add peer s.connections;
          next_peer = suc peer;
        })

  unfoldable pub accept : Yjs Doc → Authorised → Server Doc → List Effect × Server Doc
  unfolding admit send_encoded send_awareness
  accept yjs authorised s =
      let peer = s.next_peer in
      let after = admit yjs authorised s in
      let room = room_of after peer in
      (
        (and_then (send_encoded after (peer ∷ []) (encode_sync_step_1 (yjs.state_vector room.doc)))
            (send_awareness after peer room.last_awareness)).0,
        after,
      )

  unfoldable pub on_authorised :
      Yjs Doc → Result Authorised Refusal × Store → Server Doc → List Effect × Server Doc
  unfolding accept
  on_authorised yjs (ok authorised, tickets) s =
      accept yjs authorised (record s { tickets = tickets })
  on_authorised yjs (err refusal, tickets) s =
      (refused refusal ∷ [], record s { tickets = tickets })

  -- `httpServer.on('upgrade', …)`
  unfoldable pub on_upgrade : Yjs Doc → Config → ℕ → Request → Server Doc → List Effect × Server Doc
  unfolding on_authorised authorise
  on_upgrade yjs cfg now request s =
      on_authorised yjs (authorise cfg s.draining now request s.tickets) s

module _ {Doc : Type 0} where
  -- What `createCollabServer` starts with.
  unfoldable pub new_server : Yjs Doc → Server Doc
  unfolding new_room
  new_server yjs = record {
    draining = false;
    tickets = empty;
    registry = record { heap = λ i. new_room yjs []; next = 0; rooms = [] };
    connections = [];
    peers = λ p. record { room = 0; is_open = false; alive = false };
    next_peer = 0;
  }
