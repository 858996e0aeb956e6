-- ===== src/Collab/Tests.antt =====
-- Runs of the collaboration service's parts at concrete inputs.
use assaybank.Prelude.{
  if◌then◌else◌, ℕ, zero, suc, ◌∷◌, ◌++◌, take, [], arith, ◌≡◌, refl, true, false, some, none, ok,
  All,
}
use assaybank.Prelude.Text.{Text, eq_text}
use assaybank.Auth.Envelope.{Platform, object}
use assaybank.Auth.WsTicket.{Ticket, ticket_claims}
use assaybank.Api.SingleUse.{empty}
use assaybank.Collab.Handshake.{Config, Request, Authorised, authorise}
use assaybank.Collab.Handshake.Once.{Attempt, AllRefused, run, admitted_once}
use assaybank.Collab.Rooms.{Yjs, has, find}
use assaybank.Collab.Server.{Server, sent, room_of, new_server, on_upgrade}
use assaybank.Collab.Frames.{handle_frame}
use assaybank.Collab.Steps.{Event, upgraded, step}
use assaybank.Collab.Steps.Reached.{Reached, begun, stepped, Reached-held, on_upgrade-key}
use assaybank.Collab.Steps.Isolated.{StaysInRoom, handle_frame-StaysInRoom}
use assaybank.Collab.Protocol.{
  Bytes, decode_frame, encode_sync_step_1, encode_sync_step_2, encode_sync_update, encode_awareness,
  sync_step_1, sync_step_2, sync_update, awareness,
}
use assaybank.Collab.Protocol.RoundTrip.{Decodes, decode_frame-encode}

-- 200 bytes, whose length takes two bytes on the wire.
abbrev bytes_of : ℕ → Bytes
bytes_of zero = []
bytes_of (suc n) = 7 ∷ bytes_of n

decode_frame-encode_example :
    Decodes (encode_sync_step_1 (bytes_of 200)) (sync_step_1 (bytes_of 200))
    × Decodes (encode_sync_step_2 (bytes_of 200)) (sync_step_2 (bytes_of 200))
    × Decodes (encode_sync_update (bytes_of 200)) (sync_update (bytes_of 200))
    × Decodes (encode_awareness (bytes_of 200)) (awareness (bytes_of 200))
decode_frame-encode_example = decode_frame-encode (bytes_of 200) (omega arith)

-- A platform whose hash is the length of the key, and whose claims are those of one ticket.
abbrev ticket : Ticket
ticket = record { session_id = b's' ∷ []; issued_at = 100_000 }

abbrev platform : Platform
unfolding ticket_claims
platform = record {
  hmac_sha256_hex = λ key message. b'f' ∷ [];
  to_base64url = λ t. b'p' ∷ [];
  of_base64url = λ t. [];
  stringify = λ c. b'{' ∷ b'}' ∷ [];
  parse = λ t. some (object (ticket_claims ticket (b'n' ∷ [])));
}

abbrev cfg : Config
cfg = record {
  env = platform;
  is_uuid = λ t. true;
  ticket_secret = b'k' ∷ [];
  ticket_pepper = b'p' ∷ [];
}

-- `abwt1.p.f`
abbrev presented : Text
presented = b'a' ∷ b'b' ∷ b'w' ∷ b't' ∷ b'1' ∷ b'.' ∷ b'p' ∷ b'.' ∷ b'f' ∷ []

-- `/collab/room-1`
abbrev path : Text
path =
    b'/' ∷ b'c' ∷ b'o' ∷ b'l' ∷ b'l' ∷ b'a' ∷ b'b' ∷ b'/' ∷ b'r' ∷ b'o' ∷ b'o' ∷ b'm' ∷ b'-' ∷ b'1'
    ∷ []

abbrev request : Request
request = record { pathname = path; ticket = some presented }

abbrev authorised : Authorised
authorised = record { ticket = ticket; room_code = b'r' ∷ b'o' ∷ b'o' ∷ b'm' ∷ b'-' ∷ b'1' ∷ [] }

abbrev first : Attempt
first = record { draining = false; now = 100_500; request = request }

authorise_first : (authorise cfg false 100_500 request empty).0 ≡ ok authorised
unfolding authorise platform
authorise_first = refl

admitted_once_example :
    AllRefused presented
      (first ∷ [])
      (run cfg (authorise cfg false 100_500 request empty).1 (first ∷ []))
admitted_once_example =
    admitted_once cfg first empty authorised (first ∷ []) presented refl authorise_first
      (omega arith) (omega arith)

-- Documents that keep the last update.
abbrev yjs : Yjs Bytes
yjs = record {
  empty = λ key. [];
  state_vector = λ doc. [];
  state_as_update = λ doc vector. some doc;
  apply_update = λ doc update. (update, true);
}

abbrev arrival : Event
arrival = upgraded 100_500 request

abbrev one_peer : Server Bytes
one_peer = (step yjs cfg 300_000 arrival (new_server yjs)).1

one_peer-Reached : Reached yjs cfg 300_000 one_peer
one_peer-Reached = stepped (new_server yjs) arrival begun tt

one_peer-has : has 0 one_peer.connections ≡ true
unfolding step new_server authorise has platform
one_peer-has = refl

Reached-held_example :
    (has 0 (room_of one_peer 0).peers ≡ true)
    × (find (room_of one_peer 0).key one_peer.registry.rooms ≡ some (one_peer.peers 0).room)
    × ((room_of one_peer 0).reaper ≡ none)
Reached-held_example = Reached-held yjs cfg 300_000 one_peer 0 one_peer-Reached one_peer-has

on_upgrade-key_example :
    ((room_of
        (on_upgrade yjs cfg 100_500 request (new_server yjs)).1
        (new_server yjs).next_peer).key
      ≡ authorised.ticket.session_id)
    × (has
          (new_server yjs).next_peer
          (on_upgrade yjs cfg 100_500 request (new_server yjs)).1.connections
        ≡ true)
unfolding new_server
on_upgrade-key_example =
    on_upgrade-key yjs cfg 300_000 100_500 request authorised (new_server yjs) begun authorise_first

-- A platform whose ticket is for the room that the payload begins with, and two tickets for `s`
-- with one for `o`.
abbrev rooms_platform : Platform
unfolding ticket_claims eq_text
rooms_platform = record {
  hmac_sha256_hex = λ key message. if eq_text key (b'p' ∷ []) then message else b'f' ∷ [];
  to_base64url = λ t. t;
  of_base64url = take 1;
  stringify = λ c. b'{' ∷ b'}' ∷ [];
  parse = λ t.
      some (object (ticket_claims (record { session_id = t; issued_at = 100_000 }) (b'n' ∷ [])));
}

abbrev rooms_cfg : Config
rooms_cfg = record cfg { env = rooms_platform }

abbrev ticket_for : Text → Request
ticket_for payload = record {
  pathname = path;
  ticket = some (b'a' ∷ b'b' ∷ b'w' ∷ b't' ∷ b'1' ∷ b'.' ∷ (payload ++ (b'.' ∷ b'f' ∷ [])));
}

abbrev arrives : Text → Server Bytes → Server Bytes
arrives payload s = (step yjs rooms_cfg 300_000 (upgraded 100_500 (ticket_for payload)) s).1

abbrev two_peers : Server Bytes
two_peers = arrives (b's' ∷ b'2' ∷ []) (arrives (b's' ∷ b'1' ∷ []) (new_server yjs))

-- The third peer is in the other room.
abbrev three_peers : Server Bytes
three_peers = arrives (b'o' ∷ []) two_peers

three_peers-Reached : Reached yjs rooms_cfg 300_000 three_peers
three_peers-Reached =
    stepped two_peers (upgraded 100_500 (ticket_for (b'o' ∷ [])))
      (stepped (arrives (b's' ∷ b'1' ∷ []) (new_server yjs))
        (upgraded 100_500 (ticket_for (b's' ∷ b'2' ∷ [])))
        (stepped (new_server yjs) (upgraded 100_500 (ticket_for (b's' ∷ b'1' ∷ []))) begun tt) tt)
      tt

three_peers-has : has 0 three_peers.connections ≡ true
unfolding step new_server authorise has rooms_platform
three_peers-has = refl

-- An update reaches the one other peer of the room.
update_frame :
    (handle_frame yjs 0 (0 ∷ 2 ∷ 1 ∷ 5 ∷ []) true three_peers).0 ≡ sent 1 (0 ∷ 2 ∷ 1 ∷ 5 ∷ []) ∷ []
unfolding handle_frame step new_server authorise has rooms_platform decode_frame encode_sync_update
update_frame = refl

handle_frame-StaysInRoom_example :
    All (StaysInRoom three_peers 0) (handle_frame yjs 0 (0 ∷ 2 ∷ 1 ∷ 5 ∷ []) true three_peers).0
handle_frame-StaysInRoom_example =
    handle_frame-StaysInRoom yjs rooms_cfg 300_000 three_peers 0 (0 ∷ 2 ∷ 1 ∷ 5 ∷ []) true
      three_peers-Reached three_peers-has
