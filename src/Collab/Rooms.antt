-- ===== src/Collab/Rooms.antt =====
-- apps/collab/src/rooms.ts: one document for each session, and the peers attached to it. A room is an
-- object that the registry, its peers and its timer share, so it stands in a heap. A peer is its
-- number; what Yjs does to documents is the parameter `Yjs`.
use assaybank.Prelude.{
  ℕ, ◌+◌, suc, Bool, true, false, not, Option, none, some, List, [], ◌∷◌, length, keep, ltb, ◌==◌,
  if◌then◌else◌,
}
use assaybank.Prelude.Text.{Text, eq_text}
use assaybank.Collab.Protocol.{Bytes}

-- `apply_update` and `state_as_update` throw where the last part is false and where there is none.
pub record Yjs (Doc : Type 0) : Type 0 where
  pub empty : Text → Doc
  pub state_vector : Doc → Bytes
  pub state_as_update : Doc → Bytes → Option Bytes
  pub apply_update : Doc → Bytes → Doc × Bool

abbrev pub default_room_retention_ms : ℕ
default_room_retention_ms = 300_000

-- A pending timer is the instant at which it fires.
pub record Room (Doc : Type 0) : Type 0 where
  pub key : Text
  pub peers : List ℕ
  pub last_awareness : List (ℕ × Bytes)
  pub doc : Doc
  pub joined : Bool
  pub reaper : Option ℕ

-- `Set.prototype.has`, `add` and `delete`.
unfoldable pub has : ℕ → List ℕ → Bool
has p [] = false
has p (q ∷ peers) = if q == p then true else has p peers

unfoldable pub add : ℕ → List ℕ → List ℕ
add p [] = p ∷ []
add p (q ∷ peers) = if q == p then q ∷ peers else q ∷ add p peers

unfoldable pub delete : ℕ → List ℕ → List ℕ
delete p [] = []
delete p (q ∷ peers) = if q == p then delete p peers else q ∷ delete p peers

-- `Map.prototype.set` and `delete` on the payloads of the peers.
unfoldable pub publish : ℕ → Bytes → List (ℕ × Bytes) → List (ℕ × Bytes)
publish p payload [] = (p, payload) ∷ []
publish p payload ((q, old) ∷ entries) =
    if q == p then (q, payload) ∷ entries else (q, old) ∷ publish p payload entries

unfoldable pub retract : ℕ → List (ℕ × Bytes) → List (ℕ × Bytes)
retract p entries = keep (λ e. not (e.0 == p)) entries

-- The rooms by their keys: `Map.prototype.get`, `set` and `delete`.
unfoldable pub find : Text → List (Text × ℕ) → Option ℕ
find key [] = none
find key ((k, room) ∷ rooms) = if eq_text k key then some room else find key rooms

unfoldable pub enter : Text → ℕ → List (Text × ℕ) → List (Text × ℕ)
enter key room [] = (key, room) ∷ []
enter key room ((k, old) ∷ rooms) =
    if eq_text k key then (k, room) ∷ rooms else (k, old) ∷ enter key room rooms

unfoldable pub remove : Text → List (Text × ℕ) → List (Text × ℕ)
remove key [] = []
remove key ((k, room) ∷ rooms) =
    if eq_text k key then remove key rooms else (k, room) ∷ remove key rooms

module _ {Doc : Type 0} where
  unfoldable pub new_room : Yjs Doc → Text → Room Doc
  new_room yjs key = record {
    key = key;
    peers = [];
    last_awareness = [];
    doc = yjs.empty key;
    joined = false;
    reaper = none;
  }

  unfoldable pub cancel_reaper : Room Doc → Room Doc
  cancel_reaper room = record room { reaper = none }

  unfoldable pub schedule_reaper : ℕ → ℕ → Room Doc → Room Doc
  unfolding cancel_reaper
  schedule_reaper now delay_ms room = record (cancel_reaper room) { reaper = some (now + delay_ms) }

  -- The peers that a frame of `origin` is sent to.
  unfoldable pub broadcast_targets : ℕ → Room Doc → List ℕ
  unfolding delete
  broadcast_targets origin room = delete origin room.peers

  -- Destroying the document frees it; it is not used afterwards.
  unfoldable pub destroy : Room Doc → Room Doc
  unfolding cancel_reaper
  destroy room = record (cancel_reaper room) { peers = []; last_awareness = [] }

-- The heap of the rooms, and those that are held by key. A room that was not made yet is blank.
pub record RoomRegistry (Doc : Type 0) : Type 0 where
  pub heap : ℕ → Room Doc
  pub next : ℕ
  pub rooms : List (Text × ℕ)

module _ {Doc : Type 0} where
  -- An assignment to the room.
  unfoldable pub write : ℕ → Room Doc → RoomRegistry Doc → RoomRegistry Doc
  write room value registry = record registry {
    heap = λ i. if i == room then value else registry.heap i;
  }

  unfoldable pub acquire_found : Yjs Doc → Text → Option ℕ → RoomRegistry Doc → ℕ × RoomRegistry Doc
  unfolding write cancel_reaper new_room enter
  acquire_found yjs key (some room) registry =
      (room, write room (cancel_reaper (registry.heap room)) registry)
  acquire_found yjs key none registry =
      let room = registry.next in
      (
        room,
        record (write room (new_room yjs key) registry) {
          next = suc room;
          rooms = enter key room registry.rooms;
        },
      )

  unfoldable pub acquire : Yjs Doc → Text → RoomRegistry Doc → ℕ × RoomRegistry Doc
  unfolding acquire_found find
  acquire yjs key registry = acquire_found yjs key (find key registry.rooms) registry

  -- Whether it is a rejoin, and the registry.
  unfoldable pub attach : ℕ → ℕ → RoomRegistry Doc → Bool × RoomRegistry Doc
  unfolding write cancel_reaper add
  attach room peer registry =
      let r = registry.heap room in
      (
        r.joined,
        write room (record (cancel_reaper r) { peers = add peer r.peers; joined = true }) registry,
      )

  unfoldable pub detach : ℕ → ℕ → ℕ → ℕ → RoomRegistry Doc → RoomRegistry Doc
  unfolding write schedule_reaper delete retract
  detach now retention_ms room peer registry =
      let r = registry.heap room in
      let left = record r {
        peers = delete peer r.peers;
        last_awareness = retract peer r.last_awareness;
      } in
      write room (if ltb 0 (length left.peers) then left else schedule_reaper now retention_ms left)
        registry

  unfoldable pub release_found : Text → Option ℕ → RoomRegistry Doc → RoomRegistry Doc
  unfolding write destroy remove
  release_found key none registry = registry
  release_found key (some room) registry =
      record (write room (destroy (registry.heap room)) registry) {
        rooms = remove key registry.rooms;
      }

  unfoldable pub release : Text → RoomRegistry Doc → RoomRegistry Doc
  unfolding release_found find
  release key registry = release_found key (find key registry.rooms) registry

  -- The timer of a room fires.
  unfoldable pub collect : ℕ → RoomRegistry Doc → RoomRegistry Doc
  unfolding release
  collect room registry =
      if length (registry.heap room).peers == 0
      then release (registry.heap room).key registry
      else registry

  unfoldable pub destroy_all : List (Text × ℕ) → RoomRegistry Doc → RoomRegistry Doc
  unfolding write destroy
  destroy_all [] registry = registry
  destroy_all ((key, room) ∷ rooms) registry =
      destroy_all rooms (write room (destroy (registry.heap room)) registry)

  unfoldable pub clear : RoomRegistry Doc → RoomRegistry Doc
  unfolding destroy_all
  clear registry = record (destroy_all registry.rooms registry) { rooms = [] }
