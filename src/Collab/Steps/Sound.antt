-- ===== src/Collab/Steps/Sound.antt =====
-- The invariant of the rooms and their peers, and the operations of the registry that keep it.
use assaybank.Prelude.{
  ℕ, suc, ◌≤◌, ◌<◌, ◌≡◌, ◌⊎◌, refl, true, none, some, List, [], ◌==◌, if◌then◌else◌, arith, inl,
  inr, Option-cases,
}
use assaybank.Prelude.Text.{Text, eq_text_iff}
use assaybank.Collab.Rooms.{
  Yjs, Room, RoomRegistry, has, add, delete, find, write, cancel_reaper, new_room, acquire_found,
  acquire, attach, detach, collect, schedule_reaper, release, release_found, destroy,
}
use assaybank.Collab.Steps.Collections.{length_zero, has-add, has-delete, find-enter, find-remove}

-- `connections` are the peers in their rooms and no others; a room with a peer, or with a pending
-- timer, is the one that is held under its key, and has the one or the other and not both.
pub record Sound {Doc : Type 0} (connections : List ℕ) (home : ℕ → ℕ) (next_peer : ℕ)
    (r : RoomRegistry Doc) : Type 0 where
  pub at_home : (p : ℕ) → has p connections ≡ true → has p (r.heap (home p)).peers ≡ true
  pub connected :
      (i p : ℕ) → has p (r.heap i).peers ≡ true → (has p connections ≡ true) × (home p ≡ i)
  pub held : (i p : ℕ) → has p (r.heap i).peers ≡ true → find (r.heap i).key r.rooms ≡ some i
  pub timed :
      (i at : ℕ)
      → (r.heap i).reaper ≡ some at
      → ((r.heap i).peers ≡ []) × (find (r.heap i).key r.rooms ≡ some i)
  pub keyed : (k : Text) (i : ℕ) → find k r.rooms ≡ some i → ((r.heap i).key ≡ k) × (i < r.next)
  pub unmade : (i : ℕ) → r.next ≤ i → ((r.heap i).peers ≡ []) × ((r.heap i).reaper ≡ none)
  pub counted : (p : ℕ) → has p connections ≡ true → p < next_peer

module _ {Doc : Type 0} (connections : List ℕ) (home : ℕ → ℕ) (next_peer : ℕ) where
  -- A room that keeps its key, its peers and its timer, or drops the timer.
  pub write-Sound :
      (room : ℕ) (value : Room Doc) (r : RoomRegistry Doc)
      → value.key ≡ (r.heap room).key
      → value.peers ≡ (r.heap room).peers
      → (value.reaper ≡ (r.heap room).reaper) ⊎ (value.reaper ≡ none)
      → Sound connections home next_peer r
      → Sound connections home next_peer (write room value r)
  unfolding write
  write-Sound room value r k e t s = record {
    at_home = λ p h. ground (arith, s.at_home p h);
    connected = λ i p h. ground (arith, s.connected i p);
    held = λ i p h. ground (arith, s.held i p);
    timed = λ i at h. ground (arith, s.timed i at);
    keyed = λ key i h. ground (arith, s.keyed key i h);
    unmade = λ i h. ground (arith, s.unmade i h);
    counted = s.counted;
  }

  -- A new room under a key that is free.
  pub enter-Sound :
      (yjs : Yjs Doc) (key : Text) (r : RoomRegistry Doc)
      → find key r.rooms ≡ none
      → Sound connections home next_peer r
      → Sound connections home next_peer (acquire_found yjs key none r).1
  unfolding acquire_found write new_room has
  enter-Sound yjs key r f s = record {
    at_home = λ p h. ground (arith, s.at_home p h, s.unmade (home p));
    connected = λ i p h. ground (arith, s.connected i p);
    held = λ i p h. ground (
      arith,
      s.held i p,
      find-enter key (r.heap i).key r.next r.rooms,
      eq_text_iff key (r.heap i).key,
    );
    timed = λ i at h. ground (
      arith,
      s.timed i at,
      find-enter key (r.heap i).key r.next r.rooms,
      eq_text_iff key (r.heap i).key,
    );
    keyed =
        λ k i h. ground (arith, s.keyed k i, find-enter key k r.next r.rooms, eq_text_iff key k);
    unmade = λ i h. ground (arith, s.unmade i);
    counted = s.counted;
  }

  pub found-Sound :
      (yjs : Yjs Doc) (key : Text) (room : ℕ) (r : RoomRegistry Doc)
      → Sound connections home next_peer r
      → Sound connections home next_peer (acquire_found yjs key (some room) r).1
  unfolding acquire_found cancel_reaper
  found-Sound yjs key room r s =
      write-Sound room (cancel_reaper (r.heap room)) r refl refl (inr refl) s

  entered :
      (yjs : Yjs Doc) (key : Text) (r : RoomRegistry Doc)
      → find key (acquire_found yjs key none r).1.rooms ≡ some (acquire_found yjs key none r).0
  unfolding acquire_found
  entered yjs key r = rw (find-enter key key r.next r.rooms, (eq_text_iff key key).1 refl) refl

  -- The room that was acquired is held under its key.
  pub acquire-Sound :
      (yjs : Yjs Doc) (key : Text) (r : RoomRegistry Doc)
      → Sound connections home next_peer r
      → Sound connections home next_peer (acquire yjs key r).1
        × (find key (acquire yjs key r).1.rooms ≡ some (acquire yjs key r).0)
  unfolding acquire
  acquire-Sound yjs key r s = elim (Option-cases (find key r.rooms)) [
    | inl free ↦ rw free (enter-Sound yjs key r free s, entered yjs key r)
    | inr (room, taken) ↦ rw taken (found-Sound yjs key room r s, taken)
  ]

  -- A new peer joins a room that is held.
  pub attach-Sound :
      (room : ℕ) (key : Text) (r : RoomRegistry Doc)
      → Sound connections home next_peer r
      → find key r.rooms ≡ some room
      → Sound
          (add next_peer connections)
          (λ p. if p == next_peer then room else home p)
          (suc next_peer)
          (attach room next_peer r).1
  unfolding attach write cancel_reaper
  attach-Sound room key r s f = record {
    at_home = λ p h. ground (
      arith,
      s.at_home p,
      has-add next_peer p connections,
      has-add next_peer p (r.heap room).peers,
    );
    connected = λ i p h. ground (
      arith,
      s.connected i p,
      s.connected room p,
      s.counted p,
      has-add next_peer p connections,
      has-add next_peer p (r.heap room).peers,
    );
    held = λ i p h. ground (arith, s.held i p, s.keyed key room f);
    timed = λ i at h. ground (arith, s.timed i at);
    keyed = λ k i h. ground (arith, s.keyed k i h);
    unmade = λ i h. ground (arith, s.unmade i, s.keyed key room f);
    counted = λ p h. ground (arith, s.counted p, has-add next_peer p connections);
  }

  -- A peer leaves its room, whose timer starts if it was the last.
  pub detach-Sound :
      (now retention_ms peer : ℕ) (r : RoomRegistry Doc)
      → Sound connections home next_peer r
      → has peer connections ≡ true
      → Sound (delete peer connections) home next_peer (detach now retention_ms (home peer) peer r)
  unfolding detach write schedule_reaper cancel_reaper has
  detach-Sound now retention_ms peer r s c = record {
    at_home = λ p h. ground (
      arith,
      s.at_home p,
      has-delete peer p connections,
      has-delete peer p (r.heap (home peer)).peers,
    );
    connected = λ i p h. ground (
      arith,
      s.connected i p,
      has-delete peer p connections,
      has-delete peer p (r.heap (home peer)).peers,
    );
    held = λ i p h. ground (arith, s.held i p, s.held (home peer) peer (s.at_home peer c));
    timed = λ i at h. ground (
      arith,
      s.timed i at,
      s.held (home peer) peer (s.at_home peer c),
      s.at_home peer c,
      length_zero (delete peer (r.heap (home peer)).peers),
    );
    keyed = λ k i h. ground (arith, s.keyed k i h);
    unmade = λ i h.
        ground
          (arith, s.unmade i, s.keyed _ (home peer) (s.held (home peer) peer (s.at_home peer c)));
    counted = λ p h. ground (arith, s.counted p, has-delete peer p connections);
  }

  destroyed :
      (room : ℕ) (r : RoomRegistry Doc)
      → Sound connections home next_peer r
      → (key : Text) → find key r.rooms ≡ some room
      → (r.heap room).peers ≡ []
      → Sound connections home next_peer (release_found key (some room) r)
  unfolding release_found write destroy cancel_reaper has
  destroyed room r s key held empty =
      let k = s.keyed key room held in
      record {
        at_home = λ p h. ground (arith, s.at_home p);
        connected = λ i p h. ground (arith, s.connected i p);
        held = λ i p h. ground (
          arith,
          s.held i p,
          find-remove key (r.heap i).key r.rooms,
          eq_text_iff key (r.heap i).key,
        );
        timed = λ i at h. ground (
          arith,
          s.timed i at,
          find-remove key (r.heap i).key r.rooms,
          eq_text_iff key (r.heap i).key,
        );
        keyed = λ k i h. ground (arith, s.keyed k i, find-remove key k r.rooms, eq_text_iff key k);
        unmade = λ i h. ground (arith, s.unmade i);
        counted = s.counted;
      }

  -- A timer fires: its room is empty and goes.
  pub collect-Sound :
      (room at : ℕ) (r : RoomRegistry Doc)
      → Sound connections home next_peer r
      → (r.heap room).reaper ≡ some at
      → Sound connections home next_peer (collect room r)
  unfolding collect release
  collect-Sound room at r s t =
      let (empty, held) = s.timed room at t in
      rw (empty, held) (destroyed room r s (r.heap room).key held empty)
