-- ===== src/Collab/Steps/Reached.antt =====
-- The servers that the event loop can reach.
use assaybank.Prelude.{
  ℕ, ◌≡◌, refl, ap, ◌∙◌, true, Option, none, some, Result, ok, err, ok-injective, arith,
}
use assaybank.Api.SingleUse.{Store}
use assaybank.Collab.Handshake.{Config, Request, Refusal, Authorised, authorise}
use assaybank.Collab.Rooms.{Yjs, has, find, new_room, acquire, attach, write, cancel_reaper}
use assaybank.Collab.Server.{
  Server, new_server, room_of, admit, set_peer, accept, on_authorised, on_upgrade,
}
use assaybank.Collab.Steps.{Event, step, IsEnabled}
use assaybank.Collab.Steps.Collections.{has-add}
use assaybank.Collab.Steps.Sound.{acquire-Sound}
use assaybank.Collab.Steps.Preserved.{IsSound, step-IsSound}

pub data Reached {Doc : Type 0} (yjs : Yjs Doc) (cfg : Config) (retention_ms : ℕ)
    : Server Doc → Type 0 where
  begun : Reached yjs cfg retention_ms (new_server yjs)
  stepped :
      (s : Server Doc) (e : Event)
      → Reached yjs cfg retention_ms s
      → IsEnabled e s
      → Reached yjs cfg retention_ms (step yjs cfg retention_ms e s).1

module _ {Doc : Type 0} where
  new_server-IsSound : (yjs : Yjs Doc) → IsSound (new_server yjs)
  unfolding new_server new_room has find
  new_server-IsSound yjs = record {
    at_home = λ p h. cc;
    connected = λ i p h. absurd (ground arith);
    held = λ i p h. cc;
    timed = λ i at h. absurd (ground arith);
    keyed = λ k i h. absurd (ground arith);
    unmade = λ i h. (refl, refl);
    counted = λ p h. absurd (ground arith);
  }

  pub Reached-IsSound :
      (yjs : Yjs Doc) (cfg : Config) (retention_ms : ℕ) (s : Server Doc)
      → Reached yjs cfg retention_ms s
      → IsSound s
  Reached-IsSound yjs cfg retention_ms s begun = new_server-IsSound yjs
  Reached-IsSound yjs cfg retention_ms t (stepped s e r k) =
      step-IsSound yjs cfg retention_ms e s k (Reached-IsSound yjs cfg retention_ms s r)

  untimed :
      (s : Server Doc) (p : ℕ)
      → IsSound s
      → has p (room_of s p).peers ≡ true
      → (timer : Option ℕ) → (room_of s p).reaper ≡ timer
      → timer ≡ none
  unfolding has
  untimed s p h inside none e = refl
  untimed s p h inside (some at) e =
      let (empty, _) = h.timed (s.peers p).room at e in ground (arith, empty)

  -- Whatever happens, in whatever order, until the service has stopped: a connected peer is in a room,
  -- which is the one that is held under its key and whose timer is not set, so that its document is
  -- not collected.
  pub Reached-held :
      (yjs : Yjs Doc) (cfg : Config) (retention_ms : ℕ) (s : Server Doc) (p : ℕ)
      → Reached yjs cfg retention_ms s
      → has p s.connections ≡ true
      → (has p (room_of s p).peers ≡ true)
        × (find (room_of s p).key s.registry.rooms ≡ some (s.peers p).room)
        × ((room_of s p).reaper ≡ none)
  Reached-held yjs cfg retention_ms s p r c =
      let h = Reached-IsSound yjs cfg retention_ms s r in
      let inside = h.at_home p c in
      (inside, h.held (s.peers p).room p inside, untimed s p h inside _ refl)

  admit-key :
      (yjs : Yjs Doc) (a : Authorised) (s : Server Doc)
      → IsSound s
      → ((room_of (admit yjs a s) s.next_peer).key ≡ a.ticket.session_id)
        × (has s.next_peer (admit yjs a s).connections ≡ true)
  unfolding admit attach write set_peer cancel_reaper
  admit-key yjs a s h =
      let key = a.ticket.session_id in
      let (sound, found) =
        acquire-Sound s.connections (λ p. (s.peers p).room) s.next_peer yjs key s.registry h in
      let (named, _) = sound.keyed key (acquire yjs key s.registry).0 found in
      (ground (arith, named), ground (arith, has-add s.next_peer s.next_peer s.connections))

  on_authorised-key :
      (yjs : Yjs Doc) (a : Authorised) (r : Result Authorised Refusal × Store) (s : Server Doc)
      → IsSound s
      → r.0 ≡ ok a
      → ((room_of (on_authorised yjs r s).1 s.next_peer).key ≡ a.ticket.session_id)
        × (has s.next_peer (on_authorised yjs r s).1.connections ≡ true)
  unfolding on_authorised accept
  on_authorised-key yjs a (ok b, tickets) s h e =
      let (named, joined) = admit-key yjs b (record s { tickets = tickets }) h in
      (named ∙ ap (λ (c : Authorised). c.ticket.session_id) (ok-injective e), joined)
  on_authorised-key yjs a (err refusal, tickets) s h e = cc

  -- The room of a connection that is opened is that of the session in its ticket, whatever the path of
  -- the request says.
  pub on_upgrade-key :
      (yjs : Yjs Doc) (cfg : Config) (retention_ms now : ℕ) (request : Request) (a : Authorised)
      (s : Server Doc)
      → Reached yjs cfg retention_ms s
      → (authorise cfg s.draining now request s.tickets).0 ≡ ok a
      → ((room_of (on_upgrade yjs cfg now request s).1 s.next_peer).key ≡ a.ticket.session_id)
        × (has s.next_peer (on_upgrade yjs cfg now request s).1.connections ≡ true)
  unfolding on_upgrade
  on_upgrade-key yjs cfg retention_ms now request a s r e =
      on_authorised-key yjs a (authorise cfg s.draining now request s.tickets) s
        (Reached-IsSound yjs cfg retention_ms s r) e
