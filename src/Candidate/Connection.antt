-- ===== src/Candidate/Connection.antt =====
-- apps/candidate/src/net/connection.ts: the connection that the candidate's screen shows. The
-- listeners are left out but for their number of calls; a text of the announcements is its name.
pub mod Laws
use assaybank.Prelude.{
  ℕ, ◌+◌, ◌-◌, Bool, true, false, Option, none, some, List, [], ◌∷◌, ltb, ◌==◌, if◌then◌else◌, ◌&&◌,
}

pub data ConnectionState : Type 0 where
  online offline reconnecting syncing : ConnectionState

-- The announcements of `CONNECTION_MESSAGES`, all polite.
pub data Announcement : Type 0 where
  says_offline says_reconnected says_reconnecting : Announcement

pub record Snapshot : Type 0 where
  pub state : ConnectionState
  pub pending_writes : ℕ
  pub announcement : Option Announcement

abbrev pub initial : Snapshot
initial = record { state = online; pending_writes = 0; announcement = none }

-- `===` on states.
unfoldable pub same : ConnectionState → ConnectionState → Bool
same online online = true
same offline offline = true
same reconnecting reconnecting = true
same syncing syncing = true
same _ _ = false

abbrev snapshot : ConnectionState → ℕ → Option Announcement → Snapshot
snapshot state pending announcement = record {
  state = state;
  pending_writes = pending;
  announcement = announcement;
}

-- Each operation yields the snapshot that it hands to `#set`, or none where it returns early.
unfoldable pub go_offline : Snapshot → Option Snapshot
unfolding same
go_offline s =
    if same s.state offline
    then none
    else some (snapshot offline s.pending_writes (some says_offline))

unfoldable pub begin_reconnect : Snapshot → Option Snapshot
unfolding same
begin_reconnect s =
    if same s.state reconnecting
    then none
    else if same s.state syncing
    then none
    else some (snapshot reconnecting s.pending_writes (some says_reconnecting))

unfoldable pub go_online : Snapshot → Option Snapshot
unfolding same
go_online s =
    if ltb 0 s.pending_writes
    then (if same s.state syncing then none else some (snapshot syncing s.pending_writes none))
    else if same s.state online
    then none
    else some (snapshot online 0 (some says_reconnected))

unfoldable pub note_buffered_write : Snapshot → Option Snapshot
note_buffered_write s = some (snapshot s.state (s.pending_writes + 1) none)

unfoldable pub note_flushed_write : Snapshot → Option Snapshot
unfolding same
note_flushed_write s =
    let pending = s.pending_writes - 1 in
    if pending == 0 && same s.state syncing
    then some (snapshot online 0 (some says_reconnected))
    else some (snapshot s.state pending none)

-- `===` on announcements: each message is an object made anew, so two are the same only if both
-- are null.
abbrev same_announcement : Option Announcement → Option Announcement → Bool
same_announcement none none = true
same_announcement _ _ = false

-- `#set`: the new snapshot, and whether the listeners are called.
unfoldable pub set : Snapshot → Snapshot → Snapshot × Bool
unfolding same
set previous next =
    if same next.state previous.state
      && next.pending_writes == previous.pending_writes
      && same_announcement next.announcement previous.announcement
    then (previous, false)
    else (next, true)

pub data Operation : Type 0 where
  goes_offline begins_reconnect goes_online buffers_write flushes_write : Operation

unfoldable pub operate : Operation → Snapshot → Option Snapshot
unfolding go_offline begin_reconnect go_online note_buffered_write note_flushed_write
operate goes_offline s = go_offline s
operate begins_reconnect s = begin_reconnect s
operate goes_online s = go_online s
operate buffers_write s = note_buffered_write s
operate flushes_write s = note_flushed_write s

-- One call of the monitor.
unfoldable pub step : Operation → Snapshot → Snapshot × Bool
unfolding operate set
step op s = elim (operate op s) [ none ↦ (s, false) | some next ↦ set s next ]

unfoldable pub run : List Operation → Snapshot → Snapshot
unfolding step
run [] s = s
run (op ∷ ops) s = run ops (step op s).0
