-- ===== src/Candidate/Countdown/Display.antt =====
-- What the countdown displays.
use assaybank.Prelude.{ℕ, ◌+◌, ◌≤◌, ◌≡◌, ◌↔◌, true, arith}
use assaybank.Candidate.Countdown.{
  ServerTimeSample, remaining_ms, CountdownSnapshot, CountdownClock, Call, tick, reconcile,
  apply_server_deadline, ceil_seconds, update, step,
}

-- The deadline and the sample that a call leaves in force.
abbrev pub deadline_after : CountdownClock → Call → ℕ
deadline_after c (apply_server_deadline d) = d
deadline_after c _ = c.deadline_at_ms

abbrev pub sample_after : CountdownClock → Call → ServerTimeSample
sample_after c (reconcile s) = s
sample_after c _ = c.sample

-- The snapshot shows the time that is left until the deadline in force.
abbrev pub Shows : CountdownSnapshot → ℕ → ServerTimeSample → ℕ → Type 0
Shows s deadline sample now =
    (s.remaining_seconds ≡ ceil_seconds (remaining_ms deadline sample now))
    × ((s.expired ≡ true) ↔ (deadline + sample.received_at_ms ≤ sample.server_time_ms + now))
    × (s.deadline_at_ms ≡ deadline)

update-Shows :
    (c : CountdownClock) (now : ℕ) → Shows (update c now).0.snapshot c.deadline_at_ms c.sample now
unfolding update
update-Shows c now = ground arith

-- After every call the snapshot has the whole seconds, the expiry and the deadline of that instant,
-- also where the call keeps the old snapshot because nothing that is rendered changed.
pub step-Shows :
    (c : CountdownClock) (call : Call) (now : ℕ)
    → Shows (step c call now).0.snapshot (deadline_after c call) (sample_after c call) now
unfolding step
step-Shows c tick now = update-Shows c now
step-Shows c (reconcile s) now = update-Shows (record c { sample = s }) now
step-Shows c (apply_server_deadline d) now = update-Shows (record c { deadline_at_ms = d }) now
