-- ===== src/Candidate/Tests.antt =====
-- Tests of the candidate's screen, and its theorems at concrete inputs.
use assaybank.Prelude.{ℕ, ◌≤◌, ◌≡◌, refl, some, List, [], ◌∷◌, arith}
use assaybank.Candidate.Connection.{
  Operation, goes_offline, begins_reconnect, goes_online, buffers_write, flushes_write, initial,
  says_reconnected, run,
}
use assaybank.Candidate.Connection.Laws.{IsHonest, run-IsHonest}
use assaybank.Candidate.Countdown.{
  half, five_minutes, ServerTimeSample, CountdownClock, new_clock, reconcile, step, twice_boundary,
  run_ticks,
}
use assaybank.Candidate.Countdown.Announce.{times}
use assaybank.Candidate.Countdown.Display.{Shows, step-Shows}
use assaybank.Candidate.Countdown.Once.{times-run_ticks-le, half_repeats}

-- Two answers written while the line is cut, and flushed after it is back.
abbrev history : List Operation
history =
    goes_offline ∷ buffers_write ∷ buffers_write ∷ begins_reconnect ∷ goes_online ∷ flushes_write
    ∷ flushes_write ∷ []

run-IsHonest_example : IsHonest (run history initial)
run-IsHonest_example = run-IsHonest history

history_saved : (run history initial).announcement ≡ some says_reconnected
unfolding run
history_saved = refl

abbrev at_start : ServerTimeSample
at_start = record { server_time_ms = 0; received_at_ms = 0 }

-- A test of 601 seconds, so that half of it is not a whole second.
abbrev clock : ℕ → CountdownClock
clock now = new_clock 601_000 0 at_start now

step-Shows_example : Shows (step (clock 0) (reconcile at_start) 700).0.snapshot 601_000 at_start 700
unfolding new_clock
step-Shows_example = step-Shows (clock 0) (reconcile at_start) 700

-- Five minutes are announced once by ticks on both sides of them.
times-run_ticks-le_example :
    times five_minutes (run_ticks (clock 0) (300_900 ∷ 301_000 ∷ 301_250 ∷ 302_000 ∷ [])) ≤ 1
unfolding new_clock twice_boundary
times-run_ticks-le_example =
    times-run_ticks-le five_minutes (clock 0) 0 300 (300_900 ∷ 301_000 ∷ 301_250 ∷ 302_000 ∷ [])
      refl (ground arith) (ground arith)

-- The screen shows 301 seconds; half of the time is crossed at 300.5 of them.
half_repeats_example : times half (run_ticks (clock 300_250) (300_600 ∷ 300_850 ∷ [])) ≡ 2
unfolding new_clock
half_repeats_example =
    half_repeats (clock 300_250) 300_600 300_850 refl refl (omega arith) (omega arith) (omega arith)
      (omega arith) refl refl
