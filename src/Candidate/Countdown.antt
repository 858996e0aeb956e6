-- ===== src/Candidate/Countdown.antt =====
-- apps/candidate/src/time/countdown.ts: the countdown to the server's deadline. Times are whole
-- milliseconds and not negative, and the monotonic reading is an argument of each update. The
-- announcement callback is present; an announcement is its threshold. Listeners are left out.
pub mod Display
pub mod Announce
pub mod Once
use assaybank.Prelude.{
  ℕ, ◌+◌, ◌-◌, ◌*◌, ◌/◌, Bool, true, false, not, ◌&&◌, List, [], ◌∷◌, ◌++◌, keep, ltb, leb, ◌==◌,
  if◌then◌else◌,
}

pub record ServerTimeSample : Type 0 where
  pub server_time_ms : ℕ
  pub received_at_ms : ℕ

-- The deadline less the estimate of the server's time, but no less than 0.
unfoldable pub remaining_ms : ℕ → ServerTimeSample → ℕ → ℕ
remaining_ms deadline_at_ms sample monotonic_now_ms =
    deadline_at_ms + sample.received_at_ms - (sample.server_time_ms + monotonic_now_ms)

pub data CountdownThreshold : Type 0 where
  half ten_minutes five_minutes one_minute : CountdownThreshold

abbrev pub countdown_thresholds : List CountdownThreshold
countdown_thresholds = half ∷ ten_minutes ∷ five_minutes ∷ one_minute ∷ []

abbrev pub one_minute_ms : ℕ
one_minute_ms = 60_000

-- Twice `thresholdBoundaryMs`, since half of a total need not be whole.
unfoldable pub twice_boundary : CountdownThreshold → ℕ → ℕ
twice_boundary half total_ms = total_ms
twice_boundary ten_minutes total_ms = 2 * (10 * one_minute_ms)
twice_boundary five_minutes total_ms = 2 * (5 * one_minute_ms)
twice_boundary one_minute total_ms = 2 * one_minute_ms

-- `previousRemainingMs > boundary && currentRemainingMs <= boundary`
unfoldable pub crosses : ℕ → ℕ → ℕ → CountdownThreshold → Bool
unfolding twice_boundary
crosses previous current total_ms threshold =
    ltb (twice_boundary threshold total_ms) (2 * previous)
    && leb (2 * current) (twice_boundary threshold total_ms)

unfoldable pub thresholds_crossed : ℕ → ℕ → ℕ → List CountdownThreshold
unfolding crosses
thresholds_crossed previous current total_ms =
    if leb previous current
    then []
    else keep (crosses previous current total_ms) countdown_thresholds

pub record CountdownSnapshot : Type 0 where
  pub remaining_ms : ℕ
  pub remaining_seconds : ℕ
  pub expired : Bool
  pub deadline_at_ms : ℕ
  pub total_ms : ℕ

pub record CountdownClock : Type 0 where
  pub total_ms : ℕ
  pub deadline_at_ms : ℕ
  pub sample : ServerTimeSample
  pub snapshot : CountdownSnapshot

-- `Math.ceil(remaining / 1000)`
abbrev pub ceil_seconds : ℕ → ℕ
ceil_seconds ms = (ms + 999) / 1000

unfoldable pub make_snapshot : ℕ → ℕ → ServerTimeSample → ℕ → CountdownSnapshot
unfolding remaining_ms
make_snapshot total_ms deadline_at_ms sample now =
    let remaining = remaining_ms deadline_at_ms sample now in
    record {
      remaining_ms = remaining;
      remaining_seconds = ceil_seconds remaining;
      expired = leb remaining 0;
      deadline_at_ms = deadline_at_ms;
      total_ms = total_ms;
    }

unfoldable pub compute_snapshot : CountdownClock → ℕ → CountdownSnapshot
unfolding make_snapshot
compute_snapshot c now = make_snapshot c.total_ms c.deadline_at_ms c.sample now

-- The constructor. A total below 0 counts as 0, as `-` has it.
unfoldable pub new_clock : ℕ → ℕ → ServerTimeSample → ℕ → CountdownClock
unfolding make_snapshot
new_clock deadline_at_ms started_at_ms sample now = record {
  total_ms = deadline_at_ms - started_at_ms;
  deadline_at_ms = deadline_at_ms;
  sample = sample;
  snapshot = make_snapshot (deadline_at_ms - started_at_ms) deadline_at_ms sample now;
}

abbrev same_bool : Bool → Bool → Bool
same_bool true b = b
same_bool false b = not b

-- Nothing that is rendered has changed.
unfoldable pub unchanged : CountdownSnapshot → CountdownSnapshot → Bool
unchanged next previous =
    next.remaining_seconds == previous.remaining_seconds
    && next.deadline_at_ms == previous.deadline_at_ms
    && same_bool next.expired previous.expired

-- `#update`: the clock after it, and what was announced.
unfoldable pub update : CountdownClock → ℕ → CountdownClock × List CountdownThreshold
unfolding compute_snapshot thresholds_crossed unchanged
update c now =
    let next = compute_snapshot c now in
    let announced = thresholds_crossed c.snapshot.remaining_ms next.remaining_ms c.total_ms in
    if unchanged next c.snapshot then (c, announced) else (record c { snapshot = next }, announced)

-- The calls of the class, each with the monotonic reading that it takes.
pub data Call : Type 0 where
  tick : Call
  reconcile : ServerTimeSample → Call
  apply_server_deadline : ℕ → Call

unfoldable pub step : CountdownClock → Call → ℕ → CountdownClock × List CountdownThreshold
unfolding update
step c tick now = update c now
step c (reconcile sample) now = update (record c { sample = sample }) now
step c (apply_server_deadline deadline_at_ms) now =
    update (record c { deadline_at_ms = deadline_at_ms }) now

unfoldable pub run_ticks : CountdownClock → List ℕ → List CountdownThreshold
unfolding update
run_ticks c [] = []
run_ticks c (now ∷ later) = let r = update c now in r.1 ++ run_ticks r.0 later
