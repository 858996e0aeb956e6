-- ===== src/Candidate/Countdown/Once.antt =====
-- How often a threshold is announced while the clock only ticks.
use assaybank.Prelude.{
  ℕ, ◌*◌, ◌≤◌, ◌<◌, ◌≡◌, refl, inl, inr, false, List, [], ◌∷◌, ◌++◌, leb, arith, Bool-cases,
}
use assaybank.Candidate.Countdown.{
  CountdownThreshold, half, twice_boundary, crosses, CountdownClock, ceil_seconds, update,
  run_ticks,
}
use assaybank.Candidate.Countdown.Announce.{
  times, times-append, time_left, IsCoherent, IsRising, IsBelow, update_keeps, update-Coherent,
  times-update, times-update_above, times-update_below, times-update-le, update-IsBelow,
  time_left_mono, time_left-update, update_same,
}

times-run_ticks_below :
    (t : CountdownThreshold) (c : CountdownClock) (now k : ℕ) (ticks : List ℕ)
    → twice_boundary t c.total_ms ≡ 2000 * k
    → IsCoherent c
    → IsBelow t c
    → 2 * time_left c now ≤ twice_boundary t c.total_ms
    → IsRising now ticks
    → times t (run_ticks c ticks) ≡ 0
unfolding run_ticks
times-run_ticks_below t c now k [] e h b l r = refl
times-run_ticks_below t c now k (m ∷ later) e h b l (first, rest) =
    let below : 2 * time_left c m ≤ twice_boundary t c.total_ms =
      omega (arith, time_left_mono c now m first) in
    let (d, s, total) = update_keeps c m in
    let next =
      times-run_ticks_below t (update c m).0 m k later (rw total e) (update-Coherent c m h)
        (update-IsBelow t c m k e h below) (rw (total, time_left-update c m m) below) rest in
    omega (
      arith,
      times-append t (update c m).1 (run_ticks (update c m).0 later),
      times-update_below t c m b,
      next,
    )

-- A threshold that falls on a whole second (each but the half does, and the half does if the total is
-- an even number of seconds) is announced at most once, however often the clock ticks, if the
-- monotonic reading does not go back and the snapshot shows the whole seconds of its time.
pub times-run_ticks-le :
    (t : CountdownThreshold) (c : CountdownClock) (now k : ℕ) (ticks : List ℕ)
    → twice_boundary t c.total_ms ≡ 2000 * k
    → IsCoherent c
    → IsRising now ticks
    → times t (run_ticks c ticks) ≤ 1
unfolding run_ticks
times-run_ticks-le t c now k [] e h r = omega arith
times-run_ticks-le t c now k (m ∷ later) e h (first, rest) =
    let (d, s, total) = update_keeps c m in
    let split = times-append t (update c m).1 (run_ticks (update c m).0 later) in
    elim (Bool-cases (leb (2 * time_left c m) (twice_boundary t c.total_ms))) [
      | inl below ↦
          let there : 2 * time_left c m ≤ twice_boundary t c.total_ms = ground arith in
          let next =
            times-run_ticks_below t (update c m).0 m k later (rw total e) (update-Coherent c m h)
              (update-IsBelow t c m k e h there) (rw (total, time_left-update c m m) there) rest in
          omega (arith, split, times-update-le t c m, next)
      | inr above ↦
          let there : twice_boundary t c.total_ms < 2 * time_left c m = ground arith in
          let next =
            times-run_ticks-le t (update c m).0 m k later (rw total e) (update-Coherent c m h)
              rest in
          omega (arith, split, times-update_above t c m there, next)
    ]

-- A tick that crosses half the time within the second that is shown announces it, and changes nothing.
half_again :
    (c : CountdownClock) (now : ℕ)
    → c.snapshot.deadline_at_ms ≡ c.deadline_at_ms
    → c.snapshot.expired ≡ false
    → c.total_ms < 2 * c.snapshot.remaining_ms
    → 2 * time_left c now ≤ c.total_ms
    → 0 < time_left c now
    → ceil_seconds (time_left c now) ≡ c.snapshot.remaining_seconds
    → (times half (update c now).1 ≡ 1) × ((update c now).0 ≡ c)
unfolding crosses twice_boundary
half_again c now d x above crossed left s =
    (ground (arith, times-update half c now), update_same c now d x left s)

-- An announcement is repeated: if half the time is crossed within a second, so that the kept snapshot
-- stays above it, the next tick within that second announces it again.
pub half_repeats :
    (c : CountdownClock) (now later : ℕ)
    → c.snapshot.deadline_at_ms ≡ c.deadline_at_ms
    → c.snapshot.expired ≡ false
    → c.total_ms < 2 * c.snapshot.remaining_ms
    → 2 * time_left c now ≤ c.total_ms
    → now ≤ later
    → 0 < time_left c later
    → ceil_seconds (time_left c now) ≡ c.snapshot.remaining_seconds
    → ceil_seconds (time_left c later) ≡ c.snapshot.remaining_seconds
    → times half (run_ticks c (now ∷ later ∷ [])) ≡ 2
unfolding run_ticks
half_repeats c now later d x above crossed order left s s' =
    let down = time_left_mono c now later order in
    let (one, same) = half_again c now d x above crossed (omega (arith, down)) s in
    let (two, _) = half_again c later d x above (omega (arith, down)) left s' in
    rw same (
      omega (
        arith,
        times-append half (update c now).1 ((update c later).1 ++ []),
        times-append half (update c later).1 [],
        one,
        two,
      ))
