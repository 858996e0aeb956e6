-- ===== src/Candidate/Countdown/Announce.antt =====
-- When a threshold is announced.
use assaybank.Prelude.{
  ℕ, ◌+◌, ◌*◌, ◌≤◌, ◌<◌, ◌≡◌, refl, inl, inr, Bool, true, false, not, ◌&&◌, List, [], ◌∷◌, ◌++◌,
  leb, if◌then◌else◌, arith, Bool-cases,
}
use assaybank.Candidate.Countdown.{
  remaining_ms, CountdownThreshold, half, ten_minutes, five_minutes, one_minute, twice_boundary,
  crosses, thresholds_crossed, CountdownClock, ceil_seconds, compute_snapshot, unchanged, update,
}

-- How often a threshold stands in a list of announcements.
abbrev same_threshold : CountdownThreshold → CountdownThreshold → Bool
same_threshold half half = true
same_threshold ten_minutes ten_minutes = true
same_threshold five_minutes five_minutes = true
same_threshold one_minute one_minute = true
same_threshold _ _ = false

abbrev pub times : CountdownThreshold → List CountdownThreshold → ℕ
times t [] = 0
times t (u ∷ us) = (if same_threshold t u then 1 else 0) + times t us

abbrev pub time_left : CountdownClock → ℕ → ℕ
time_left c now = remaining_ms c.deadline_at_ms c.sample now

times-thresholds_crossed :
    (t : CountdownThreshold) (previous current total : ℕ)
    → times t (thresholds_crossed previous current total)
      ≡ (if not (leb previous current) && crosses previous current total t then 1 else 0)
unfolding thresholds_crossed
times-thresholds_crossed half previous current total = ground arith
times-thresholds_crossed ten_minutes previous current total = ground arith
times-thresholds_crossed five_minutes previous current total = ground arith
times-thresholds_crossed one_minute previous current total = ground arith

pub times-append :
    (t : CountdownThreshold) (xs ys : List CountdownThreshold)
    → times t (xs ++ ys) ≡ times t xs + times t ys
times-append t [] ys = omega arith
times-append t (x ∷ xs) ys = omega (arith, times-append t xs ys)

-- The snapshot's seconds are those of its remaining time.
abbrev pub IsCoherent : CountdownClock → Type 0
IsCoherent c = c.snapshot.remaining_seconds ≡ ceil_seconds c.snapshot.remaining_ms

-- The readings of the monotonic source go up.
abbrev pub IsRising : ℕ → List ℕ → Type 0
IsRising now [] = Unit
IsRising now (m ∷ later) = (now ≤ m) × IsRising m later

-- An update leaves the deadline, the sample and the total.
pub update_keeps :
    (c : CountdownClock) (now : ℕ)
    → ((update c now).0.deadline_at_ms ≡ c.deadline_at_ms)
      × ((update c now).0.sample ≡ c.sample)
      × ((update c now).0.total_ms ≡ c.total_ms)
unfolding update
update_keeps c now = elim (Bool-cases (unchanged (compute_snapshot c now) c.snapshot)) [
  | inl old ↦ rw old (refl, refl, refl)
  | inr new ↦ rw new (refl, refl, refl)
]

pub update-Coherent : (c : CountdownClock) (now : ℕ) → IsCoherent c → IsCoherent (update c now).0
unfolding update
update-Coherent c now h = ground arith

-- The kept snapshot is at the threshold or below it.
abbrev pub IsBelow : CountdownThreshold → CountdownClock → Type 0
IsBelow t c = 2 * c.snapshot.remaining_ms ≤ twice_boundary t c.total_ms

pub times-update :
    (t : CountdownThreshold) (c : CountdownClock) (now : ℕ)
    → times t (update c now).1 ≡ (
        if not (leb c.snapshot.remaining_ms (time_left c now))
          && crosses c.snapshot.remaining_ms (time_left c now) c.total_ms t
        then 1
        else 0)
unfolding update
times-update t c now =
    let e = times-thresholds_crossed t c.snapshot.remaining_ms (time_left c now) c.total_ms in
    elim (Bool-cases (unchanged (compute_snapshot c now) c.snapshot)) [
      | inl old ↦ rw old e
      | inr new ↦ rw new e
    ]

pub times-update_above :
    (t : CountdownThreshold) (c : CountdownClock) (now : ℕ)
    → twice_boundary t c.total_ms < 2 * time_left c now
    → times t (update c now).1 ≡ 0
unfolding crosses
times-update_above t c now h = ground (arith, times-update t c now)

pub times-update_below :
    (t : CountdownThreshold) (c : CountdownClock) (now : ℕ)
    → IsBelow t c
    → times t (update c now).1 ≡ 0
unfolding crosses
times-update_below t c now h = ground (arith, times-update t c now)

pub times-update-le :
    (t : CountdownThreshold) (c : CountdownClock) (now : ℕ) → times t (update c now).1 ≤ 1
times-update-le t c now = ground (arith, times-update t c now)

-- Once the time left is at a threshold on a whole second, so is the snapshot that is kept.
pub update-IsBelow :
    (t : CountdownThreshold) (c : CountdownClock) (now k : ℕ)
    → twice_boundary t c.total_ms ≡ 2000 * k
    → IsCoherent c
    → 2 * time_left c now ≤ twice_boundary t c.total_ms
    → IsBelow t (update c now).0
unfolding update
update-IsBelow t c now k e h l = elim (Bool-cases (unchanged (compute_snapshot c now) c.snapshot)) [
  | inl old ↦ rw old (ground arith)
  | inr new ↦ rw new (ground arith)
]

pub time_left_mono :
    (c : CountdownClock) (now later : ℕ) → now ≤ later → time_left c later ≤ time_left c now
unfolding remaining_ms
time_left_mono c now later h = omega arith

pub time_left-update :
    (c : CountdownClock) (now m : ℕ) → time_left (update c now).0 m ≡ time_left c m
time_left-update c now m = let (d, s, _) = update_keeps c now in cc (d, s)

-- Within the second that is shown, under the same deadline and before it, an update changes nothing.
pub update_same :
    (c : CountdownClock) (now : ℕ)
    → c.snapshot.deadline_at_ms ≡ c.deadline_at_ms
    → c.snapshot.expired ≡ false
    → 0 < time_left c now
    → ceil_seconds (time_left c now) ≡ c.snapshot.remaining_seconds
    → (update c now).0 ≡ c
unfolding update
update_same c now d x left s = elim (Bool-cases (unchanged (compute_snapshot c now) c.snapshot)) [
  | inl old ↦ rw old
  | inr new ↦ absurd (ground arith)
]
