-- ===== src/CoreDomain/Deadline.antt =====
-- packages/core-domain/src/deadline.ts. A `Date` is its time in milliseconds since the epoch, at
-- most 8,640,000,000,000,000, or invalid; dates before the epoch are left out. A percentage is a
-- ratio of whole numbers, as every double is; `round` is the rounding of an exact result to a double,
-- which the arithmetic with a percentage applies to each operation. The injected clock is the date
-- that it returns.
pub mod Laws
use assaybank.Prelude.{
  ℕ, suc, ◌+◌, ◌-◌, ◌*◌, ◌/◌, Bool, Option, none, some, Result, ok, err, ◌>>=◌, ltb, leb, ◌==◌,
  if◌then◌else◌,
}
use assaybank.Prelude.Int.{ℤ, pos, negsuc}
use assaybank.Prelude.Doubles.{Ratio}
use assaybank.Prelude.Num.{Num, whole, fraction, nonfinite}

pub data RangeError : Type 0 where
  invalid_date bad_duration duration_too_long bad_extra_time extra_time_too_large : RangeError

abbrev pub Date : Type 0
Date = Option ℕ

abbrev pub max_time : ℕ
max_time = 8_640_000_000_000_000

-- `new Date(ms)`.
abbrev pub date_of : ℕ → Date
date_of ms = if leb ms max_time then some ms else none

-- `ratio p q` is p / (q + 1).
pub data Percent : Type 0 where
  ratio : ℤ → ℕ → Percent
  nonfinite_percent : Percent

abbrev pub max_duration_seconds : ℕ
max_duration_seconds = 7 * 24 * 60 * 60

abbrev pub max_extra_time_pct : ℕ
max_extra_time_pct = 1000

unfoldable pub assert_valid_date : Date → Result ℕ RangeError
assert_valid_date none = err invalid_date
assert_valid_date (some ms) = ok ms

-- The guards on `durationSeconds`.
unfoldable pub check_duration : Num → Result ℕ RangeError
check_duration (whole (pos n)) =
    if n == 0
    then err bad_duration
    else if ltb max_duration_seconds n
    then err duration_too_long
    else ok n
check_duration (whole (negsuc n)) = err bad_duration
check_duration (fraction z) = err bad_duration
check_duration nonfinite = err bad_duration

-- The guards on `extraTimePct`; the numerator is returned.
unfoldable pub check_extra_time : Percent → Result (ℕ × ℕ) RangeError
check_extra_time (ratio (pos p) q) =
    if ltb (max_extra_time_pct * suc q) p then err extra_time_too_large else ok (p, suc q)
check_extra_time (ratio (negsuc p) q) = err bad_extra_time
check_extra_time nonfinite_percent = err bad_extra_time

-- `Math.ceil(a / b)`.
unfoldable pub ceil_div : ℕ → ℕ → ℕ
ceil_div a b = (a + b - 1) / b

-- `100 + extraTimePct` at the percentage p / q, the product with the duration, and the quotient.
abbrev pub factor : (Ratio → Ratio) → ℕ → ℕ → Ratio
factor round p q = round (record { num = 100 * q + p; den = q })

abbrev pub product : (Ratio → Ratio) → ℕ → Ratio → Ratio
product round duration f = round (record { num = duration * f.num; den = f.den })

abbrev pub quotient : (Ratio → Ratio) → Ratio → Ratio
quotient round r = round (record { num = r.num; den = 100 * r.den })

-- `Math.ceil((durationSeconds * (100 + extraTimePct)) / 100)`
unfoldable pub total_seconds : (Ratio → Ratio) → ℕ → ℕ → ℕ → ℕ
unfolding ceil_div
total_seconds round duration p q =
    let total = quotient round (product round duration (factor round p q)) in
    ceil_div total.num total.den

unfoldable pub compute_deadline : (Ratio → Ratio) → Date → Num → Percent → Result Date RangeError
unfolding assert_valid_date check_duration check_extra_time
compute_deadline round started_at duration_seconds extra_time_pct = do
  started ← assert_valid_date started_at
  duration ← check_duration duration_seconds
  extra ← check_extra_time extra_time_pct
  ok (date_of (started + total_seconds round duration extra.0 extra.1 * 1000))

unfoldable pub is_past_deadline : Date → Date → Result Bool RangeError
unfolding assert_valid_date
is_past_deadline deadline_at clock_now = do
  deadline ← assert_valid_date deadline_at
  now ← assert_valid_date clock_now
  ok (ltb deadline now)

-- `Math.max(0, …)` is 0 once the difference is negative.
unfoldable pub seconds_remaining : Date → Date → Result ℕ RangeError
unfolding assert_valid_date ceil_div
seconds_remaining deadline_at clock_now = do
  deadline ← assert_valid_date deadline_at
  now ← assert_valid_date clock_now
  ok (if ltb now deadline then ceil_div (deadline - now) 1000 else 0)
