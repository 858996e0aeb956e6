-- ===== src/Api/TokenLife.antt =====
-- apps/api/src/credentials/attempt-token.ts: how long a candidate's credential lives, against the
-- deadline of the attempt that it is for.
use assaybank.Prelude.{ℕ, suc, ◌+◌, ◌*◌, ◌≤◌, ◌<◌, ◌≡◌, some, ok, min, arith}
use assaybank.Prelude.Int.{pos}
use assaybank.Prelude.Doubles.{Ratio, IsRounding}
use assaybank.Prelude.Num.{nat}
use assaybank.CoreDomain.Deadline.{ratio, compute_deadline}
use assaybank.CoreDomain.Deadline.Laws.{compute_deadline_inv, total_seconds_bounds}

abbrev pub start_window_seconds : ℕ
start_window_seconds = 30 * 60

abbrev pub tail_seconds : ℕ
tail_seconds = 15 * 60

abbrev pub max_life_seconds : ℕ
max_life_seconds = 12 * 60 * 60

-- The duration is a natural number, as the schema has it.
unfoldable pub attempt_token_life_seconds : ℕ → ℕ
attempt_token_life_seconds duration_seconds =
    min (start_window_seconds + duration_seconds + tail_seconds) max_life_seconds

-- `expiresAt` of `mintAttemptToken`, in milliseconds.
unfoldable pub mint_expires_at : ℕ → ℕ → ℕ
unfolding attempt_token_life_seconds
mint_expires_at now duration_seconds = now + attempt_token_life_seconds duration_seconds * 1000

module _ (round : Ratio → Ratio) (h : IsRounding round) where
  -- The token of an attempt without extra time outlives the deadline by the whole tail, if the
  -- attempt begins within the window for it and its windows fit into twelve hours.
  pub token_covers :
      (now started duration deadline : ℕ)
      → start_window_seconds + duration + tail_seconds ≤ max_life_seconds
      → started ≤ now + start_window_seconds * 1000
      → compute_deadline round (some started) (nat duration) (ratio (pos 0) 0) ≡ ok (some deadline)
      → deadline + tail_seconds * 1000 ≤ mint_expires_at now duration
  unfolding mint_expires_at
  token_covers now started duration deadline fits soon e =
      let (at, some_time, long, valid) =
        compute_deadline_inv round started duration 0 0 deadline e in
      let (covers, least) =
        total_seconds_bounds round h duration 0 0 0 0 some_time long (omega arith) (omega arith)
          (omega arith) in
      omega (arith, at, least)

  -- The life does not count an accommodation: once the extra time of a whole percentage, which may be
  -- less than the one that is recorded, is more than both windows, the token is dead before the
  -- deadline of the attempt that it is for, however soon it begins. The rounding of doubles is as
  -- IEEE 754 has it.
  pub token_dies_first :
      (now started duration p q percent deadline : ℕ)
      → now ≤ started
      → percent * suc q ≤ p
      → (start_window_seconds + tail_seconds) * 100 < duration * percent
      → compute_deadline round (some started) (nat duration) (ratio (pos p) q) ≡ ok (some deadline)
      → mint_expires_at now duration < deadline
  unfolding mint_expires_at
  token_dies_first now started duration p q percent deadline order whole long e =
      let (at, some_time, short, valid) =
        compute_deadline_inv round started duration p q deadline e in
      let (covers, least) =
        total_seconds_bounds round h duration p q percent 1000 some_time short whole valid
          (omega arith) in
      omega (arith, at, covers, long)
