-- ===== src/Worker/DeadLetter/Alive.antt =====
-- The failures of a job, up to its last: which of them leaves a dead letter.
use assaybank.Prelude.{ℕ, ◌≤◌, ◌<◌, ◌≡◌, true, false}
use assaybank.Prelude.Int.{pos}
use assaybank.Worker.DeadLetter.{
  count, DeadLetterReason, attempts_exhausted, unrecoverable, JobFailureInput, made_or_nan,
}

module _ {Payload : Type 0} where
  -- A failure that an attempt is left after, of a budget of `b`.
  pub record IsRetried (b : ℕ) (input : JobFailureInput Payload) : Type 0 where
    pub attempts : ℕ
    pub has_attempts : made_or_nan input.job ≡ count (pos attempts)
    pub begun : 1 ≤ attempts
    pub left : attempts < b
    pub allowed : input.max_attempts ≡ count (pos b)
    pub recoverable : input.is_unrecoverable ≡ false

  -- The budget of `b` is spent.
  pub record IsSpent (b : ℕ) (input : JobFailureInput Payload) : Type 0 where
    pub attempts : ℕ
    pub has_attempts : made_or_nan input.job ≡ count (pos attempts)
    pub spent : b ≤ attempts
    pub allowed : input.max_attempts ≡ count (pos b)
    pub recoverable : input.is_unrecoverable ≡ false

  -- The failure is unrecoverable, or spends the budget.
  abbrev pub IsLast : ℕ → JobFailureInput Payload → DeadLetterReason → Type 0
  IsLast b input unrecoverable = input.is_unrecoverable ≡ true
  IsLast b input attempts_exhausted = IsSpent b input
