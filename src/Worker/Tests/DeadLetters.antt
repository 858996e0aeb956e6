-- ===== src/Worker/Tests/DeadLetters.antt =====
-- A job that fails three times, and whose dead letter the sink does not take.
use assaybank.Prelude.{ℕ, Bool, true, false, some, none, List, [], ◌∷◌}
use assaybank.Prelude.Int.{pos}
use assaybank.Worker.DeadLetter.{grading_submit, count, other, FailedJobFacts, JobFailureInput}

abbrev job : ℕ → FailedJobFacts ℕ
job made = record { id = some (b'j' ∷ []); name = b'g' ∷ []; payload = 42; made = count (pos made) }

abbrev failure : Bool → ℕ → JobFailureInput ℕ
failure accepts made = record {
  queue = grading_submit;
  max_attempts = count (pos 3);
  consequence = b'w' ∷ [];
  job = some (job made);
  thrown = other;
  is_unrecoverable = false;
  failure_class = b'd' ∷ [];
  trace_id = none;
  sink_accepts = accepts;
  now = b't' ∷ [];
}

abbrev earlier : List (JobFailureInput ℕ)
earlier = failure true 1 ∷ failure true 2 ∷ []
