-- ===== src/Worker/DeadLetter.antt =====
-- apps/worker/src/dlq.ts, with the budgets of queues.ts and the names of queue-names.ts there: what
-- becomes of a job whose attempt failed. The payload of a job is of any type, and instants are texts.
pub mod Alive
pub mod Reason
use assaybank.Prelude.{
  ℕ, suc, ◌+◌, ◌-◌, min, Bool, ◌||◌, Option, none, some, List, [], ◌∷◌, ◌++◌, length, take, leb,
  ltb, if◌then◌else◌,
}
use assaybank.Prelude.Int.{ℤ, pos}
use assaybank.Prelude.Text.{Text}

pub data QueueName : Type 0 where
  grading_run grading_submit webhooks_deliver notifications_email bank_jobs maintenance_cron :
      QueueName

-- The budget of a queue, from `QUEUE_MAX_ATTEMPTS`.
unfoldable pub resolve_attempts : QueueName → ℕ → ℕ
resolve_attempts grading_run max_attempts = min 2 max_attempts
resolve_attempts grading_submit max_attempts = max_attempts
resolve_attempts webhooks_deliver max_attempts = 8
resolve_attempts notifications_email max_attempts = max_attempts
resolve_attempts bank_jobs max_attempts = 2
resolve_attempts maintenance_cron max_attempts = 1

-- A counter is a whole number, or is not finite.
pub data Counter : Type 0 where
  count : ℤ → Counter
  not_finite : Counter

pub data DeadLetterReason : Type 0 where
  attempts_exhausted unrecoverable : DeadLetterReason

-- The name of the dead-letter queue is that of the queue with a suffix.
pub data DeadLetterDecision : Type 0 where
  retry : ℕ → ℕ → DeadLetterDecision
  dead_letter : DeadLetterReason → QueueName → DeadLetterDecision

-- `attemptsMade < 1` is that it is 0 here.
abbrev pub attempts_made : Counter → ℕ
attempts_made (count (pos n)) = n
attempts_made _ = 0

abbrev pub budget : Counter → ℕ
budget (count (pos (suc n))) = suc n
budget _ = 1

unfoldable pub dead_letter_decision : QueueName → Counter → Counter → Bool → DeadLetterDecision
dead_letter_decision queue made max_attempts is_unrecoverable =
    if is_unrecoverable
    then dead_letter unrecoverable queue
    else if ltb (attempts_made made) 1 || leb (budget max_attempts) (attempts_made made)
    then dead_letter attempts_exhausted queue
    else retry (attempts_made made + 1) (budget max_attempts - attempts_made made)

-- What was thrown: an error with its name and message, a text, or something else.
pub data Thrown : Type 0 where
  error : Text → Text → Thrown
  thrown_text : Text → Thrown
  other : Thrown

abbrev pub max_failed_reason_chars : ℕ
max_failed_reason_chars = 512

-- `non-error thrown`
abbrev pub non_error : Text
non_error =
    b'n' ∷ b'o' ∷ b'n' ∷ b'-' ∷ b'e' ∷ b'r' ∷ b'r' ∷ b'o' ∷ b'r' ∷ b' ' ∷ b't' ∷ b'h' ∷ b'r' ∷ b'o'
    ∷ b'w' ∷ b'n' ∷ []

-- The ellipsis and `[truncated]`.
abbrev pub truncation_mark : Text
truncation_mark =
    0x2026 ∷ b'[' ∷ b't' ∷ b'r' ∷ b'u' ∷ b'n' ∷ b'c' ∷ b'a' ∷ b't' ∷ b'e' ∷ b'd' ∷ b']' ∷ []

unfoldable pub raw_reason : Thrown → Text
raw_reason (error name message) = name ++ (b':' ∷ b' ' ∷ message)
raw_reason (thrown_text t) = t
raw_reason other = non_error

unfoldable pub truncate_reason : Thrown → Text
unfolding raw_reason
truncate_reason thrown =
    let raw = raw_reason thrown in
    if leb (length raw) max_failed_reason_chars
    then raw
    else take max_failed_reason_chars raw ++ truncation_mark

pub record FailedJobFacts (Payload : Type 0) : Type 0 where
  pub id : Option Text
  pub name : Text
  pub payload : Payload
  pub made : Counter

pub record DeadLetterEnvelope (Payload : Type 0) : Type 0 where
  pub queue : QueueName
  pub job_id : Text
  pub job_name : Text
  pub payload : Option Payload
  pub made : Counter
  pub reason : DeadLetterReason
  pub failure_class : Text
  pub failed_reason : Text
  pub failed_at : Text
  pub trace_id : Option Text
  pub consequence : Text

-- `unknown`
abbrev pub unknown : Text
unknown = b'u' ∷ b'n' ∷ b'k' ∷ b'n' ∷ b'o' ∷ b'w' ∷ b'n' ∷ []

pub record LostLetter : Type 0 where
  pub queue : QueueName
  pub job_name : Text
  pub job_id : Text
  pub consequence : Text

-- What the failure is called with; `sink_accepts` is whether the sink's `send` resolves, and `failure_class` is what `classifyFailure` makes of the error.
pub record JobFailureInput (Payload : Type 0) : Type 0 where
  pub queue : QueueName
  pub max_attempts : Counter
  pub consequence : Text
  pub job : Option (FailedJobFacts Payload)
  pub thrown : Thrown
  pub is_unrecoverable : Bool
  pub failure_class : Text
  pub trace_id : Option Text
  pub sink_accepts : Bool
  pub now : Text

module _ {Payload : Type 0} where
  abbrev pub id_or_unknown : Option (FailedJobFacts Payload) → Text → Text
  id_or_unknown none now = unknown ++ (b':' ∷ now)
  id_or_unknown (some job) now = elim job.id [ none ↦ unknown ++ (b':' ∷ now) | some id ↦ id ]

  abbrev pub name_or_unknown : Option (FailedJobFacts Payload) → Text
  name_or_unknown none = unknown
  name_or_unknown (some job) = job.name

  abbrev pub payload_of : Option (FailedJobFacts Payload) → Option Payload
  payload_of none = none
  payload_of (some job) = some job.payload

  -- The counter that the decision sees, which is NaN without a job, and the one in the envelope.
  abbrev pub made_or_nan : Option (FailedJobFacts Payload) → Counter
  made_or_nan none = not_finite
  made_or_nan (some job) = job.made

  abbrev pub made_or_zero : Option (FailedJobFacts Payload) → Counter
  made_or_zero none = count (pos 0)
  made_or_zero (some job) = job.made

  unfoldable pub dead_letter_envelope :
      JobFailureInput Payload → DeadLetterReason → DeadLetterEnvelope Payload
  unfolding truncate_reason
  dead_letter_envelope input reason = record {
    queue = input.queue;
    job_id = id_or_unknown input.job input.now;
    job_name = name_or_unknown input.job;
    payload = payload_of input.job;
    made = made_or_zero input.job;
    reason = reason;
    failure_class = input.failure_class;
    failed_reason = truncate_reason input.thrown;
    failed_at = input.now;
    trace_id = input.trace_id;
    consequence = input.consequence;
  }

  -- What the fatal line of the log says of a letter that the sink did not take.
  unfoldable pub lost_letter : DeadLetterEnvelope Payload → LostLetter
  lost_letter envelope = record {
    queue = envelope.queue;
    job_name = envelope.job_name;
    job_id = envelope.job_id;
    consequence = envelope.consequence;
  }

  -- `sink.send`, and what is done when it rejects: the letters that are stored and the lines logged.
  unfoldable pub send :
      Bool → DeadLetterEnvelope Payload → List (DeadLetterEnvelope Payload) × List LostLetter
  unfolding lost_letter
  send accepts envelope = if accepts then (envelope ∷ [], []) else ([], lost_letter envelope ∷ [])

  unfoldable pub act_on :
      JobFailureInput Payload
      → DeadLetterDecision
      → List (DeadLetterEnvelope Payload) × List LostLetter
  unfolding dead_letter_envelope send
  act_on input (retry next remaining) = ([], [])
  act_on input (dead_letter reason queue) =
      send input.sink_accepts (dead_letter_envelope input reason)

  unfoldable pub handle_job_failure :
      JobFailureInput Payload
      → DeadLetterDecision × (List (DeadLetterEnvelope Payload) × List LostLetter)
  unfolding dead_letter_decision act_on
  handle_job_failure input =
      let decision =
        dead_letter_decision input.queue (made_or_nan input.job) input.max_attempts
          input.is_unrecoverable in
      (decision, act_on input decision)

  -- The listener of the worker's `failed` events, which ignores the decision.
  unfoldable pub on_failed :
      List (JobFailureInput Payload) → List (DeadLetterEnvelope Payload) × List LostLetter
  unfolding handle_job_failure
  on_failed [] = ([], [])
  on_failed (input ∷ failures) =
      let handled = (handle_job_failure input).1 in
      let rest = on_failed failures in (handled.0 ++ rest.0, handled.1 ++ rest.1)
