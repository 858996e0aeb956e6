-- ===== src/Api/Tests.antt =====
-- Tests of the credentials, and their theorems at concrete inputs.
mod Invitations
mod Requests
use assaybank.Prelude.{◌+◌, ◌<◌, ◌≡◌, refl, max, some, List, [], ◌∷◌, ok, arith}
use assaybank.Prelude.Int.{pos}
use assaybank.Prelude.Doubles.{exact, exact-IsRounding}
use assaybank.Prelude.Num.{nat}
use assaybank.Prelude.Text.{Text}
use assaybank.CoreDomain.Deadline.{compute_deadline, ratio, total_seconds}
use assaybank.Api.TokenLife.{mint_expires_at, token_dies_first}
use assaybank.Api.SingleUse.{Call, claimed, replayed, empty, claim}
use assaybank.Api.SingleUse as SingleUse
use assaybank.Api.SingleUse.Refines.{spec_run, run-spec_run}
use assaybank.Api.SingleUse.Once.{AllReplayed, claim_once}

abbrev ticket : Text
ticket = b't' ∷ []

-- The same ticket twice, and once more when its thirty seconds are over.
abbrev calls : List Call
calls =
    record { key = ticket; ttl = 30_000; now = 1_000 }
    ∷ record { key = ticket; ttl = 30_000; now = 12_000 }
    ∷ record { key = ticket; ttl = 30_000; now = 31_000 }
    ∷ []

run-spec_run_example : SingleUse.run empty calls ≡ spec_run (λ _. 0) calls
run-spec_run_example = run-spec_run calls (omega arith, (omega arith, (omega arith, tt)))

calls-run : SingleUse.run empty calls ≡ claimed ∷ replayed ∷ claimed ∷ []
unfolding SingleUse.run
calls-run = refl

abbrev first_call : Call
first_call = record { key = ticket; ttl = 30_000; now = 1_000 }

abbrev second_call : Call
second_call = record { key = ticket; ttl = 30_000; now = 12_000 }

first_claimed : (claim ticket 30_000 1_000 empty).0 ≡ claimed
unfolding claim
first_claimed = refl

claim_once_example :
    AllReplayed ticket
      (1_000 + max 1 30_000)
      (second_call ∷ [])
      (SingleUse.run (claim ticket 30_000 1_000 empty).1 (second_call ∷ []))
claim_once_example = claim_once first_call empty (second_call ∷ []) first_claimed (omega arith, tt)

-- Ninety minutes, with no extra time, begun ten minutes after the redemption.
plain_deadline :
    compute_deadline exact (some 600_000) (nat 5400) (ratio (pos 0) 0) ≡ ok (some 6_000_000)
unfolding compute_deadline total_seconds
plain_deadline = refl

-- Two hours with half as much again.
extended_deadline :
    compute_deadline exact (some 600_000) (nat 7200) (ratio (pos 50) 0) ≡ ok (some 11_400_000)
unfolding compute_deadline total_seconds
extended_deadline = refl

token_dies_first_example : mint_expires_at 0 7200 < 11_400_000
token_dies_first_example =
    token_dies_first exact exact-IsRounding 0 600_000 7200 50 0 50 11_400_000 (omega arith)
      (omega arith) (omega arith) extended_deadline
