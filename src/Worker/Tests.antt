-- ===== src/Worker/Tests.antt =====
-- Tests of the worker, and its theorems at concrete inputs.
mod DeadLetters
use assaybank.Prelude.{◌≡◌, refl, some, List, [], ◌∷◌, ok, arith}
use assaybank.Prelude.Text.{Text, is_space, eq_text}
use assaybank.Worker.JobId.{to_job_id, assert_business_key, segments, is_missing, replace_all}
use assaybank.Worker.JobId.Laws.{IsColonFree, to_job_id-injective}
use assaybank.Worker.Idempotent.{
  Codec, Action, calls, happens, got, fn_resolves, fn_throws, stored, settles, initial, run,
}
use assaybank.Worker.Idempotent.Once.{HappenedOnce, run-HappenedOnce}

-- "g:1"
abbrev job_key : Text
job_key = b'g' ∷ b':' ∷ b'1' ∷ []

-- "g%3A1"
abbrev job_id : Text
job_id = b'g' ∷ b'%' ∷ b'3' ∷ b'A' ∷ b'1' ∷ []

encoded : to_job_id job_key ≡ ok job_id
unfolding to_job_id is_space segments is_missing eq_text replace_all
encoded = refl

to_job_id-injective_example : IsColonFree job_id × (job_key ≡ job_key)
to_job_id-injective_example = to_job_id-injective job_key job_key job_id encoded encoded

-- Results that are texts, recorded as they are.
abbrev text_codec : Codec Text
text_codec = record { encode = λ v. v; revive = λ raw. some raw }

-- "assaybank:idem:g:1"
abbrev stored_key : Text
stored_key =
    b'a' ∷ b's' ∷ b's' ∷ b'a' ∷ b'y' ∷ b'b' ∷ b'a' ∷ b'n' ∷ b'k' ∷ b':' ∷ b'i' ∷ b'd' ∷ b'e' ∷ b'm'
    ∷ b':' ∷ job_key

-- A run that fails, one that a second call joins, and a call that finds the record.
abbrev actions : List (Action Text)
actions =
    calls job_key 1_700_000_000_000
    ∷ happens stored_key got
    ∷ happens stored_key fn_throws
    ∷ happens stored_key settles
    ∷ calls job_key 1_700_000_005_000
    ∷ happens stored_key got
    ∷ calls job_key 1_700_000_006_000
    ∷ happens stored_key (fn_resolves 1_700_000_007_000 (b'r' ∷ []))
    ∷ happens stored_key stored
    ∷ happens stored_key settles
    ∷ calls job_key 1_700_086_406_999
    ∷ happens stored_key got
    ∷ happens stored_key settles
    ∷ []

run-HappenedOnce_example : HappenedOnce (run text_codec 86_400 actions initial stored_key)
run-HappenedOnce_example =
    run-HappenedOnce text_codec 1_700_000_007_000 86_400 actions (λ v. refl) (ground arith)
      stored_key

three_delivered :
    (run text_codec 86_400 actions initial stored_key).delivered
    ≡ (b'r' ∷ []) ∷ (b'r' ∷ []) ∷ (b'r' ∷ []) ∷ []
unfolding run is_space segments is_missing eq_text assert_business_key
three_delivered = refl
