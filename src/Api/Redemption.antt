-- ===== src/Api/Redemption.antt =====
-- apps/api/src/credentials/redemption.ts and redemption-postgres.ts: an invitation redeemed for an
-- attempt. The database is three lists of rows; the row lock makes each redemption one step. The
-- hash of a token (an HMAC) and the id that the INSERT returns are arguments; the signed token
-- itself, the metrics and the audit's `ip` are left out.
pub mod Laws
pub mod Seats
use assaybank.Prelude.{
  ℕ, suc, ◌+◌, Bool, false, not, ◌&&◌, ◌||◌, Option, none, some, List, [], ◌∷◌, Result, ok, err,
  length, ltb, leb, ◌==◌, if◌then◌else◌,
}
use assaybank.Prelude.Text.{Text, trim, eq_text}
use assaybank.Api.TokenLife.{mint_expires_at}

pub data RefusalReason : Type 0 where
  malformed no_such_invitation hash_mismatch not_yet_open expired assessment_not_published
        invitation_incomplete already_redeemed :
      RefusalReason

pub record AssessmentFacts : Type 0 where
  pub id : Text
  pub duration_seconds : ℕ
  pub status : Text
  pub version_no : ℕ

-- A row of `invitations`, joined with its assessment and its application's candidate.
pub record Invitation : Type 0 where
  pub invitation_id : Text
  pub org_id : Text
  pub token_hash : Text
  pub candidate_id : Option Text
  pub opens_at : Option ℕ
  pub expires_at : ℕ
  pub max_attempts : ℕ
  pub assessment : AssessmentFacts

pub record AttemptRow : Type 0 where
  pub attempt_id : Text
  pub org_id : Text
  pub invitation_id : Text
  pub candidate_id : Text
  pub assessment_id : Text
  pub assessment_version : ℕ
  pub created_at : ℕ

pub record AuditRow : Type 0 where
  pub attempt_id : Text
  pub invitation_id : Text
  pub sitting : ℕ
  pub max_attempts : ℕ
  pub at : ℕ

pub record Db : Type 0 where
  pub invitations : List Invitation
  pub attempts : List AttemptRow
  pub audit : List AuditRow

pub record Redemption : Type 0 where
  pub attempt_id : Text
  pub org_id : Text
  pub expires_at : ℕ
  pub sitting : ℕ
  pub assessment : AssessmentFacts

abbrev pub max_invitation_token_length : ℕ
max_invitation_token_length = 512

-- `"published"`
abbrev pub published : Text
published = b'p' ∷ b'u' ∷ b'b' ∷ b'l' ∷ b'i' ∷ b's' ∷ b'h' ∷ b'e' ∷ b'd' ∷ []

-- `SELECT org_id … WHERE token_hash = …`
unfoldable pub find_org : Text → List Invitation → Option Text
find_org hash [] = none
find_org hash (i ∷ rows) = if eq_text i.token_hash hash then some i.org_id else find_org hash rows

-- The row under the lock, as the organisation's policy lets it be seen.
unfoldable pub find_locked : Text → Text → List Invitation → Option Invitation
find_locked org hash [] = none
find_locked org hash (i ∷ rows) =
    if eq_text i.org_id org && eq_text i.token_hash hash then some i else find_locked org hash rows

-- `SELECT count(*) FROM attempts WHERE invitation_id = …`
unfoldable pub sittings_taken : Text → List AttemptRow → ℕ
sittings_taken id [] = 0
sittings_taken id (a ∷ rows) =
    (if eq_text a.invitation_id id then 1 else 0) + sittings_taken id rows

abbrev pub is_before : ℕ → Option ℕ → Bool
is_before now none = false
is_before now (some opens_at) = ltb now opens_at

-- The last two tests: there is a candidate, and an attempt is left.
unfoldable pub take_seat : Option Text → ℕ → ℕ → Result Text RefusalReason
take_seat none sittings max_attempts = err invitation_incomplete
take_seat (some candidate) sittings max_attempts =
    if leb max_attempts sittings then err already_redeemed else ok candidate

-- The tests on the locked invitation, in their order; the candidate is returned.
unfoldable pub policy : Text → Invitation → ℕ → ℕ → Result Text RefusalReason
unfolding take_seat
policy presented_hash i sittings now =
    if not (eq_text presented_hash i.token_hash)
    then err hash_mismatch
    else if is_before now i.opens_at
    then err not_yet_open
    else if leb i.expires_at now
    then err expired
    else if not (eq_text i.assessment.status published)
    then err assessment_not_published
    else take_seat i.candidate_id sittings i.max_attempts

-- The INSERT, the audit row and the token, for a candidate who is let in.
unfoldable pub admit : Invitation → Text → Text → ℕ → Db → Redemption × Db
unfolding sittings_taken
admit i candidate new_id now db =
    let sitting = suc (sittings_taken i.invitation_id db.attempts) in
    (
      record {
        attempt_id = new_id;
        org_id = i.org_id;
        expires_at = mint_expires_at now i.assessment.duration_seconds;
        sitting = sitting;
        assessment = i.assessment;
      },
      record db {
        attempts =
            record {
              attempt_id = new_id;
              org_id = i.org_id;
              invitation_id = i.invitation_id;
              candidate_id = candidate;
              assessment_id = i.assessment.id;
              assessment_version = i.assessment.version_no;
              created_at = now;
            }
            ∷ db.attempts;
        audit =
            record {
              attempt_id = new_id;
              invitation_id = i.invitation_id;
              sitting = sitting;
              max_attempts = i.max_attempts;
              at = now;
            }
            ∷ db.audit;
      },
    )

abbrev pub Outcome : Type 0
Outcome = Result Redemption RefusalReason

-- The end of the transaction: a refusal writes nothing.
unfoldable pub settle : Result Text RefusalReason → Invitation → Text → ℕ → Db → Outcome × Db
unfolding admit
settle (err reason) i new_id now db = (err reason, db)
settle (ok candidate) i new_id now db = let r = admit i candidate new_id now db in (ok r.0, r.1)

unfoldable pub in_transaction : Option Invitation → Text → Text → ℕ → Db → Outcome × Db
unfolding policy settle
in_transaction none presented_hash new_id now db = (err no_such_invitation, db)
in_transaction (some i) presented_hash new_id now db =
    settle (policy presented_hash i (sittings_taken i.invitation_id db.attempts) now) i new_id now
      db

unfoldable pub redeem_hash : Text → Text → ℕ → Db → Outcome × Db
unfolding in_transaction find_org find_locked
redeem_hash hash new_id now db = elim (find_org hash db.invitations) [
  | none ↦ (err no_such_invitation, db)
  | some org ↦ in_transaction (find_locked org hash db.invitations) hash new_id now db
]

unfoldable pub redeem : (Text → Text) → Text → Text → ℕ → Db → Outcome × Db
unfolding redeem_hash trim
redeem hash_token token new_id now db =
    let presented = trim token in
    if length presented == 0 || ltb max_invitation_token_length (length presented)
    then (err malformed, db)
    else redeem_hash (hash_token presented) new_id now db

pub record Request : Type 0 where
  pub token : Text
  pub new_id : Text
  pub now : ℕ

-- The database after a sequence of requests.
unfoldable pub run : (Text → Text) → List Request → Db → Db
unfolding redeem
run hash_token [] db = db
run hash_token (r ∷ requests) db =
    run hash_token requests (redeem hash_token r.token r.new_id r.now db).1
