-- ===== src/Api/Tests/Invitations.antt =====
-- The redemption of an invitation at concrete inputs.
use assaybank.Prelude.{ℕ, ◌≡◌, sym, ◌∙◌, refl, inl, inr, some, List, [], ◌∷◌, ok, err, arith}
use assaybank.Prelude.Text.{Text, eq_text}
use assaybank.Api.TokenLife.{mint_expires_at}
use assaybank.Api.Redemption.{
  already_redeemed, Invitation, Db, published, Request, Redemption, redeem, run, sittings_taken,
}
use assaybank.Api.Redemption.Laws.{Admits, redeem_ok}
use assaybank.Api.Redemption.Seats.{IsKeyed, IsWithin, run-IsWithin}

abbrev id : ℕ → Text
id c = c ∷ []

-- For the examples a token is its own hash.
abbrev hash_token : Text → Text
hash_token token = token

-- An invitation to one attempt.
abbrev invitation : Invitation
invitation = record {
  invitation_id = id b'i';
  org_id = id b'o';
  token_hash = id b't';
  candidate_id = some (id b'c');
  opens_at = some 10;
  expires_at = 1_000;
  max_attempts = 1;
  assessment = record {
    id = id b'a';
    duration_seconds = 3_600;
    status = published;
    version_no = 3;
  };
}

abbrev db : Db
db = record { invitations = invitation ∷ []; attempts = []; audit = [] }

abbrev sat : Redemption × Db
sat = (
  record {
    attempt_id = id b'x';
    org_id = id b'o';
    expires_at = 6_300_020;
    sitting = 1;
    assessment = invitation.assessment;
  },
  record db {
    attempts =
        record {
          attempt_id = id b'x';
          org_id = id b'o';
          invitation_id = id b'i';
          candidate_id = id b'c';
          assessment_id = id b'a';
          assessment_version = 3;
          created_at = 20;
        }
        ∷ [];
    audit =
        record {
          attempt_id = id b'x';
          invitation_id = id b'i';
          sitting = 1;
          max_attempts = 1;
          at = 20;
        }
        ∷ [];
  },
)

redeemed : redeem hash_token (b' ' ∷ b't' ∷ []) (id b'x') 20 db ≡ (ok sat.0, sat.1)
unfolding redeem eq_text mint_expires_at
redeemed = refl

redeem_ok_example : Admits hash_token (b' ' ∷ b't' ∷ []) (id b'x') 20 db sat.0 sat.1
redeem_ok_example = redeem_ok hash_token (b' ' ∷ b't' ∷ []) (id b'x') 20 db sat.1 sat.0 redeemed

refused : redeem hash_token (id b't') (id b'y') 21 sat.1 ≡ (err already_redeemed, sat.1)
unfolding redeem eq_text
refused = refl

-- The token presented twice.
abbrev requests : List Request
requests =
    record { token = id b't'; new_id = id b'x'; now = 20 }
    ∷ record { token = id b't'; new_id = id b'y'; now = 21 }
    ∷ []

db-IsKeyed : IsKeyed db.invitations
db-IsKeyed i j (inl p) (inl q) e = sym p ∙ q
db-IsKeyed i j (inl p) (inr k) e = elim k [ ]
db-IsKeyed i j (inr h) k e = elim h [ ]

db-IsWithin : IsWithin db
unfolding sittings_taken
db-IsWithin i h = omega arith

run-IsWithin_example : IsWithin (run hash_token requests db)
run-IsWithin_example = run-IsWithin hash_token requests db db-IsKeyed db-IsWithin
