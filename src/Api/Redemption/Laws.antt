-- ===== src/Api/Redemption/Laws.antt =====
-- What a redemption guarantees.
use assaybank.Prelude.{
  ℕ, ◌<◌, ◌≡◌, refl, ◌↔◌, ◌⊎◌, inl, inr, false, Option, none, some, List, [], ◌∷◌, Result, ok, err,
  arith, Option-cases,
}
use assaybank.Prelude.Text.{Text, trim, eq_text_iff}
use assaybank.Api.Redemption.{
  RefusalReason, Invitation, Db, Redemption, published, find_org, find_locked, sittings_taken,
  is_before, take_seat, policy, admit, settle, in_transaction, redeem_hash, redeem,
}

abbrev pub Has : Invitation → List Invitation → Type 0
Has i [] = ⊥
Has i (j ∷ rows) = (j ≡ i) ⊎ Has i rows

-- What must hold of an invitation for a candidate to be let in, besides the token.
pub record IsOpen (i : Invitation) (candidate : Text) (sittings now : ℕ) : Type 0 where
  pub begun : is_before now i.opens_at ≡ false
  pub unexpired : now < i.expires_at
  pub is_published : i.assessment.status ≡ published
  pub invited : i.candidate_id ≡ some candidate
  pub seat_left : sittings < i.max_attempts

take_seat_iff :
    (c : Option Text) (sittings max_attempts : ℕ) (candidate : Text)
    → (take_seat c sittings max_attempts ≡ ok candidate)
      ↔ ((c ≡ some candidate) × (sittings < max_attempts))
unfolding take_seat
take_seat_iff none sittings max_attempts candidate = ground arith
take_seat_iff (some c) sittings max_attempts candidate = ground arith

policy_sound :
    (hash : Text) (i : Invitation) (sittings now : ℕ) (candidate : Text)
    → policy hash i sittings now ≡ ok candidate
    → (hash ≡ i.token_hash) × IsOpen i candidate sittings now
unfolding policy
policy_sound hash i sittings now candidate h =
    let seat = take_seat_iff i.candidate_id sittings i.max_attempts candidate in
    let same = eq_text_iff hash i.token_hash in
    let live = eq_text_iff i.assessment.status published in
    (
      ground (arith, same),
      record {
        begun = ground arith;
        unexpired = ground arith;
        is_published = ground (arith, live);
        invited = ground (arith, seat);
        seat_left = ground (arith, seat);
      },
    )

-- The tests let a candidate in exactly if the token is the invitation's, the invitation is open, its
-- assessment is published, it names the candidate, and it has an attempt left.
pub policy_iff :
    (hash : Text) (i : Invitation) (sittings now : ℕ) (candidate : Text)
    → (policy hash i sittings now ≡ ok candidate)
      ↔ ((hash ≡ i.token_hash) × IsOpen i candidate sittings now)
unfolding policy
policy_iff hash i sittings now candidate = (
  policy_sound hash i sittings now candidate,
  λ h. ground (
    arith,
    h,
    h.1.begun,
    h.1.unexpired,
    (eq_text_iff hash i.token_hash).1 h.0,
    (eq_text_iff i.assessment.status published).1 h.1.is_published,
    (take_seat_iff i.candidate_id sittings i.max_attempts candidate).1 (h.1.invited, h.1.seat_left),
  ),
)

find_locked-Has :
    (org hash : Text) (rows : List Invitation) (i : Invitation)
    → find_locked org hash rows ≡ some i
    → Has i rows × (i.org_id ≡ org) × (i.token_hash ≡ hash)
unfolding find_locked
find_locked-Has org hash [] i h = cc
find_locked-Has org hash (j ∷ rows) i h = ground (
  arith,
  eq_text_iff j.org_id org,
  eq_text_iff j.token_hash hash,
  find_locked-Has org hash rows i,
)

-- How a redemption that succeeds comes about, and what it leaves.
pub record Admits (hash_token : Text → Text) (token new_id : Text) (now : ℕ) (db : Db)
    (r : Redemption) (db' : Db) : Type 0 where
  pub invitation : Invitation
  pub candidate : Text
  pub listed : Has invitation db.invitations
  pub presented : hash_token (trim token) ≡ invitation.token_hash
  pub is_open :
      IsOpen invitation candidate (sittings_taken invitation.invitation_id db.attempts) now
  pub admitted : (r, db') ≡ admit invitation candidate new_id now db

settle_ok :
    (p : Result Text RefusalReason) (i : Invitation) (new_id : Text) (now : ℕ) (db db' : Db)
    (r : Redemption)
    → settle p i new_id now db ≡ (ok r, db')
    → (c : Text) × (p ≡ ok c) × ((r, db') ≡ admit i c new_id now db)
unfolding settle
settle_ok (err reason) i new_id now db db' r h = cc
settle_ok (ok c) i new_id now db db' r h = (c, refl, ground arith)

redeem_hash_ok :
    (hash new_id : Text) (now : ℕ) (db db' : Db) (r : Redemption)
    → redeem_hash hash new_id now db ≡ (ok r, db')
    → (i : Invitation) × (c : Text) × Has i db.invitations
      × (hash ≡ i.token_hash)
      × IsOpen i c (sittings_taken i.invitation_id db.attempts) now
      × ((r, db') ≡ admit i c new_id now db)
unfolding redeem_hash in_transaction
redeem_hash_ok hash new_id now db db' r h = elim (Option-cases (find_org hash db.invitations)) [
  | inl missing ↦ ground arith
  | inr (org, found) ↦ elim (Option-cases (find_locked org hash db.invitations)) [
    | inl gone ↦ ground arith
    | inr (i, locked) ↦
        let (listed, _, same) = find_locked-Has org hash db.invitations i locked in
        let (c, passed, done) =
          settle_ok _ i new_id now db db' r (rw (found, redeem_hash, locked) at h) in
        let (same', is_open) = policy_sound hash i _ now c passed in
        (i, c, listed, same', is_open, done)
  ]
]

-- A redemption that succeeds is of an open invitation in the database whose hash is that of the token
-- that was presented, and what it returns and leaves is what `admit` makes for that invitation.
pub redeem_ok :
    (hash_token : Text → Text) (token new_id : Text) (now : ℕ) (db db' : Db) (r : Redemption)
    → redeem hash_token token new_id now db ≡ (ok r, db')
    → Admits hash_token token new_id now db r db'
unfolding redeem
redeem_ok hash_token token new_id now db db' r h =
    let (i, c, listed, same, is_open, done) =
      redeem_hash_ok (hash_token (trim token)) new_id now db db' r (ground arith) in
    record {
      invitation = i;
      candidate = c;
      listed = listed;
      presented = same;
      is_open = is_open;
      admitted = done;
    }

settle_err :
    (p : Result Text RefusalReason) (i : Invitation) (new_id : Text) (now : ℕ) (db db' : Db)
    (reason : RefusalReason)
    → settle p i new_id now db ≡ (err reason, db')
    → db' ≡ db
unfolding settle
settle_err (err e) i new_id now db db' reason h = ground arith
settle_err (ok c) i new_id now db db' reason h = cc

redeem_hash_err :
    (hash new_id : Text) (now : ℕ) (db db' : Db) (reason : RefusalReason)
    → redeem_hash hash new_id now db ≡ (err reason, db')
    → db' ≡ db
unfolding redeem_hash in_transaction
redeem_hash_err hash new_id now db db' reason h =
    elim (Option-cases (find_org hash db.invitations)) [
      | inl missing ↦ ground arith
      | inr (org, found) ↦ elim (Option-cases (find_locked org hash db.invitations)) [
        | inl gone ↦ ground arith
        | inr (i, locked) ↦
            settle_err _ i new_id now db db' reason (rw (found, redeem_hash, locked) at h)
      ]
    ]

-- A redemption that is refused, for whatever reason, leaves the database as it was.
pub redeem_refused :
    (hash_token : Text → Text) (token new_id : Text) (now : ℕ) (db db' : Db)
    (reason : RefusalReason)
    → redeem hash_token token new_id now db ≡ (err reason, db')
    → db' ≡ db
unfolding redeem
redeem_refused hash_token token new_id now db db' reason h =
    ground (arith, redeem_hash_err (hash_token (trim token)) new_id now db db' reason)
