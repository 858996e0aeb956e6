-- ===== src/Api/Redemption/Seats.antt =====
-- No invitation is redeemed more often than it allows.
use assaybank.Prelude.{
  ℕ, suc, ◌+◌, ◌≤◌, ◌<◌, ◌≡◌, refl, inl, inr, List, [], ◌∷◌, ok, err, if◌then◌else◌, arith, ap, sym,
  ◌∙◌, subst, Bool-cases,
}
use assaybank.Prelude.Text.{Text, trim, eq_text, eq_text_iff}
use assaybank.Api.Redemption.{
  Invitation, Db, Redemption, Outcome, sittings_taken, admit, redeem, Request, run,
}
use assaybank.Api.Redemption.Laws.{Has, Admits, redeem_ok, redeem_refused}

-- The id of an invitation is a key.
abbrev pub IsKeyed : List Invitation → Type 0
IsKeyed rows =
    (i j : Invitation) → Has i rows → Has j rows → i.invitation_id ≡ j.invitation_id → i ≡ j

-- Every invitation has at most as many attempts as it allows.
abbrev pub IsWithin : Db → Type 0
IsWithin db =
    (i : Invitation)
    → Has i db.invitations
    → sittings_taken i.invitation_id db.attempts ≤ i.max_attempts

-- What `admit` does to the counts.
admit_counts :
    (i : Invitation) (c new_id id : Text) (now : ℕ) (db : Db)
    → ((admit i c new_id now db).1.invitations ≡ db.invitations)
      × (sittings_taken id (admit i c new_id now db).1.attempts
          ≡ (if eq_text i.invitation_id id then 1 else 0) + sittings_taken id db.attempts)
      × ((admit i c new_id now db).0.sitting ≡ suc (sittings_taken i.invitation_id db.attempts))
unfolding admit sittings_taken
admit_counts i c new_id id now db = (refl, refl, refl)

Admits-IsWithin :
    (hash_token : Text → Text) (token new_id : Text) (now : ℕ) (db db' : Db) (r : Redemption)
    → IsKeyed db.invitations
    → IsWithin db
    → Admits hash_token token new_id now db r db'
    → (db'.invitations ≡ db.invitations) × IsWithin db'
Admits-IsWithin hash_token token new_id now db db' r keyed within a =
    let i = a.invitation in
    let after : db' ≡ (admit i a.candidate new_id now db).1 = ap (λ p. p.1) a.admitted in
    rw after (
      (admit_counts i a.candidate new_id [] now db).0,
      λ j held. count j (subst (Has j) (admit_counts i a.candidate new_id [] now db).0 held),
    )
  where
    count :
        (j : Invitation)
        → Has j db.invitations
        → sittings_taken j.invitation_id (admit a.invitation a.candidate new_id now db).1.attempts
          ≤ j.max_attempts
    count j held =
        let (_, counted, _) = admit_counts a.invitation a.candidate new_id j.invitation_id now db in
        elim (Bool-cases (eq_text a.invitation.invitation_id j.invitation_id)) [
          | inl same ↦
              let e = keyed a.invitation j a.listed held ((eq_text_iff _ _).0 same) in
              let seat : sittings_taken j.invitation_id db.attempts < j.max_attempts =
                subst (λ k. sittings_taken k.invitation_id db.attempts < k.max_attempts) e
                  a.is_open.seat_left in
              rw (counted, same) (omega (arith, seat))
          | inr other ↦ rw (counted, other) (omega (arith, within j held))
        ]

step-IsWithin :
    (hash_token : Text → Text) (q : Request) (db : Db)
    → IsKeyed db.invitations
    → IsWithin db
    → ((redeem hash_token q.token q.new_id q.now db).1.invitations ≡ db.invitations)
      × IsWithin (redeem hash_token q.token q.new_id q.now db).1
step-IsWithin hash_token q db keyed within = go (redeem hash_token q.token q.new_id q.now db) refl
  where
    go :
        (out : Outcome × Db)
        → redeem hash_token q.token q.new_id q.now db ≡ out
        → (out.1.invitations ≡ db.invitations) × IsWithin out.1
    go (ok r, db') e =
        Admits-IsWithin hash_token q.token q.new_id q.now db db' r keyed within
          (redeem_ok hash_token q.token q.new_id q.now db db' r e)
    go (err reason, db') e =
        rw (redeem_refused hash_token q.token q.new_id q.now db db' reason e) (refl, within)

-- Whatever is presented, in whatever order: no sequence of redemptions gives an invitation more
-- attempts than it allows, if none had more before and their ids are distinct.
pub run-IsWithin :
    (hash_token : Text → Text) (requests : List Request) (db : Db)
    → IsKeyed db.invitations
    → IsWithin db
    → IsWithin (run hash_token requests db)
unfolding run
run-IsWithin hash_token [] db keyed within = within
run-IsWithin hash_token (q ∷ requests) db keyed within =
    let (same, next) = step-IsWithin hash_token q db keyed within in
    run-IsWithin hash_token requests _ (subst IsKeyed (sym same) keyed) next

-- The number of the attempt that a redemption reports is one more than the attempts that the
-- invitation of its token had, and within what the invitation allows; and that is the number of its
-- attempts afterwards.
pub redeem-sittings_taken :
    (hash_token : Text → Text) (token new_id : Text) (now : ℕ) (db db' : Db) (r : Redemption)
    → redeem hash_token token new_id now db ≡ (ok r, db')
    → (i : Invitation) × Has i db.invitations
      × (hash_token (trim token) ≡ i.token_hash)
      × (r.sitting ≡ suc (sittings_taken i.invitation_id db.attempts))
      × (sittings_taken i.invitation_id db'.attempts ≡ r.sitting)
      × (r.sitting ≤ i.max_attempts)
redeem-sittings_taken hash_token token new_id now db db' r h =
    let a = redeem_ok hash_token token new_id now db db' r h in
    let i = a.invitation in
    let (_, counted, sat) = admit_counts i a.candidate new_id i.invitation_id now db in
    let seat : r.sitting ≡ (admit i a.candidate new_id now db).0.sitting =
      ap (λ p. p.0.sitting) a.admitted in
    let after : db' ≡ (admit i a.candidate new_id now db).1 = ap (λ p. p.1) a.admitted in
    let taken : sittings_taken i.invitation_id db'.attempts ≡ r.sitting =
      ap (λ d. sittings_taken i.invitation_id d.attempts) after
      ∙ ground (arith, counted, seat, sat, eq_text_iff i.invitation_id i.invitation_id) in
    (
      i,
      a.listed,
      a.presented,
      omega (arith, seat, sat),
      taken,
      omega (arith, seat, sat, a.is_open.seat_left),
    )
