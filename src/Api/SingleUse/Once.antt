-- ===== src/Api/SingleUse/Once.antt =====
-- A credential that was accepted is refused until its life is over.
use assaybank.Prelude.{
  ℕ, ◌+◌, ◌≤◌, ◌<◌, ◌≡◌, refl, false, some, List, [], ◌∷◌, max, ltb, arith, ap, Bool-cases, inl,
  inr,
}
use assaybank.Prelude.Text.{Text, eq_text, eq_text_iff}
use assaybank.Api.SingleUse.{
  ClaimOutcome, claimed, replayed, Store, sweep_interval_ms, get, sweep, is_live, claim, Call, run,
}
use assaybank.Api.SingleUse.Refines.{IsOrdered, get-keep, get-set}

-- Every call for the key `k` before `until` is replayed.
abbrev pub AllReplayed : Text → ℕ → List Call → List ClaimOutcome → Type 0
AllReplayed k until [] [] = Unit
AllReplayed k until (c ∷ calls) (o ∷ outcomes) =
    (c.key ≡ k → c.now < until → o ≡ replayed) × AllReplayed k until calls outcomes
AllReplayed k until _ _ = ⊥

AllReplayed-late :
    (k : Text) (until now : ℕ) (calls : List Call) (s : Store)
    → until ≤ now
    → IsOrdered now calls
    → AllReplayed k until calls (run s calls)
unfolding run
AllReplayed-late k until now [] s h o = tt
AllReplayed-late k until now (c ∷ calls) s h o = (
  λ e before. absurd (omega (arith, o.0)),
  AllReplayed-late k until c.now calls _ (omega (arith, o.0)) o.1,
)

get-sweep :
    (now until : ℕ) (k : Text) (s : Store)
    → now < until
    → get k s.entries ≡ some until
    → get k (sweep now s).entries ≡ some until
unfolding sweep
get-sweep now until k s h g = elim (Bool-cases (ltb now (s.last_sweep + sweep_interval_ms))) [
  | inl soon ↦ rw soon g
  | inr late ↦ rw late (get-keep now k until s.entries g h)
]

-- One claim before `until`: it is replayed if it is for `k`, and the entry of `k` stays.
pub claim_held :
    (c : Call) (until : ℕ) (k : Text) (s : Store)
    → c.now < until
    → get k s.entries ≡ some until
    → (c.key ≡ k → (claim c.key c.ttl c.now s).0 ≡ replayed)
      × (get k (claim c.key c.ttl c.now s).1.entries ≡ some until)
unfolding claim is_live
claim_held c until k s h g =
    let kept = get-sweep c.now until k s h g in (λ e. rw (e, kept) (ground arith), stays kept)
  where
    conflict :
        get k (sweep c.now s).entries ≡ some until
        → is_live c.now (get c.key (sweep c.now s).entries) ≡ false
        → c.key ≡ k
        → ⊥
    conflict kept dead e = ground (arith, ap (λ j. get j (sweep c.now s).entries) e)

    stays :
        get k (sweep c.now s).entries ≡ some until
        → get k (claim c.key c.ttl c.now s).1.entries ≡ some until
    stays kept = elim (Bool-cases (is_live c.now (get c.key (sweep c.now s).entries))) [
      | inl live ↦ rw live kept
      | inr dead ↦
          rw (dead, get-set c.key k (c.now + max 1 c.ttl) (sweep c.now s).entries)
            (elim (Bool-cases (eq_text c.key k)) [
              | inl same ↦ absurd (conflict kept dead ((eq_text_iff c.key k).0 same))
              | inr other ↦ rw other kept
            ])
    ]

run-AllReplayed :
    (k : Text) (until now : ℕ) (calls : List Call) (s : Store)
    → get k s.entries ≡ some until
    → IsOrdered now calls
    → AllReplayed k until calls (run s calls)
unfolding run
run-AllReplayed k until now [] s g o = tt
run-AllReplayed k until now (c ∷ calls) s g o = elim (Bool-cases (ltb c.now until)) [
  | inl before ↦
      let (first, kept) = claim_held c until k s (ground arith) g in
      ((λ e _. first e), run-AllReplayed k until c.now calls _ kept o.1)
  | inr after ↦ AllReplayed-late k until c.now (c ∷ calls) s (ground arith) ((omega arith), o.1)
]

pub get-claim :
    (c : Call) (s : Store)
    → (claim c.key c.ttl c.now s).0 ≡ claimed
    → get c.key (claim c.key c.ttl c.now s).1.entries ≡ some (c.now + max 1 c.ttl)
unfolding claim
get-claim c s h = elim (Bool-cases (is_live c.now (get c.key (sweep c.now s).entries))) [
  | inl live ↦ ground arith
  | inr dead ↦
      rw (dead, get-set c.key c.key (c.now + max 1 c.ttl) (sweep c.now s).entries)
        (rw ((eq_text_iff c.key c.key).1 refl))
]

-- Whatever else the store holds and whatever is claimed in between: after a claim that succeeded, every
-- claim of the same key is replayed until the claim's life is over, if the clock does not go backwards.
pub claim_once :
    (c : Call) (s : Store) (calls : List Call)
    → (claim c.key c.ttl c.now s).0 ≡ claimed
    → IsOrdered c.now calls
    → AllReplayed c.key (c.now + max 1 c.ttl) calls (run (claim c.key c.ttl c.now s).1 calls)
claim_once c s calls h o = run-AllReplayed c.key _ c.now calls _ (get-claim c s h) o
