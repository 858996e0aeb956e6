-- ===== src/Api/SingleUse/Refines.antt =====
-- The store with its sweeps implements a store that never forgets.
use assaybank.Prelude.{
  ℕ, ◌+◌, ◌≤◌, ◌<◌, ◌≡◌, refl, Bool, some, List, [], ◌∷◌, All, keep, max, ltb, if◌then◌else◌, arith,
  Bool-cases, Option-cases, inl, inr,
}
use assaybank.Prelude.Text.{Text, eq_text, eq_text_iff}
use assaybank.Api.SingleUse.{
  ClaimOutcome, claimed, replayed, Store, empty, sweep_interval_ms, get, set, sweep, is_live, claim,
  Call, run,
}

-- The specification: until when each key is taken. 0 is never.
abbrev pub Taken : Type 0
Taken = Text → ℕ

abbrev pub take_key : Text → ℕ → Taken → Taken
take_key key until taken k = if eq_text key k then until else taken k

-- A claim is replayed exactly while the key is taken, and otherwise takes it for its life.
abbrev pub spec_claim : Call → Taken → ClaimOutcome × Taken
spec_claim c taken =
    if ltb c.now (taken c.key)
    then (replayed, taken)
    else (claimed, take_key c.key (c.now + max 1 c.ttl) taken)

unfoldable pub spec_run : Taken → List Call → List ClaimOutcome
spec_run taken [] = []
spec_run taken (c ∷ calls) = let r = spec_claim c taken in r.0 ∷ spec_run r.1 calls

-- The clock does not go backwards.
abbrev pub IsOrdered : ℕ → List Call → Type 0
IsOrdered now [] = Unit
IsOrdered now (c ∷ calls) = (now ≤ c.now) × IsOrdered c.now calls

-- No entry outlives its key's, and a key that is still taken has its entry.
record Agrees (now : ℕ) (entries : List (Text × ℕ)) (taken : Taken) : Type 0 where
  within : All (λ e. e.1 ≤ taken e.0) entries
  present : (k : Text) → now < taken k → get k entries ≡ some (taken k)

get_within :
    (entries : List (Text × ℕ)) (taken : Taken) (k : Text) (e : ℕ)
    → All (λ e. e.1 ≤ taken e.0) entries
    → get k entries ≡ some e
    → e ≤ taken k
unfolding get
get_within [] taken k e h g = cc
get_within ((j, d) ∷ entries) taken k e h g =
    ground (arith, eq_text_iff j k, get_within entries taken k e h.1)

keep_within :
    (p : Text × ℕ → Bool) (entries : List (Text × ℕ)) (taken : Taken)
    → All (λ e. e.1 ≤ taken e.0) entries
    → All (λ e. e.1 ≤ taken e.0) (keep p entries)
keep_within p [] taken h = tt
keep_within p (e ∷ entries) taken h = ground (arith, keep_within p entries taken h.1)

pub get-keep :
    (now : ℕ) (k : Text) (e : ℕ) (entries : List (Text × ℕ))
    → get k entries ≡ some e
    → now < e
    → get k (keep (λ e. ltb now e.1) entries) ≡ some e
unfolding get
get-keep now k e [] g h = cc
get-keep now k e ((j, d) ∷ entries) g h = ground (arith, get-keep now k e entries)

pub get-set :
    (k j : Text) (at : ℕ) (entries : List (Text × ℕ))
    → get j (set k at entries) ≡ (if eq_text k j then some at else get j entries)
unfolding get set
get-set k j at [] = refl
get-set k j at ((i, e) ∷ entries) =
    ground (arith, eq_text_iff i k, eq_text_iff i j, eq_text_iff k j, get-set k j at entries)

raise :
    (k : Text) (at : ℕ) (entries : List (Text × ℕ)) (taken : Taken)
    → taken k ≤ at
    → All (λ e. e.1 ≤ taken e.0) entries
    → All (λ e. e.1 ≤ take_key k at taken e.0) entries
raise k at [] taken h w = tt
raise k at ((i, e) ∷ entries) taken h w =
    ground (arith, eq_text_iff k i, raise k at entries taken h w.1)

set_within :
    (k : Text) (at : ℕ) (entries : List (Text × ℕ)) (taken : Taken)
    → taken k ≤ at
    → All (λ e. e.1 ≤ taken e.0) entries
    → All (λ e. e.1 ≤ take_key k at taken e.0) (set k at entries)
unfolding set
set_within k at [] taken h w = ground (arith, eq_text_iff k k)
set_within k at ((i, e) ∷ entries) taken h w = ground (
  arith,
  eq_text_iff i k,
  eq_text_iff k i,
  raise k at entries taken h w.1,
  set_within k at entries taken h w.1,
)

sweep-Agrees :
    (now : ℕ) (s : Store) (taken : Taken)
    → Agrees now s.entries taken
    → Agrees now (sweep now s).entries taken
unfolding sweep
sweep-Agrees now s taken a = elim (Bool-cases (ltb now (s.last_sweep + sweep_interval_ms))) [
  | inl soon ↦ rw soon a
  | inr late ↦ rw late (record {
    within = keep_within _ s.entries taken a.within;
    present = λ k h. get-keep now k _ s.entries (a.present k h) h;
  })
]

is_live_iff :
    (now : ℕ) (entries : List (Text × ℕ)) (taken : Taken) (k : Text)
    → Agrees now entries taken
    → is_live now (get k entries) ≡ ltb now (taken k)
unfolding is_live
is_live_iff now entries taken k a = elim (Option-cases (get k entries)) [
  | inl absent ↦ rw absent (ground (arith, a.present k))
  | inr (e, found) ↦
      rw found (ground (arith, a.present k, get_within entries taken k e a.within found))
]

set-Agrees :
    (now at : ℕ) (k : Text) (entries : List (Text × ℕ)) (taken : Taken)
    → taken k ≤ at
    → Agrees now entries taken
    → Agrees now (set k at entries) (take_key k at taken)
set-Agrees now at k entries taken h a = record {
  within = set_within k at entries taken h a.within;
  present = λ j live. rw (get-set k j at entries) (ground (arith, a.present j));
}

later-Agrees :
    (now later : ℕ) (entries : List (Text × ℕ)) (taken : Taken)
    → now ≤ later
    → Agrees now entries taken
    → Agrees later entries taken
later-Agrees now later entries taken h a = record {
  within = a.within;
  present = λ k live. a.present k (omega arith);
}

-- One claim on both sides: the same outcome, and the stores still agree.
claim-Agrees :
    (c : Call) (s : Store) (taken : Taken)
    → Agrees c.now s.entries taken
    → ((claim c.key c.ttl c.now s).0 ≡ (spec_claim c taken).0)
      × Agrees c.now (claim c.key c.ttl c.now s).1.entries (spec_claim c taken).1
unfolding claim
claim-Agrees c s taken a =
    let b = sweep-Agrees c.now s taken a in
    let live = is_live_iff c.now (sweep c.now s).entries taken c.key b in
    elim (Bool-cases (ltb c.now (taken c.key))) [
      | inl held ↦ rw (live, held) (refl, b)
      | inr free ↦
          rw (live, free)
            (refl, set-Agrees c.now (c.now + max 1 c.ttl) c.key _ taken (ground arith) b)
    ]

run-Agrees :
    (now : ℕ) (calls : List Call) (s : Store) (taken : Taken)
    → IsOrdered now calls
    → Agrees now s.entries taken
    → run s calls ≡ spec_run taken calls
unfolding run spec_run
run-Agrees now [] s taken o a = refl
run-Agrees now (c ∷ calls) s taken o a =
    let (same, b) = claim-Agrees c s taken (later-Agrees now c.now s.entries taken o.0 a) in
    cc (same, run-Agrees c.now calls (claim c.key c.ttl c.now s).1 (spec_claim c taken).1 o.1 b)

-- As long as the clock does not go backwards, every sequence of claims has the outcomes of a store
-- that never forgets: a credential is replayed exactly while an earlier claim of it is in force. The
-- sweeps cannot be seen.
pub run-spec_run :
    (calls : List Call) → IsOrdered 0 calls → run empty calls ≡ spec_run (λ _. 0) calls
run-spec_run calls o =
    run-Agrees 0 calls empty (λ _. 0) o
      (record { within = tt; present = λ k h. absurd (omega arith) })
