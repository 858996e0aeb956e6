-- ===== src/Worker/Idempotent.antt =====
-- apps/worker/src/idempotency.ts: `idempotent` over the in-process store, as steps between its
-- awaits. Every operation is on one storage key, so the two maps are a function from storage keys to
-- what they hold for each. `JSON` and the schema of a record are a `Codec`; a life is a whole number of
-- seconds; no decoder is given; the counters are left out.
pub mod Phases
pub mod Steps
pub mod Once
use assaybank.Prelude.{
  ℕ, zero, suc, ◌+◌, ◌*◌, Option, none, some, List, [], ◌∷◌, ◌++◌, ok, err, leb, if◌then◌else◌,
  Result, ◌>>=◌,
}
use assaybank.Prelude.Text.{Text, eq_text}
use assaybank.Worker.JobId.{KeyError, assert_business_key}

-- `JSON.stringify({ v })`, and `reviveRecord`.
pub record Codec (V : Type 0) : Type 0 where
  pub encode : V → Text
  pub revive : Text → Option V

pub record Entry : Type 0 where
  pub value : Text
  pub expires_at_ms : ℕ

-- `get` of the store: what it returns, and the entry that is left.
unfoldable pub get : ℕ → Option Entry → Option Text × Option Entry
get now none = (none, none)
get now (some entry) =
    if leb entry.expires_at_ms now then (none, none) else (some entry.value, some entry)

-- `set` of the store.
unfoldable pub set : ℕ → Text → ℕ → Option Entry
set now value ttl_seconds =
    some (record { value = value; expires_at_ms = now + ttl_seconds * 1000 })

-- What a run waits for: the store's answer, `fn`, the store's writing, or (settled, with a value or
-- an error) the call that started it.
pub data Phase (V : Type 0) : Type 0 where
  reading : Option Text → Phase V
  executing : Phase V
  storing : V → Phase V
  resolved : V → Phase V
  rejected : Phase V

-- A run in flight, and the number of later calls that wait for it.
pub record Flight (V : Type 0) : Type 0 where
  pub phase : Phase V
  pub waiters : ℕ

-- A storage key's part of the two maps; and for its history what `fn` returned and what calls returned.
pub record KeyState (V : Type 0) : Type 0 where
  pub flight : Option (Flight V)
  pub entry : Option Entry
  pub completed : List V
  pub delivered : List V

pub data Event (V : Type 0) : Type 0 where
  got : Event V
  fn_resolves : ℕ → V → Event V
  fn_throws stored settles : Event V

abbrev pub in_phase : {V : Type 0} → Phase V → ℕ → Option (Flight V)
in_phase phase waiters = some (record { phase = phase; waiters = waiters })

module _ {V : Type 0} where
  -- A call: it joins the run in flight, or starts one, which asks the store.
  unfoldable pub call : ℕ → KeyState V → KeyState V
  unfolding get
  call now s = elim s.flight [
    | some f ↦ record s { flight = in_phase f.phase (f.waiters + 1) }
    | none ↦
        let found = get now s.entry in
        record s { flight = in_phase (reading found.0) 0; entry = found.1 }
  ]

  -- What the run does with the store's answer.
  abbrev pub after_get : Codec V → Option Text → Phase V
  after_get codec none = executing
  after_get codec (some raw) = elim (codec.revive raw) [ some v ↦ resolved v | none ↦ executing ]

  -- A value for the call that started the run, and for those that wait.
  abbrev pub deliver : V → ℕ → List V → List V
  deliver v zero out = v ∷ out
  deliver v (suc waiters) out = v ∷ deliver v waiters out

  -- What follows an await of a run that is in flight; an event that it does not wait for is none.
  unfoldable pub proceed : Codec V → ℕ → Event V → Phase V → ℕ → KeyState V → KeyState V
  unfolding set
  proceed codec ttl got (reading found) waiters s = record s {
    flight = in_phase (after_get codec found) waiters;
  }
  proceed codec ttl (fn_resolves now v) executing waiters s = record s {
    flight = in_phase (storing v) waiters;
    entry = set now (codec.encode v) ttl;
    completed = v ∷ s.completed;
  }
  proceed codec ttl fn_throws executing waiters s = record s { flight = in_phase rejected waiters }
  proceed codec ttl stored (storing v) waiters s = record s {
    flight = in_phase (resolved v) waiters;
  }
  proceed codec ttl settles (resolved v) waiters s = record s {
    flight = none;
    delivered = deliver v waiters s.delivered;
  }
  proceed codec ttl settles rejected waiters s = record s { flight = none }
  proceed codec ttl _ _ waiters s = s

  unfoldable pub happen : Codec V → ℕ → Event V → KeyState V → KeyState V
  unfolding proceed
  happen codec ttl event s = elim s.flight [
    | none ↦ s
    | some f ↦ proceed codec ttl event f.phase f.waiters s
  ]

-- `IDEMPOTENCY_KEY_PREFIX`: "assaybank:idem:"
abbrev pub key_prefix : Text
key_prefix =
    b'a' ∷ b's' ∷ b's' ∷ b'a' ∷ b'y' ∷ b'b' ∷ b'a' ∷ b'n' ∷ b'k' ∷ b':' ∷ b'i' ∷ b'd' ∷ b'e' ∷ b'm'
    ∷ b':' ∷ []

unfoldable pub storage_key : Text → Result Text KeyError
storage_key key = assert_business_key key >>= λ k. ok (key_prefix ++ k)

abbrev pub State : Type 0 → Type 0
State V = Text → KeyState V

abbrev pub initial : {V : Type 0} → State V
initial key = record { flight = none; entry = none; completed = []; delivered = [] }

-- `Map.set`, for one key.
abbrev pub update : {V : Type 0} → Text → (KeyState V → KeyState V) → State V → State V
update key change s k = if eq_text key k then change (s k) else s k

-- A call for a business key at an instant, or an event of the run of a storage key.
pub data Action (V : Type 0) : Type 0 where
  calls : Text → ℕ → Action V
  happens : Text → Event V → Action V

module _ {V : Type 0} where
  -- A malformed key is thrown back.
  unfoldable pub call_at : Result Text KeyError → ℕ → State V → State V
  unfolding call
  call_at (ok key) now s = update key (call now) s
  call_at (err e) now s = s

  unfoldable pub act : Codec V → ℕ → Action V → State V → State V
  unfolding storage_key call_at happen
  act codec ttl (calls key now) s = call_at (storage_key key) now s
  act codec ttl (happens k event) s = update k (happen codec ttl event) s

  unfoldable pub run : Codec V → ℕ → List (Action V) → State V → State V
  unfolding act
  run codec ttl [] s = s
  run codec ttl (a ∷ actions) s = run codec ttl actions (act codec ttl a s)
