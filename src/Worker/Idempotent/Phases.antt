-- ===== src/Worker/Idempotent/Phases.antt =====
-- What the steps of one storage key keep: its run is open, or closed with one value.
use assaybank.Prelude.{ℕ, ◌≤◌, ◌≡◌, ◌⊎◌, Option, none, some, List, [], ◌∷◌, All}
use assaybank.Worker.Idempotent.{
  Codec, Entry, Phase, reading, executing, storing, resolved, rejected, Flight, KeyState,
}

module _ {V : Type 0} (codec : Codec V) where
  -- What is recorded can be read back.
  abbrev pub IsLossless : Type 0
  IsLossless = (v : V) → codec.revive (codec.encode v) ≡ some v

  -- The run has not completed.
  abbrev pub IsOpenPhase : Phase V → Type 0
  IsOpenPhase (reading none) = Unit
  IsOpenPhase executing = Unit
  IsOpenPhase rejected = Unit
  IsOpenPhase _ = ⊥

  -- The run has, or reads, the value.
  abbrev pub IsClosedPhase : V → Phase V → Type 0
  IsClosedPhase v (reading (some raw)) = raw ≡ codec.encode v
  IsClosedPhase v (storing w) = w ≡ v
  IsClosedPhase v (resolved w) = w ≡ v
  IsClosedPhase v _ = ⊥

  abbrev pub InFlight : (Phase V → Type 0) → Option (Flight V) → Type 0
  InFlight P none = Unit
  InFlight P (some f) = P f.phase

  pub record IsOpen (s : KeyState V) : Type 0 where
    pub no_entry : s.entry ≡ none
    pub none_completed : s.completed ≡ []
    pub none_delivered : s.delivered ≡ []
    pub in_flight : InFlight IsOpenPhase s.flight

  pub record IsClosed (until : ℕ) (s : KeyState V) : Type 0 where
    pub value : V
    pub at : ℕ
    pub kept : until ≤ at
    pub has_entry : s.entry ≡ some (record { value = codec.encode value; expires_at_ms = at })
    pub one_completed : s.completed ≡ value ∷ []
    pub all_delivered : All (λ w. w ≡ value) s.delivered
    pub in_flight : InFlight (IsClosedPhase value) s.flight

  abbrev pub IsGood : ℕ → KeyState V → Type 0
  IsGood until s = IsOpen s ⊎ IsClosed until s

  abbrev pub state : Option (Flight V) → Option Entry → List V → List V → KeyState V
  state flight entry completed delivered = record {
    flight = flight;
    entry = entry;
    completed = completed;
    delivered = delivered;
  }
