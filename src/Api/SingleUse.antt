-- ===== src/Api/SingleUse.antt =====
-- apps/api/src/credentials/single-use.ts, `memorySingleUseStore`: each credential is accepted once
-- while it is remembered. Times are milliseconds since the epoch and not negative, a life is a whole
-- number of milliseconds, and the clock is an argument of each call.
pub mod Refines
pub mod Once
use assaybank.Prelude.{
  ℕ, ◌+◌, Bool, false, Option, none, some, List, [], ◌∷◌, keep, max, ltb, if◌then◌else◌,
}
use assaybank.Prelude.Text.{Text, eq_text}

pub data ClaimOutcome : Type 0 where
  claimed replayed : ClaimOutcome

-- The map is a list of keys with the instants at which they may be forgotten.
pub record Store : Type 0 where
  pub entries : List (Text × ℕ)
  pub last_sweep : ℕ

abbrev pub empty : Store
empty = record { entries = []; last_sweep = 0 }

abbrev pub sweep_interval_ms : ℕ
sweep_interval_ms = 10_000

-- `Map.get`.
unfoldable pub get : Text → List (Text × ℕ) → Option ℕ
get key [] = none
get key ((k, e) ∷ entries) = if eq_text k key then some e else get key entries

-- `Map.set`.
unfoldable pub set : Text → ℕ → List (Text × ℕ) → List (Text × ℕ)
set key at [] = (key, at) ∷ []
set key at ((k, e) ∷ entries) =
    if eq_text k key then (k, at) ∷ entries else (k, e) ∷ set key at entries

-- Forgets what has expired, if the last time was long enough ago.
unfoldable pub sweep : ℕ → Store → Store
sweep now s =
    if ltb now (s.last_sweep + sweep_interval_ms)
    then s
    else record { entries = keep (λ e. ltb now e.1) s.entries; last_sweep = now }

-- The entry is there, and has not expired.
unfoldable pub is_live : ℕ → Option ℕ → Bool
is_live now none = false
is_live now (some expires_at) = ltb now expires_at

unfoldable pub claim : Text → ℕ → ℕ → Store → ClaimOutcome × Store
unfolding sweep is_live get set eq_text
claim key ttl now s =
    let swept = sweep now s in
    if is_live now (get key swept.entries)
    then (replayed, swept)
    else (claimed, record swept { entries = set key (now + max 1 ttl) swept.entries })

pub record Call : Type 0 where
  pub key : Text
  pub ttl : ℕ
  pub now : ℕ

-- The outcomes of a sequence of claims.
unfoldable pub run : Store → List Call → List ClaimOutcome
unfolding claim
run s [] = []
run s (c ∷ calls) = let r = claim c.key c.ttl c.now s in r.0 ∷ run r.1 calls
