-- ===== src/Worker/Idempotent/Once.antt =====
-- A job's effect happens once for its key.
use assaybank.Prelude.{
  ℕ, ◌+◌, ◌*◌, ◌≤◌, ◌<◌, ◌≡◌, refl, inl, inr, List, [], ◌∷◌, All, length, Result, arith, ap, ◌∙◌,
  subst, sym, Bool-cases, ok, err,
}
use assaybank.Prelude.Text.{Text, eq_text}
use assaybank.Worker.JobId.{KeyError}
use assaybank.Worker.Idempotent.{
  Codec, KeyState, call, call_at, happen, State, initial, Action, calls, happens, act, run,
  storage_key, update,
}
use assaybank.Worker.Idempotent.Phases.{IsGood, IsLossless}
use assaybank.Worker.Idempotent.Steps.{IsFrom, call_state, happen_state}

module _ {V : Type 0} where
  -- Calls come before `until`, and completions not before `start`.
  abbrev pub IsWithin : ℕ → ℕ → Action V → Type 0
  IsWithin start until (calls key now) = now < until
  IsWithin start until (happens key event) = IsFrom start event

  -- The effect completed at most once, and every call that returned has its result.
  abbrev pub HappenedOnce : KeyState V → Type 0
  HappenedOnce k = (length k.completed ≤ 1) × All (λ w. k.completed ≡ w ∷ []) k.delivered

  All-once :
      (value : V) (completed out : List V)
      → completed ≡ value ∷ []
      → All (λ w. w ≡ value) out
      → All (λ w. completed ≡ w ∷ []) out
  All-once value completed [] e h = tt
  All-once value completed (w ∷ out) e h =
      (e ∙ ap (λ v. v ∷ []) (sym h.0), All-once value completed out e h.1)

module _ {V : Type 0} (codec : Codec V) where
  abbrev IsGoodAll : ℕ → State V → Type 0
  IsGoodAll until s = (key : Text) → IsGood codec until (s key)

  update_good :
      (until : ℕ) (key : Text) (change : KeyState V → KeyState V) (s : State V)
      → ((k : KeyState V) → IsGood codec until k → IsGood codec until (change k))
      → IsGoodAll until s
      → IsGoodAll until (update key change s)
  update_good until key change s h g k = elim (Bool-cases (eq_text key k)) [
    | inl e ↦ rw e (h (s k) (g k))
    | inr e ↦ rw e (g k)
  ]

  call_at_good :
      (until now : ℕ) (key : Result Text KeyError) (s : State V)
      → now < until
      → IsGoodAll until s
      → IsGoodAll until (call_at key now s)
  unfolding call_at
  call_at_good until now (ok key) s b g =
      update_good until key (call now) s
        (λ x. call_state codec until now x.flight x.entry x.completed x.delivered b) g
  call_at_good until now (err e) s b g = g

  act_good :
      (start until ttl : ℕ) (a : Action V) (s : State V)
      → until ≤ start + ttl * 1000
      → IsLossless codec
      → IsWithin start until a
      → IsGoodAll until s
      → IsGoodAll until (act codec ttl a s)
  unfolding act
  act_good start until ttl (calls key now) s h l b g =
      call_at_good until now (storage_key key) s b g
  act_good start until ttl (happens key event) s h l b g =
      update_good until key (happen codec ttl event) s
        (λ x.
          happen_state codec start until ttl event x.flight x.entry x.completed x.delivered h b l)
        g

  run_good :
      (start until ttl : ℕ) (actions : List (Action V)) (s : State V)
      → until ≤ start + ttl * 1000
      → IsLossless codec
      → All (IsWithin start until) actions
      → IsGoodAll until s
      → IsGoodAll until (run codec ttl actions s)
  unfolding run
  run_good start until ttl [] s h l b g = g
  run_good start until ttl (a ∷ actions) s h l b g =
      run_good start until ttl actions (act codec ttl a s) h l b.1
        (act_good start until ttl a s h l b.0 g)

  good_once : (until : ℕ) (k : KeyState V) → IsGood codec until k → HappenedOnce k
  good_once until k (inl o) = (
    rw o.none_completed (omega arith),
    subst (All (λ w. k.completed ≡ w ∷ [])) (sym o.none_delivered) tt,
  )
  good_once until k (inr c) = (
    rw c.one_completed (omega arith),
    All-once c.value k.completed k.delivered c.one_completed c.all_delivered,
  )

-- However the calls are interleaved with the awaits of the runs: `fn` completes at most once for a key,
-- also if some runs fail before, and every call that returns has the result of that one completion.
-- The records must be read back as they were written; and there is an instant, `start`, before which
-- `fn` does not complete, such that every call comes within the life of a record of that instant.
pub run-HappenedOnce :
    {V : Type 0} (codec : Codec V) (start ttl : ℕ) (actions : List (Action V))
    → IsLossless codec
    → All (IsWithin start (start + ttl * 1000)) actions
    → (key : Text) → HappenedOnce (run codec ttl actions initial key)
run-HappenedOnce codec start ttl actions l b key = good_once codec (start + ttl * 1000) _ (
    run_good codec start (start + ttl * 1000) ttl actions initial (omega arith) l b
      (λ k.
        inl (record {
          no_entry = refl;
          none_completed = refl;
          none_delivered = refl;
          in_flight = tt;
        }))
      key)
