-- ===== src/Worker/Idempotent/Steps.antt =====
-- The steps of one storage key keep its run open, or closed with one value.
use assaybank.Prelude.{
  ℕ, zero, suc, ◌+◌, ◌*◌, ◌≤◌, ◌<◌, ◌≡◌, refl, inl, inr, Option, none, some, List, ◌∷◌, All, arith,
  ap, ◌∙◌, subst, sym,
}
use assaybank.Prelude.Text.{Text}
use assaybank.Worker.Idempotent.{
  Codec, Entry, Phase, reading, executing, storing, resolved, rejected, Flight, Event, got,
  fn_resolves, fn_throws, stored, settles, deliver, after_get, get, call, proceed, happen, in_phase,
}
use assaybank.Worker.Idempotent.Phases.{
  IsLossless, IsOpenPhase, IsClosedPhase, IsOpen, IsClosed, IsGood, state,
}

module _ {V : Type 0} where
  -- The effect does not complete before the instant.
  abbrev pub IsFrom : ℕ → Event V → Type 0
  IsFrom start (fn_resolves now v) = start ≤ now
  IsFrom start _ = Unit

module _ {V : Type 0} (codec : Codec V) where
  get_kept :
      (now at : ℕ) (value : Text) (entry : Option Entry)
      → entry ≡ some (record { value = value; expires_at_ms = at })
      → now < at
      → get now entry ≡ (some value, entry)
  unfolding get
  get_kept now at value entry e h = ground arith

  pub call_state :
      (until now : ℕ) (flight : Option (Flight V)) (entry : Option Entry)
      (completed delivered : List V)
      → now < until
      → IsGood codec until (state codec flight entry completed delivered)
      → IsGood codec until (call now (state codec flight entry completed delivered))
  unfolding call
  call_state until now none entry completed delivered h (inl o) = inl (record {
    no_entry = rw o.no_entry refl;
    none_completed = o.none_completed;
    none_delivered = o.none_delivered;
    in_flight = rw o.no_entry tt;
  })
  call_state until now (some f) entry completed delivered h (inl o) = inl (record {
    no_entry = o.no_entry;
    none_completed = o.none_completed;
    none_delivered = o.none_delivered;
    in_flight = o.in_flight;
  })
  call_state until now none entry completed delivered h (inr c) =
      let found = get_kept now c.at _ entry c.has_entry (omega (arith, c.kept)) in
      inr (record {
        value = c.value;
        at = c.at;
        kept = c.kept;
        has_entry = ap (λ p. p.1) found ∙ c.has_entry;
        one_completed = c.one_completed;
        all_delivered = c.all_delivered;
        in_flight = subst (λ p. IsClosedPhase codec c.value (reading p.0)) (sym found) refl;
      })
  call_state until now (some f) entry completed delivered h (inr c) = inr (record {
    value = c.value;
    at = c.at;
    kept = c.kept;
    has_entry = c.has_entry;
    one_completed = c.one_completed;
    all_delivered = c.all_delivered;
    in_flight = c.in_flight;
  })

  deliver-All :
      (value v : V) (waiters : ℕ) (out : List V)
      → v ≡ value
      → All (λ w. w ≡ value) out
      → All (λ w. w ≡ value) (deliver v waiters out)
  deliver-All value v zero out e h = (e, h)
  deliver-All value v (suc waiters) out e h = (e, deliver-All value v waiters out e h)

  after_get_open :
      (found : Option Text)
      → IsOpenPhase codec (reading found)
      → IsOpenPhase codec (after_get codec found)
  after_get_open none h = tt
  after_get_open (some raw) h = elim h [ ]

  after_get-some :
      (raw : Text) (v : V) → codec.revive raw ≡ some v → after_get codec (some raw) ≡ resolved v
  after_get-some raw v e = ground arith

  after_get_closed :
      (v : V) (found : Option Text)
      → IsLossless codec
      → IsClosedPhase codec v (reading found)
      → IsClosedPhase codec v (after_get codec found)
  after_get_closed v none l h = elim h [ ]
  after_get_closed v (some raw) l h =
      subst (IsClosedPhase codec v) (sym (after_get-some raw v (ap codec.revive h ∙ l v))) refl

  proceed_open :
      (start until ttl : ℕ) (event : Event V) (phase : Phase V) (waiters : ℕ) (entry : Option Entry)
      (completed delivered : List V)
      → until ≤ start + ttl * 1000
      → IsFrom start event
      → IsOpen codec (state codec (in_phase phase waiters) entry completed delivered)
      → IsGood codec until (
          proceed codec ttl event phase waiters
            (state codec (in_phase phase waiters) entry completed delivered))
  unfolding proceed
  proceed_open start until ttl got (reading found) waiters entry completed delivered h b o =
      inl (record {
        no_entry = o.no_entry;
        none_completed = o.none_completed;
        none_delivered = o.none_delivered;
        in_flight = after_get_open found o.in_flight;
      })
  proceed_open start until ttl (fn_resolves now v) executing waiters entry completed delivered h b
        o =
      inr (record {
        value = v;
        at = now + ttl * 1000;
        kept = omega (arith, h, b);
        has_entry = refl;
        one_completed = ap (λ l. v ∷ l) o.none_completed;
        all_delivered = rw o.none_delivered tt;
        in_flight = refl;
      })
  proceed_open start until ttl fn_throws executing waiters entry completed delivered h b o =
      inl (record {
        no_entry = o.no_entry;
        none_completed = o.none_completed;
        none_delivered = o.none_delivered;
        in_flight = tt;
      })
  proceed_open start until ttl settles rejected waiters entry completed delivered h b o =
      inl (record {
        no_entry = o.no_entry;
        none_completed = o.none_completed;
        none_delivered = o.none_delivered;
        in_flight = tt;
      })
  proceed_open start until ttl stored (storing v) waiters entry completed delivered h b o =
      elim o.in_flight [ ]
  proceed_open start until ttl settles (resolved v) waiters entry completed delivered h b o =
      elim o.in_flight [ ]
  proceed_open start until ttl _ _ waiters entry completed delivered h b o = inl o

  proceed_closed :
      (until ttl : ℕ) (event : Event V) (phase : Phase V) (waiters : ℕ) (entry : Option Entry)
      (completed delivered : List V)
      → IsLossless codec
      → IsClosed codec until (state codec (in_phase phase waiters) entry completed delivered)
      → IsGood codec until (
          proceed codec ttl event phase waiters
            (state codec (in_phase phase waiters) entry completed delivered))
  unfolding proceed
  proceed_closed until ttl got (reading found) waiters entry completed delivered l c = inr (record {
    value = c.value;
    at = c.at;
    kept = c.kept;
    has_entry = c.has_entry;
    one_completed = c.one_completed;
    all_delivered = c.all_delivered;
    in_flight = after_get_closed c.value found l c.in_flight;
  })
  proceed_closed until ttl stored (storing v) waiters entry completed delivered l c = inr (record {
    value = c.value;
    at = c.at;
    kept = c.kept;
    has_entry = c.has_entry;
    one_completed = c.one_completed;
    all_delivered = c.all_delivered;
    in_flight = c.in_flight;
  })
  proceed_closed until ttl settles (resolved v) waiters entry completed delivered l c =
      inr (record {
        value = c.value;
        at = c.at;
        kept = c.kept;
        has_entry = c.has_entry;
        one_completed = c.one_completed;
        all_delivered = deliver-All c.value v waiters delivered c.in_flight c.all_delivered;
        in_flight = tt;
      })
  proceed_closed until ttl (fn_resolves now v) executing waiters entry completed delivered l c =
      elim c.in_flight [ ]
  proceed_closed until ttl fn_throws executing waiters entry completed delivered l c =
      elim c.in_flight [ ]
  proceed_closed until ttl settles rejected waiters entry completed delivered l c =
      elim c.in_flight [ ]
  proceed_closed until ttl _ _ waiters entry completed delivered l c = inr c

  pub happen_state :
      (start until ttl : ℕ) (event : Event V) (flight : Option (Flight V)) (entry : Option Entry)
      (completed delivered : List V)
      → until ≤ start + ttl * 1000
      → IsFrom start event
      → IsLossless codec
      → IsGood codec until (state codec flight entry completed delivered)
      → IsGood codec until (happen codec ttl event (state codec flight entry completed delivered))
  unfolding happen
  happen_state start until ttl event none entry completed delivered h b l g = g
  happen_state start until ttl event (some f) entry completed delivered h b l (inl o) =
      proceed_open start until ttl event f.phase f.waiters entry completed delivered h b o
  happen_state start until ttl event (some f) entry completed delivered h b l (inr c) =
      proceed_closed until ttl event f.phase f.waiters entry completed delivered l c
