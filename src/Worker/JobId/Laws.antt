-- ===== src/Worker/JobId/Laws.antt =====
-- A job id stands for one key, and the queue accepts it.
use assaybank.Prelude.{
  ℕ, ◌≡◌, refl, ◌≢◌, [], ◌∷◌, All, ok, ◌==◌, if◌then◌else◌, arith, sym, ◌∙◌, subst,
}
use assaybank.Prelude.Text.{Text}
use assaybank.Worker.JobId.{assert_business_key, escape, to_job_id}

-- The id has no colon, which is the queue's own separator.
abbrev pub IsColonFree : Text → Type 0
IsColonFree id = All (λ c. c ≢ b':') id

escape_nil : escape [] ≡ []
unfolding escape
escape_nil = refl

escape_char :
    (c : ℕ) (s : Text)
    → escape (c ∷ s) ≡ (
        if c == b'%'
        then b'%' ∷ b'2' ∷ b'5' ∷ escape s
        else if c == b':'
        then b'%' ∷ b'3' ∷ b'A' ∷ escape s
        else c ∷ escape s)
unfolding escape
escape_char c s = ground arith

escape-IsColonFree : (s : Text) → IsColonFree (escape s)
escape-IsColonFree [] = subst IsColonFree (sym escape_nil) tt
escape-IsColonFree (c ∷ s) = ground (arith, escape_char c s, escape-IsColonFree s)

escape_injective : (s t : Text) → escape s ≡ escape t → s ≡ t
escape_injective [] [] h = refl
escape_injective [] (d ∷ t) h = ground (arith, escape_nil, escape_char d t)
escape_injective (c ∷ s) [] h = ground (arith, escape_nil, escape_char c s)
escape_injective (c ∷ s) (d ∷ t) h =
    ground (arith, escape_char c s, escape_char d t, escape_injective s t)

to_job_id_inv : (key id : Text) → to_job_id key ≡ ok id → id ≡ escape key
unfolding to_job_id assert_business_key
to_job_id_inv key id h = ground arith

-- The job id of a key has no colon, so the queue accepts it, and no other key has that id, so no job is
-- dropped as a copy of an unrelated one.
pub to_job_id-injective :
    (key key' id : Text)
    → to_job_id key ≡ ok id
    → to_job_id key' ≡ ok id
    → IsColonFree id × (key ≡ key')
to_job_id-injective key key' id h k =
    let e = to_job_id_inv key id h in
    (
      subst IsColonFree (sym e) (escape-IsColonFree key),
      escape_injective key key' (sym e ∙ to_job_id_inv key' id k),
    )
