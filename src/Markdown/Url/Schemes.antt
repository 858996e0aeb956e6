-- ===== src/Markdown/Url/Schemes.antt =====
-- What a browser can make of a destination that is let through.
use assaybank.Prelude.{
  ℕ, ◌<◌, ◌≡◌, refl, ap, true, false, not, Option, none, some, [], ◌∷◌, ◌++◌, All, keep, length,
  arith, subst, ◌∙◌,
}
use mathlib.Core.List.{reverse}
use assaybank.Prelude.Text.{Text}
use assaybank.Markdown.Url.{
  is_letter, is_scheme_char, is_stripped, scheme_rest, scheme_of, lower_case, allowed_schemes,
  is_allowed, check_scheme, check_url, normalise, drop_low, decode_entities, safe_url, starts_with,
}

-- A scheme by its grammar: a letter, then letters, digits, `+`, `-` and `.`.
abbrev pub IsScheme : Text → Type 0
IsScheme [] = ⊥
IsScheme (c ∷ s) = (is_letter c ≡ true) × All (λ d. is_scheme_char d ≡ true) s

scheme_rest-append :
    (s rest : Text)
    → All (λ d. is_scheme_char d ≡ true) s
    → scheme_rest (s ++ (b':' ∷ rest)) ≡ some s
unfolding scheme_rest
scheme_rest-append [] rest h = ground arith
scheme_rest-append (c ∷ s) rest h = ground (arith, scheme_rest-append s rest h.1)

scheme_of-append : (s rest : Text) → IsScheme s → scheme_of (s ++ (b':' ∷ rest)) ≡ some s
unfolding scheme_of
scheme_of-append [] rest h = absurd h
scheme_of-append (c ∷ s) rest h = rw (h.0, scheme_rest-append s rest h.1) refl

drop_low_first : (s : Text) (c : ℕ) (rest : Text) → drop_low s ≡ c ∷ rest → 0x20 < c
unfolding drop_low
drop_low_first [] c rest h = cc
drop_low_first (d ∷ s) c rest h = ground (arith, drop_low_first s c rest)

-- `s` is in the list of the schemes, in lower case.
abbrev pub IsAllowed : Text → Type 0
IsAllowed s = is_allowed (lower_case s) allowed_schemes ≡ true

check_scheme_ok :
    (url : Text) (scheme : Option Text) (out : Text)
    → check_scheme url scheme ≡ some out
    → (url ≡ out)
      × ((s : Text) → scheme ≡ some s → IsAllowed s)
      × (scheme ≡ none → starts_with (92 ∷ []) url ≡ false)
unfolding check_scheme
check_scheme_ok url none out h = (ground arith, λ s e. absurd (none_some s e), λ e. ground arith)
  where
    none_some : (s : Text) → ◌≡◌ {A = Option Text} none (some s) → ⊥
    none_some s e = ground arith
check_scheme_ok url (some scheme) out h =
    let a : IsAllowed scheme = ground arith in
    (ground arith, λ s e. subst IsAllowed (some-injective e) a, λ e. absurd (some_none e))
  where
    some_none : ◌≡◌ {A = Option Text} (some scheme) none → ⊥
    some_none e = ground arith

    some-injective : {s : Text} → ◌≡◌ {A = Option Text} (some scheme) (some s) → scheme ≡ s
    some-injective e = cc

check_url_ok :
    (url out : Text)
    → check_url url ≡ some out
    → (url ≡ out)
      × ((s rest : Text) → IsScheme s → url ≡ s ++ (b':' ∷ rest) → IsAllowed s)
      × (0 < length url)
unfolding check_url
check_url_ok url out h =
    let (same, allowed, _) = check_scheme_ok url (scheme_of url) out (ground arith) in
    (same, λ s rest g e. allowed s (ap scheme_of e ∙ scheme_of-append s rest g), ground arith)

-- A destination that is let through has a character, and its first one is above U+0020; and
-- if it reads as any scheme, a colon and more, the scheme is `http`, `https` or `mailto`, in
-- whatever case, so that it runs no code.
pub safe_url_ok :
    (raw url : Text)
    → safe_url raw ≡ some url
    → (0 < length url)
      × ((c : ℕ) (rest : Text) → url ≡ c ∷ rest → 0x20 < c)
      × ((s rest : Text) → IsScheme s → url ≡ s ++ (b':' ∷ rest) → IsAllowed s)
unfolding safe_url normalise
safe_url_ok raw url h =
    let (same, allowed, some_text) = check_url_ok (normalise (decode_entities raw)) url h in
    (
      subst (λ t. 0 < length t) same some_text,
      λ c rest e.
          drop_low_first
            (reverse (drop_low (reverse (keep (λ d. not (is_stripped d)) (decode_entities raw))))) c
            rest (same ∙ e),
      λ s rest g e. allowed s rest g (same ∙ e),
    )
