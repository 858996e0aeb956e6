-- ===== src/Markdown/Url/Hosts.antt =====
-- A reference that begins with two slashes names a host of its own.
use assaybank.Prelude.{
  ℕ, ◌<◌, ◌≡◌, ◌≢◌, refl, ap, false, not, none, some, List, [], ◌∷◌, ◌++◌, All, keep, ◌==◌, arith,
}
use mathlib.Core.List.{reverse, reverse-cons, reverse-reverse}
use assaybank.Prelude.Text.{Text}
use assaybank.Markdown.Url.{
  is_stripped, scheme_of, check_scheme, check_url, normalise, drop_low, decode_entities,
  decode_numeric, decode_named, replace_all, named_entities, numeric_at, safe_url,
}

-- A character that no reference begins with, and that is not dropped.
abbrev pub IsPlain : ℕ → Type 0
IsPlain c = (c ≢ b'&') × (0x20 < c)

numeric_at-plain : (a : ℕ) (s : Text) → a ≢ b'&' → numeric_at (a ∷ s) ≡ none
unfolding numeric_at
numeric_at-plain a [] h = refl
numeric_at-plain a (b ∷ []) h = refl
numeric_at-plain a (b ∷ (c ∷ s)) h = let e : (a == b'&') ≡ false = ground arith in rw e refl

decode_numeric-plain : (s : Text) → All IsPlain s → decode_numeric 0 s ≡ s
unfolding decode_numeric
decode_numeric-plain [] h = refl
decode_numeric-plain (a ∷ s) h =
    rw (numeric_at-plain a s h.0.0) (ap (λ t. a ∷ t) (decode_numeric-plain s h.1))

replace_all-plain :
    (entity : Text) (char : ℕ) (s : Text) → All IsPlain s → replace_all (b'&' ∷ entity) char 0 s ≡ s
unfolding replace_all
replace_all-plain entity char [] h = refl
replace_all-plain entity char (c ∷ s) h =
    let e : (b'&' == c) ≡ false = ground (arith, h.0.0) in
    rw e (ap (λ t. c ∷ t) (replace_all-plain entity char s h.1))

-- Every reference in the list begins with an ampersand.
abbrev IsNamed : List (Text × ℕ) → Type 0
IsNamed [] = Unit
IsNamed (([], char) ∷ entities) = ⊥
IsNamed ((a ∷ entity, char) ∷ entities) = (a ≡ b'&') × IsNamed entities

decode_named-plain :
    (entities : List (Text × ℕ)) (s : Text)
    → IsNamed entities
    → All IsPlain s
    → decode_named entities s ≡ s
unfolding decode_named
decode_named-plain [] s n h = refl
decode_named-plain (([], char) ∷ entities) s n h = absurd n
decode_named-plain ((a ∷ entity, char) ∷ entities) s n h =
    rw (n.0, replace_all-plain entity char s h) (decode_named-plain entities s n.1 h)

decode_entities-plain : (s : Text) → All IsPlain s → decode_entities s ≡ s
unfolding decode_entities
decode_entities-plain s h =
    rw (decode_numeric-plain s h) (decode_named-plain named_entities s (omega arith) h)

keep-plain : (s : Text) → All IsPlain s → keep (λ c. not (is_stripped c)) s ≡ s
keep-plain [] h = refl
keep-plain (c ∷ s) h = ground (arith, keep-plain s h.1)

drop_low-plain : (s : Text) → All IsPlain s → drop_low s ≡ s
unfolding drop_low
drop_low-plain [] h = refl
drop_low-plain (c ∷ s) h = ground arith

All-append : (s t : Text) → All IsPlain s → All IsPlain t → All IsPlain (s ++ t)
All-append [] t h k = k
All-append (c ∷ s) t h k = (h.0, All-append s t h.1 k)

All-reverse : (s : Text) → All IsPlain s → All IsPlain (reverse s)
All-reverse [] h = tt
All-reverse (c ∷ s) h =
    rw (reverse-cons c s) (All-append (reverse s) (c ∷ []) (All-reverse s h.1) (h.0, tt))

normalise-plain : (s : Text) → All IsPlain s → normalise s ≡ s
unfolding normalise
normalise-plain s h =
    rw (keep-plain s h, drop_low-plain (reverse s) (All-reverse s h), reverse-reverse s)
      (drop_low-plain s h)

-- A destination of two slashes and plain characters is let through as it is, though a browser resolves
-- it against the host that follows the slashes and not against the page's own origin.
pub safe_url-host :
    (host : Text) → All IsPlain host → safe_url (b'/' ∷ b'/' ∷ host) ≡ some (b'/' ∷ b'/' ∷ host)
unfolding safe_url check_url scheme_of check_scheme
safe_url-host host h =
    let p : All IsPlain (b'/' ∷ b'/' ∷ host) = (
      ((λ e. absurd (omega arith)), omega arith),
      (((λ e. absurd (omega arith)), omega arith), h),
    ) in
    rw (decode_entities-plain (b'/' ∷ b'/' ∷ host) p, normalise-plain (b'/' ∷ b'/' ∷ host) p)
      (ground arith)
