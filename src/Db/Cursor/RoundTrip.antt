-- ===== src/Db/Cursor/RoundTrip.antt =====
-- A cursor is read back.
use assaybank.Prelude.{
  ℕ, ◌+◌, ◌≤◌, ◌≡◌, ◌≢◌, ◌↔◌, refl, sym, ap, ◌∙◌, Bool, true, false, not, ◌&&◌, ◌||◌, Option, none,
  some, List, [], ◌∷◌, zero, suc, arith, Bool-cases, inl, inr, length, length-append, subst, ◌==◌,
  ltb, if◌then◌else◌,
}
use assaybank.Prelude.Text.{Text}
use assaybank.Prelude.Parts.{Lacks, cut, cut-append}
use assaybank.Db.Cursor.{
  Keyset, bar, max_payload_length, CharClass, digit, sign_char, exactly, accepts, after, then_match,
  is_end, uuid_pattern, is_uuid, seconds_pattern, skip_digits, after_fraction, after_minutes,
  is_timestamp, payload, encode_keyset_cursor, checked, decode_keyset_cursor,
}

-- No class of the pattern has the separator.
avoids : List CharClass → Bool
avoids [] = true
avoids (p ∷ ps) = not (accepts p bar) && avoids ps

-- The text has at most `n` characters more than the rest, and none of them is the separator.
IsBefore : ℕ → Text → Text → Type 0
IsBefore n s rest = (Lacks bar rest → Lacks bar s) × (length s ≤ n + length rest)

IsBefore-trans : (n m : ℕ) (s t r : Text) → IsBefore n s t → IsBefore m t r → IsBefore (n + m) s r
unfolding IsBefore
IsBefore-trans n m s t r h g = ((λ l. h.0 (g.0 l)), omega (arith, h.1, g.1))

IsBefore-cons : (n : ℕ) (c : ℕ) (s r : Text) → c ≢ bar → IsBefore n s r → IsBefore (suc n) (c ∷ s) r
unfolding IsBefore Lacks
IsBefore-cons n c s r b h = ((λ l. (b, h.0 l)), omega (arith, h.1))

IsBefore-refl : (n : ℕ) (s r : Text) → s ≡ r → IsBefore n s r
unfolding IsBefore
IsBefore-refl n s r e = ((λ l. subst (λ t. Lacks bar t) (sym e) l), ground (arith, e))

accepts-bar : (p : CharClass) (c : ℕ) → not (accepts p bar) ≡ true → accepts p c ≡ true → c ≢ bar
accepts-bar p c b a e = let same : accepts p c ≡ accepts p bar = ap (λ d. accepts p d) e in cc

after_lem :
    (ps : List CharClass) (s r : Text)
    → avoids ps ≡ true
    → after ps s ≡ some r
    → IsBefore (length ps) s r
unfolding after avoids
after_lem [] s r v h = IsBefore-refl 0 s r (ground arith)
after_lem (p ∷ ps) [] r v h = cc
after_lem (p ∷ ps) (c ∷ s) r v h = elim (Bool-cases (accepts p c)) [
  | inl a ↦
      IsBefore-cons (length ps) c s r (accepts-bar p c (ground arith) a)
        (after_lem ps s r (ground arith) (ground (arith, a)))
  | inr a ↦ absurd (ground (arith, a))
]

skip_digits_lem : (n : ℕ) (s : Text) → IsBefore n s (skip_digits n s)
unfolding skip_digits
skip_digits_lem zero s = IsBefore-refl 0 s s refl
skip_digits_lem (suc n) [] = IsBefore-refl (suc n) [] [] refl
skip_digits_lem (suc n) (c ∷ s) = elim (Bool-cases (accepts digit c)) [
  | inl a ↦
      subst (λ t. IsBefore (suc n) (c ∷ s) t) (ground (arith, a))
        (IsBefore-cons n c s (skip_digits n s) (accepts-bar digit c (ground arith) a)
          (skip_digits_lem n s))
  | inr a ↦ IsBefore-refl (suc n) (c ∷ s) _ (ground (arith, a))
]

then_match-some :
    (o : Option Text) (next : Text → Option Text) (r : Text)
    → then_match o next ≡ some r
    → (s : Text) × (o ≡ some s) × (next s ≡ some r)
then_match-some none next r h = cc
then_match-some (some s) next r h = (s, refl, h)

is_end-some : (o : Option Text) → is_end o ≡ true → o ≡ some []
is_end-some none h = cc
is_end-some (some []) h = refl
is_end-some (some (c ∷ s)) h = cc

after_fraction_lem : (s r : Text) → after_fraction s ≡ some r → IsBefore 7 s r
unfolding after_fraction avoids
after_fraction_lem [] r h = IsBefore-refl 7 [] r (ground arith)
after_fraction_lem (c ∷ s) r h = elim (Bool-cases (c == b'.')) [
  | inl dot ↦
      let (t, first, rest) =
        then_match-some (after (digit ∷ []) s) (λ t. some (skip_digits 5 t)) r
          (ground (arith, dot)) in
      IsBefore-cons 6 c s r (ground (arith, dot)) (
        IsBefore-trans 1 5 s t r (after_lem (digit ∷ []) s t refl first)
          (subst (λ u. IsBefore 5 t u) (ground arith) (skip_digits_lem 5 t)))
  | inr other ↦ IsBefore-refl 7 (c ∷ s) r (ground (arith, other))
]

after_minutes_lem : (s r : Text) → after_minutes s ≡ some r → IsBefore 3 s r
unfolding after_minutes avoids
after_minutes_lem [] r h = IsBefore-refl 3 [] r (ground arith)
after_minutes_lem (c ∷ s) r h = after_lem (exactly b':' ∷ digit ∷ digit ∷ []) (c ∷ s) r refl h

is_timestamp_lem : (s : Text) → is_timestamp s ≡ true → IsBefore 32 s []
unfolding is_timestamp avoids
is_timestamp_lem s h =
    let (zone, zoned, minutes) = then_match-some _ after_minutes [] (is_end-some _ h) in
    let (fraction, seconds, sign) =
      then_match-some _ (after (sign_char ∷ digit ∷ digit ∷ [])) zone zoned in
    let (rest, start, split) = then_match-some _ after_fraction fraction seconds in
    IsBefore-trans 19 13 s rest [] (after_lem seconds_pattern s rest refl start) (
      IsBefore-trans 7 6 rest fraction [] (after_fraction_lem rest fraction split) (
        IsBefore-trans 3 3 fraction zone []
          (after_lem (sign_char ∷ digit ∷ digit ∷ []) fraction zone refl sign)
          (after_minutes_lem zone [] minutes)))

is_uuid_lem : (s : Text) → is_uuid s ≡ true → IsBefore 36 s []
unfolding is_uuid avoids
is_uuid_lem s h = after_lem uuid_pattern s [] refl (is_end-some _ h)

guard_some :
    (a b : Bool) (k l : Keyset)
    → (if not a || not b then none else some k) ≡ some l
    → (a ≡ true) × (b ≡ true) × (k ≡ l)
guard_some true true k l h = (refl, refl, ground arith)
guard_some true false k l h = cc
guard_some false b k l h = cc

pub checked-some :
    (parts : Option (Text × Text)) (k : Keyset)
    → checked parts ≡ some k
    → (is_timestamp k.at ≡ true) × (is_uuid k.id ≡ true)
unfolding checked
checked-some none k h = cc
checked-some (some ([], id)) k h = cc
checked-some (some (c ∷ at, id)) k h =
    let (t, u, e) = guard_some (is_timestamp (c ∷ at)) (is_uuid id) _ k h in
    (subst (λ l. is_timestamp l.at ≡ true) e t, subst (λ l. is_uuid l.id ≡ true) e u)

no_timestamp : is_timestamp [] ≢ true
unfolding is_timestamp
no_timestamp h = cc

checked-is_timestamp :
    (at id : Text)
    → is_timestamp at ≡ true
    → is_uuid id ≡ true
    → checked (some (at, id)) ≡ some (record { at = at; id = id })
unfolding checked
checked-is_timestamp [] id t u = absurd (no_timestamp t)
checked-is_timestamp (c ∷ at) id t u = rw (t, u) refl

length_payload :
    (k : Keyset)
    → is_timestamp k.at ≡ true
    → is_uuid k.id ≡ true
    → (length (payload k) == 0 || ltb max_payload_length (length (payload k))) ≡ false
unfolding IsBefore
length_payload k t u =
    let a = is_timestamp_lem k.at t in
    let i = is_uuid_lem k.id u in
    let n = length-append k.at (bar ∷ k.id) in ground (arith, a.1, i.1, n)

decode-cut :
    (of_base64url : Text → Text) (cursor decoded : Text)
    → of_base64url cursor ≡ decoded
    → (length decoded == 0 || ltb max_payload_length (length decoded)) ≡ false
    → decode_keyset_cursor of_base64url cursor ≡ checked (cut bar decoded)
unfolding decode_keyset_cursor
decode-cut of_base64url cursor decoded e s = rw (e, s) refl

decode_keyset_cursor-some :
    (of_base64url : Text → Text) (cursor : Text) (k : Keyset)
    → decode_keyset_cursor of_base64url cursor ≡ some k
    → checked (cut bar (of_base64url cursor)) ≡ some k
unfolding decode_keyset_cursor
decode_keyset_cursor-some of_base64url cursor k h = ground arith

-- If the conversions give the payload back, a cursor is decoded to the keyset it was made of exactly
-- when its sort key has the shape of a timestamp and its id that of a UUID.
pub decode-encode_keyset_iff :
    (to_base64url of_base64url : Text → Text) (k : Keyset)
    → of_base64url (to_base64url (payload k)) ≡ payload k
    → (decode_keyset_cursor of_base64url (encode_keyset_cursor to_base64url k) ≡ some k)
      ↔ ((is_timestamp k.at ≡ true) × (is_uuid k.id ≡ true))
unfolding encode_keyset_cursor IsBefore Lacks
decode-encode_keyset_iff to_base64url of_base64url k e = (
  λ h. checked-some _ k (decode_keyset_cursor-some of_base64url _ k h),
  λ h.
      decode-cut of_base64url (to_base64url (payload k)) (payload k) e (length_payload k h.0 h.1)
      ∙ (ap checked (cut-append bar k.at k.id ((is_timestamp_lem k.at h.0).0 tt))
          ∙ checked-is_timestamp k.at k.id h.0 h.1),
)
