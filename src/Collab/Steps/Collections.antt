-- ===== src/Collab/Steps/Collections.antt =====
-- The sets of peers and the map of the rooms.
use assaybank.Prelude.{
  ℕ, ◌≡◌, refl, true, false, none, some, List, [], ◌∷◌, ◌==◌, if◌then◌else◌, arith, length,
}
use assaybank.Prelude.Text.{Text, eq_text, eq_text_iff}
use assaybank.Collab.Rooms.{has, add, delete, find, enter, remove}

pub has-add : (p q : ℕ) (l : List ℕ) → has q (add p l) ≡ (if p == q then true else has q l)
unfolding has add
has-add p q [] = refl
has-add p q (r ∷ l) = ground (arith, has-add p q l)

pub has-delete : (p q : ℕ) (l : List ℕ) → has q (delete p l) ≡ (if p == q then false else has q l)
unfolding has delete
has-delete p q [] = ground arith
has-delete p q (r ∷ l) = ground (arith, has-delete p q l)

-- A set with no peer is empty.
pub has_none : (l : List ℕ) → ((p : ℕ) → has p l ≡ false) → l ≡ []
unfolding has
has_none [] h = refl
has_none (p ∷ l) h = let e = h p in ground arith

pub find-enter :
    (key other : Text) (room : ℕ) (rooms : List (Text × ℕ))
    → find other (enter key room rooms)
      ≡ (if eq_text key other then some room else find other rooms)
unfolding find enter
find-enter key other room [] = refl
find-enter key other room ((k, old) ∷ rooms) = ground (
  arith,
  eq_text_iff k key,
  eq_text_iff k other,
  eq_text_iff key other,
  find-enter key other room rooms,
)

pub find-remove :
    (key other : Text) (rooms : List (Text × ℕ))
    → find other (remove key rooms) ≡ (if eq_text key other then none else find other rooms)
unfolding find remove
find-remove key other [] = ground arith
find-remove key other ((k, old) ∷ rooms) = ground (
  arith,
  eq_text_iff k key,
  eq_text_iff k other,
  eq_text_iff key other,
  find-remove key other rooms,
)

pub length_zero : (l : List ℕ) → length l ≡ 0 → l ≡ []
length_zero [] h = refl
length_zero (p ∷ l) h = ground arith
