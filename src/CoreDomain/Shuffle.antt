-- ===== src/CoreDomain/Shuffle.antt =====
-- packages/core-domain/src/shuffle.ts. The generator is the source of its numbers: of the k-th one
-- the code sees whether it is finite and not negative, and the floor of its product with a length.
-- Both are the caller's, so nothing is assumed of the numbers or of their arithmetic.
use mathlib.Core.List.{Perm}
use mathlib.Core.List.Perm
use mathlib.Core.List
use native.Mathlib.Bridge.{from_ℕ}
use assaybank.Prelude.{
  ℕ, zero, suc, ◌-◌, ◌≤◌, ◌<◌, ◌≡◌, refl, ap, Bool, List, [], ◌∷◌, ◌++◌, length, leb, if◌then◌else◌,
  arith,
}

pub record Rng : Type 0 where
  pub is_usable : ℕ → Bool
  pub floor_times : ℕ → ℕ → ℕ

-- The index for the k-th draw.
unfoldable pub bounded_index : Rng → ℕ → ℕ → ℕ
bounded_index rng k len =
    if rng.is_usable k
    then (if leb len (rng.floor_times k len) then len - 1 else rng.floor_times k len)
    else 0

-- The index is in range whatever was drawn.
bounded_index-lt : (rng : Rng) (k len : ℕ) → 0 < len → bounded_index rng k len < len
unfolding bounded_index
bounded_index-lt rng k len h = ground arith

module _ {ℓ} {A : Type ℓ} where
  -- `splice(i, 1)`: what is removed, and what stays.
  unfoldable pub splice : ℕ → List A → List A × List A
  splice i [] = ([], [])
  splice zero (x ∷ xs) = (x ∷ [], xs)
  splice (suc i) (x ∷ xs) = let cut = splice i xs in (cut.0, x ∷ cut.1)

  -- The loop on the pool that is left, after `k` draws.
  unfoldable pub shuffle_loop : Rng → ℕ → ℕ → List A → List A
  unfolding splice bounded_index
  shuffle_loop rng zero k pool = []
  shuffle_loop rng (suc rounds) k [] = []
  shuffle_loop rng (suc rounds) k (x ∷ xs) =
      let cut = splice (bounded_index rng k (length (x ∷ xs))) (x ∷ xs) in
      cut.0 ++ shuffle_loop rng rounds (suc k) cut.1

  -- Each round removes one entry, so as many rounds as entries are enough.
  unfoldable pub shuffle_with : Rng → List A → List A
  unfolding shuffle_loop
  shuffle_with rng items = shuffle_loop rng (length items) 0 items

  unfoldable pub shuffle_options : Rng → List A → List A
  unfolding shuffle_with
  shuffle_options rng options = shuffle_with rng options

  splice_parts :
      (i : ℕ) (xs : List A)
      → i < length xs
      → (a : A) × (ys : List A) × (splice i xs ≡ (a ∷ [], ys))
        × Perm xs (a ∷ ys)
        × (length xs ≡ suc (length ys))
  unfolding splice
  splice_parts i [] h = elim h [ ]
  splice_parts zero (x ∷ xs) h = (x, xs, refl, Perm.refl _, refl)
  splice_parts (suc i) (x ∷ xs) h =
      let (a, ys, e, p, n) = splice_parts i xs (omega arith) in
      (a, x ∷ ys, rw e, Perm.trans (Perm.cons x p) (Perm.swap a x ys), ap suc n)

  shuffle_loop-Perm :
      (rng : Rng) (rounds k : ℕ) (pool : List A)
      → length pool ≤ rounds
      → Perm (shuffle_loop rng rounds k pool) pool
  unfolding shuffle_loop
  shuffle_loop-Perm rng zero k [] h = Perm.refl []
  shuffle_loop-Perm rng zero k (x ∷ xs) h = absurd (omega arith)
  shuffle_loop-Perm rng (suc rounds) k [] h = Perm.refl []
  shuffle_loop-Perm rng (suc rounds) k (x ∷ xs) h =
      let (a, ys, e, p, n) =
        splice_parts (bounded_index rng k (length (x ∷ xs))) (x ∷ xs)
          (bounded_index-lt rng k (length (x ∷ xs)) (omega arith)) in
      rw e (
        Perm.trans (Perm.cons a (shuffle_loop-Perm rng rounds (suc k) ys (omega arith)))
          (Perm.symm p))

  -- Whatever the generator returns, a shuffle ends with every entry of its input, as often as there.
  pub shuffle_with-Perm : (rng : Rng) (items : List A) → Perm (shuffle_with rng items) items
  unfolding shuffle_with
  shuffle_with-Perm rng items = shuffle_loop-Perm rng (length items) 0 items (omega arith)

  from_ℕ-length : (xs : List A) → from_ℕ (List.length xs) ≡ length xs
  from_ℕ-length [] = refl
  from_ℕ-length (x ∷ xs) = ap suc (from_ℕ-length xs)

  pub length-shuffle_with :
      (rng : Rng) (items : List A) → length (shuffle_with rng items) ≡ length items
  length-shuffle_with rng items = omega (
    arith,
    from_ℕ-length (shuffle_with rng items),
    from_ℕ-length items,
    ap from_ℕ (Perm.length-eq (shuffle_with-Perm rng items)),
  )
