-- ===== src/Prelude/Parts.antt =====
-- Texts that are split at a separator, and joined again.
use Prim.Native.Nat.{ℕ}
use mathlib.Core.Path.{◌≡◌, refl, sym, ap, ◌∙◌}
use mathlib.Core.Logic.{◌≢◌, inl, inr}
use mathlib.Core.Bool.{Bool, true, false}
use mathlib.Core.List.{List, [], ◌∷◌, ◌++◌}
use mathlib.Core.Option.{Option, none, some}
use native.Mathlib.Omega.{arith}
use assaybank.Prelude.Tests.{◌==◌, if◌then◌else◌, Bool-cases}
use assaybank.Prelude.Text.{Text}

-- A code unit before the parts of what follows it.
unfoldable pub split_step : ℕ → ℕ → List Text → List Text
split_step separator c [] = (c ∷ []) ∷ []
split_step separator c (part ∷ parts) =
    if c == separator then [] ∷ (part ∷ parts) else (c ∷ part) ∷ parts

-- `String.prototype.split` with a separator of one code unit: the parts are never none.
unfoldable pub split_on : ℕ → Text → List Text
unfolding split_step
split_on separator [] = [] ∷ []
split_on separator (c ∷ s) = split_step separator c (split_on separator s)

-- `Array.prototype.join` on the parts.
unfoldable pub join_with : ℕ → List Text → Text
join_with separator [] = []
join_with separator (part ∷ []) = part
join_with separator (part ∷ (next ∷ parts)) =
    part ++ (separator ∷ join_with separator (next ∷ parts))

-- No code unit of the text is `c`.
unfoldable pub Lacks : ℕ → Text → Type 0
Lacks c [] = Unit
Lacks c (a ∷ s) = (a ≢ c) × Lacks c s

if_cons :
    (b : Bool) (s : Text) (l : List Text) (t : Text) (m : List Text)
    → (part : Text) × (rest : List Text) × ((if b then s ∷ l else t ∷ m) ≡ part ∷ rest)
if_cons true s l t m = (s, l, refl)
if_cons false s l t m = (t, m, refl)

split_step_cons :
    (separator c : ℕ) (parts : List Text)
    → (part : Text) × (rest : List Text) × (split_step separator c parts ≡ part ∷ rest)
unfolding split_step
split_step_cons separator c [] = (c ∷ [], [], refl)
split_step_cons separator c (part ∷ parts) =
    if_cons (c == separator) [] (part ∷ parts) (c ∷ part) parts

-- There is always a first part.
split_on_cons :
    (separator : ℕ) (s : Text)
    → (part : Text) × (parts : List Text) × (split_on separator s ≡ part ∷ parts)
unfolding split_on split_step
split_on_cons separator [] = ([], [], refl)
split_on_cons separator (c ∷ s) = split_step_cons separator c (split_on separator s)

pub split_on-append :
    (separator : ℕ) (part s : Text)
    → Lacks separator part
    → split_on separator (part ++ (separator ∷ s)) ≡ part ∷ split_on separator s
unfolding split_on split_step Lacks
split_on-append separator [] s h = let c = split_on_cons separator s in ground (arith, c.2)
split_on-append separator (c ∷ part) s h = ground (arith, split_on-append separator part s h.1)

pub split_on-Lacks :
    (separator : ℕ) (part : Text) → Lacks separator part → split_on separator part ≡ part ∷ []
unfolding split_on split_step Lacks
split_on-Lacks separator [] h = refl
split_on-Lacks separator (c ∷ part) h = ground (arith, split_on-Lacks separator part h.1)

join_with-split_step :
    (separator c : ℕ) (parts : List Text)
    → join_with separator (split_step separator c parts) ≡ c ∷ join_with separator parts
unfolding join_with split_step
join_with-split_step separator c [] = refl
join_with-split_step separator c (part ∷ []) = ground arith
join_with-split_step separator c (part ∷ (next ∷ parts)) = ground arith

-- The parts, joined, are the text.
pub join_with-split_on : (separator : ℕ) (s : Text) → join_with separator (split_on separator s) ≡ s
unfolding split_on join_with
join_with-split_on separator [] = refl
join_with-split_on separator (c ∷ s) =
    join_with-split_step separator c (split_on separator s)
    ∙ ap (λ t. c ∷ t) (join_with-split_on separator s)

abbrev push_front : ℕ → Option (Text × Text) → Option (Text × Text)
push_front c none = none
push_front c (some parts) = some (c ∷ parts.0, parts.1)

-- What stands before and after the first `c`, as `indexOf` and `slice` give them.
unfoldable pub cut : ℕ → Text → Option (Text × Text)
cut c [] = none
cut c (a ∷ s) = let rest = cut c s in if a == c then some ([], s) else push_front a rest

push_front-some :
    (c : ℕ) (found : Option (Text × Text)) (before after : Text)
    → push_front c found ≡ some (before, after)
    → (rest : Text) × (found ≡ some (rest, after)) × (before ≡ c ∷ rest)
push_front-some c none before after h = cc
push_front-some c (some (rest, tail)) before after h = (rest, ground arith, ground arith)

-- What was cut is the text.
pub cut-some :
    (c : ℕ) (s before after : Text) → cut c s ≡ some (before, after) → s ≡ before ++ (c ∷ after)
unfolding cut
cut-some c [] before after h = cc
cut-some c (a ∷ s) before after h = elim (Bool-cases (a == c)) [
  | inl here ↦ ground (arith, here)
  | inr later ↦
      let (rest, found, begins) =
        push_front-some a (cut c s) before after (ground (arith, later)) in
      ap (λ t. a ∷ t) (cut-some c s rest after found) ∙ sym (ap (λ t. t ++ (c ∷ after)) begins)
]

pub cut-append :
    (c : ℕ) (before after : Text)
    → Lacks c before
    → cut c (before ++ (c ∷ after)) ≡ some (before, after)
unfolding cut Lacks
cut-append c [] after h = ground arith
cut-append c (a ∷ before) after h = ground (arith, cut-append c before after h.1)
