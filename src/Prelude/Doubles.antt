-- ===== src/Prelude/Doubles.antt =====
-- The doubles that are not negative, as quotients of whole numbers, and the rounding of an exact
-- result to a double, which is a parameter of the code that computes with them.
use Prim.Native.Nat.{ℕ, ◌-◌, ◌*◌, ◌≤◌, ◌<◌}
use native.Mathlib.Omega.{arith}
use mathlib.Core.Path.{◌≡◌, refl}

pub record Ratio : Type 0 where
  pub num : ℕ
  pub den : ℕ

-- 2 ^ 53: whole numbers below it are doubles.
abbrev pub exact_below : ℕ
exact_below = 9_007_199_254_740_992

-- What IEEE 754 says of rounding to nearest, in the range from 1 to 2 ^ 53 for the error: the order
-- is kept, whole numbers are kept, and the result is below the exact value by at most one part in
-- 2 ^ 53.
pub record IsRounding (round : Ratio → Ratio) : Type 0 where
  pub positive : (r : Ratio) → 0 < r.den → 0 < (round r).den
  pub monotone :
      (r s : Ratio)
      → 0 < r.den
      → 0 < s.den
      → r.num * s.den ≤ s.num * r.den
      → (round r).num * (round s).den ≤ (round s).num * (round r).den
  pub whole :
      (n : ℕ)
      → n < exact_below
      → (round (record { num = n; den = 1 })).num ≡ n * (round (record { num = n; den = 1 })).den
  pub accurate :
      (r : Ratio)
      → 0 < r.den
      → r.den ≤ r.num
      → r.num < exact_below * r.den
      → r.num * (exact_below - 1) * (round r).den ≤ (round r).num * exact_below * r.den

le_of_mul : (a b c : ℕ) → 0 < c → a * c ≤ b * c → a ≤ b
le_of_mul a b c h k = grind arith

cross_above : (k n d n' d' : ℕ) → 0 < d' → n' ≡ k * d' → n' * d ≤ n * d' → k * d ≤ n
cross_above k n d n' d' p e h =
    let e' : n' * d ≡ k * d' * d = rw e refl in
    let same : k * d' * d ≡ k * d * d' = omega arith in
    le_of_mul (k * d) n d' p (omega (arith, h, e', same))

cross_below : (k n d n' d' : ℕ) → 0 < d' → n' ≡ k * d' → n * d' ≤ n' * d → n ≤ k * d
cross_below k n d n' d' p e h =
    let e' : n' * d ≡ k * d' * d = rw e refl in
    let same : k * d' * d ≡ k * d * d' = omega arith in
    le_of_mul n (k * d) d' p (omega (arith, h, e', same))

-- What is at least a whole number is rounded to at least that.
pub round_above :
    (round : Ratio → Ratio) (k : ℕ) (r : Ratio)
    → IsRounding round
    → k < exact_below
    → 0 < r.den
    → k * r.den ≤ r.num
    → k * (round r).den ≤ (round r).num
round_above round k r h b p l =
    let w = round (record { num = k; den = 1 }) in
    let e = h.whole k b in
    let q = h.positive (record { num = k; den = 1 }) (omega arith) in
    let m = h.monotone (record { num = k; den = 1 }) r (omega arith) p (omega (arith, l)) in
    cross_above k (round r).num (round r).den w.num w.den q e m

-- What is at most a whole number is rounded to at most that.
pub round_below :
    (round : Ratio → Ratio) (k : ℕ) (r : Ratio)
    → IsRounding round
    → k < exact_below
    → 0 < r.den
    → r.num ≤ k * r.den
    → (round r).num ≤ k * (round r).den
round_below round k r h b p l =
    let w = round (record { num = k; den = 1 }) in
    let e = h.whole k b in
    let q = h.positive (record { num = k; den = 1 }) (omega arith) in
    let m = h.monotone r (record { num = k; den = 1 }) p (omega arith) (omega (arith, l)) in
    cross_below k (round r).num (round r).den w.num w.den q e m

-- Arithmetic without any rounding.
abbrev pub exact : Ratio → Ratio
exact r = r

-- The conditions on a rounding can hold.
pub exact-IsRounding : IsRounding exact
exact-IsRounding = record {
  positive = λ r h. h;
  monotone = λ r s h k l. l;
  whole = λ n h. omega arith;
  accurate = λ r h k l. grind arith;
}
