-- ===== src/Prelude/Num.antt =====
-- A JavaScript number as the guards of the program see it: a whole number, another finite number
-- (given by its floor), or one of NaN and the infinities.
use mathlib.Core.Bool.{Bool, true, false}
use Prim.Native.Nat.{ℕ}
use assaybank.Prelude.Int.{ℤ, pos, negsuc, ltb_ℤ}

pub data Num : Type 0 where
  whole : ℤ → Num
  fraction : ℤ → Num
  nonfinite : Num

-- `Number.isInteger`.
abbrev pub is_integer : Num → Bool
is_integer (whole z) = true
is_integer (fraction z) = false
is_integer nonfinite = false

-- `Number.isFinite`.
abbrev pub is_finite : Num → Bool
is_finite (whole z) = true
is_finite (fraction z) = true
is_finite nonfinite = false

abbrev pub nat : ℕ → Num
nat n = whole (pos n)

-- `x < 0` for a finite `x`.
abbrev pub is_negative : Num → Bool
is_negative (whole (pos n)) = false
is_negative (whole (negsuc n)) = true
is_negative (fraction (pos n)) = false
is_negative (fraction (negsuc n)) = true
is_negative nonfinite = false

-- `x < y` for integers; the program makes such a test only behind `Number.isInteger`.
abbrev pub lt_num : Num → Num → Bool
lt_num (whole a) (whole b) = ltb_ℤ a b
lt_num _ _ = false

-- The natural number that a non-negative integer is.
abbrev pub to_nat : Num → ℕ
to_nat (whole (pos n)) = n
to_nat _ = 0
