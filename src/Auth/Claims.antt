-- ===== src/Auth/Claims.antt =====
-- packages/auth/src/attempt-token.ts and ws-ticket.ts: what the schemas of the claims read, and the
-- instants that the claims stand for.
use assaybank.Prelude.{ℕ, Bool, false, Option, none, some, [], ◌∷◌, ltb, ◌==◌, if◌then◌else◌}
use assaybank.Prelude.Int.{pos, negsuc}
use assaybank.Prelude.Num.{whole, fraction, nonfinite}
use assaybank.Prelude.Text.{Text, eq_text}
use assaybank.Auth.Envelope.{Scalar, number, text, other_value, Claims}

-- A field of the object.
unfoldable pub field : Text → Claims → Option Scalar
unfolding eq_text
field key [] = none
field key ((k, value) ∷ claims) = if eq_text k key then some value else field key claims

abbrev pub max_safe_integer : ℕ
max_safe_integer = 9_007_199_254_740_991

-- `z.number().int().positive().max(Number.MAX_SAFE_INTEGER)`
unfoldable pub as_instant : Option Scalar → Option ℕ
as_instant (some (number (whole (pos n)))) =
    if n == 0 then none else if ltb max_safe_integer n then none else some n
as_instant (some (number (whole (negsuc n)))) = none
as_instant (some (number (fraction z))) = none
as_instant (some (number nonfinite)) = none
as_instant (some (text t)) = none
as_instant (some other_value) = none
as_instant none = none

-- `z.literal(1)`
unfoldable pub is_one : Option Scalar → Bool
is_one (some (number (whole (pos n)))) = n == 1
is_one (some (number (whole (negsuc n)))) = false
is_one (some (number (fraction z))) = false
is_one (some (number nonfinite)) = false
is_one (some (text t)) = false
is_one (some other_value) = false
is_one none = false

-- A text that passes a test.
unfoldable pub as_text : (Text → Bool) → Option Scalar → Option Text
as_text test (some (text t)) = if test t then some t else none
as_text test (some (number n)) = none
as_text test (some other_value) = none
as_text test none = none

-- The greatest time value of a `Date`, in milliseconds. Beyond it `getTime` is NaN, and every
-- comparison with it is false.
abbrev pub max_date_ms : ℕ
max_date_ms = 8_640_000_000_000_000

-- `new Date(ms).getTime()`, with `none` for NaN.
unfoldable pub get_time : ℕ → Option ℕ
get_time ms = if ltb max_date_ms ms then none else some ms
