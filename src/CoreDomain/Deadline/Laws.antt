-- ===== src/CoreDomain/Deadline/Laws.antt =====
-- The deadline favours the candidate, and the displayed seconds agree with the decision.
use assaybank.Prelude.{◌-◌, ℕ, suc, ◌+◌, ◌*◌, ◌≤◌, ◌<◌, ◌≡◌, ◌↔◌, true, some, ok, arith}
use assaybank.Prelude.Doubles.{Ratio, IsRounding, exact_below, round_above, round_below}
use assaybank.Prelude.Int.{pos}
use assaybank.Prelude.Num.{nat}
use assaybank.CoreDomain.Deadline.{
  total_seconds, Date, date_of, ratio, max_duration_seconds, max_extra_time_pct, ceil_div, factor,
  product, quotient, compute_deadline, is_past_deadline, seconds_remaining,
}

-- `ceil_div a b` is the least number of `b`s that cover `a`.
ceil_div_bounds : (a b : ℕ) → 0 < b → (a ≤ ceil_div a b * b) × (ceil_div a b * b < a + b)
unfolding ceil_div
ceil_div_bounds a b h = grind arith

le_of_mul_le : (a b c : ℕ) → 0 < c → a * c ≤ b * c → a ≤ b
le_of_mul_le a b c h k = grind arith

mul_le : (a b c : ℕ) → a ≤ b → c * a ≤ c * b
mul_le a b c h = grind arith

-- The least number that covers a quotient is below every whole number that does.
ceil_div_le : (a b k : ℕ) → 0 < b → a ≤ k * b → ceil_div a b ≤ k
unfolding ceil_div
ceil_div_le a b k h l = grind arith

-- A multiple of the denominators, through the middle one.
through : (n d m e k : ℕ) → 0 < e → n * e ≤ m * d → m ≤ k * e → n ≤ k * d
through n d m e k h l g =
    let mid : d * m ≤ d * (k * e) = mul_le m (k * e) d g in
    le_of_mul_le n (k * d) e h (omega (arith, l, mid))

scaled : (b k n d : ℕ) → n ≤ b * d → b ≤ k * 100 → n ≤ k * (100 * d)
scaled b k n d h l = let g = mul_le b (k * 100) d l in omega (arith, h, g)

enough : (n a : ℕ) → 0 < n → 100 ≤ n * (100 + a)
enough n a h = grind arith

within : (p q b : ℕ) → p ≤ b * q → b ≤ 1000 → p ≤ 1000 * q
within p q b h l = let g = mul_le b 1000 q l in omega (arith, h, g)

below_hundred :
    (x k n d : ℕ)
    → 0 < d
    → x < exact_below
    → n ≤ k * d
    → x * (exact_below - 1) * d ≤ n * exact_below * 100
    → x ≤ k * 100
below_hundred x k n d h top le acc =
    let bound : x * (exact_below - 1) ≤ k * exact_below * 100 =
      le_of_mul_le (x * (exact_below - 1)) (k * exact_below * 100) d h (omega (arith, le, acc)) in
    omega (arith, bound, top)

module _ (round : Ratio → Ratio) (h : IsRounding round) where
  factor_bounds :
      (p q a b : ℕ)
      → a * suc q ≤ p
      → p ≤ b * suc q
      → b ≤ max_extra_time_pct
      → (0 < (factor round p (suc q)).den)
        × ((100 + a) * (factor round p (suc q)).den ≤ (factor round p (suc q)).num)
        × ((factor round p (suc q)).num ≤ (100 + b) * (factor round p (suc q)).den)
  factor_bounds p q a b lo hi top =
      let r : Ratio = record { num = 100 * suc q + p; den = suc q } in
      let le : a ≤ b = grind arith in
      (
        h.positive r (omega arith),
        round_above round (100 + a) r h (omega arith) (omega arith) (grind arith),
        round_below round (100 + b) r h (omega arith) (omega arith) (grind arith),
      )

  product_bounds :
      (duration a b : ℕ) (f : Ratio)
      → duration ≤ max_duration_seconds
      → a ≤ b
      → b ≤ max_extra_time_pct
      → 0 < f.den
      → (100 + a) * f.den ≤ f.num
      → f.num ≤ (100 + b) * f.den
      → (0 < (product round duration f).den)
        × (duration * (100 + a) * (product round duration f).den ≤ (product round duration f).num)
        × ((product round duration f).num ≤ duration * (100 + b) * (product round duration f).den)
  product_bounds duration a b f long le top den_pos lo hi =
      let r : Ratio = record { num = duration * f.num; den = f.den } in
      let small : duration * (100 + b) < exact_below =
        omega (arith, mul_le (100 + b) 1100 duration (omega arith)) in
      let smaller : duration * (100 + a) ≤ duration * (100 + b) =
        mul_le (100 + a) (100 + b) duration (omega arith) in
      let l = mul_le ((100 + a) * f.den) f.num duration lo in
      let u = mul_le f.num ((100 + b) * f.den) duration hi in
      (
        h.positive r den_pos,
        round_above round (duration * (100 + a)) r h (omega arith) den_pos (grind (arith, l)),
        round_below round (duration * (100 + b)) r h small den_pos (grind (arith, u)),
      )

  -- The quotient of a whole number by 100 is not rounded to a whole number below it.
  hundredth_above :
      (x k : ℕ)
      → 100 ≤ x
      → x < exact_below
      → (round (record { num = x; den = 100 })).num
        ≤ k * (round (record { num = x; den = 100 })).den
      → x ≤ k * 100
  hundredth_above x k low top le =
      let r : Ratio = record { num = x; den = 100 } in
      let acc = h.accurate r (omega arith) low (omega (arith, top)) in
      below_hundred x k (round r).num (round r).den (h.positive r (omega arith)) top le acc

  total_bounds :
      (a b : ℕ) (r : Ratio)
      → 100 ≤ a
      → b < exact_below
      → a ≤ b
      → 0 < r.den
      → a * r.den ≤ r.num
      → r.num ≤ b * r.den
      → (a ≤ ceil_div (quotient round r).num (quotient round r).den * 100)
        × (ceil_div (quotient round r).num (quotient round r).den * 100 < b + 100)
  total_bounds a b r low top le den_pos lo hi =
      let s : Ratio = record { num = r.num; den = 100 * r.den } in
      let w : Ratio = record { num = a; den = 100 } in
      let t = quotient round r in
      let t_pos : 0 < t.den = h.positive s (omega arith) in
      let w_pos = h.positive w (omega arith) in
      let total = ceil_div t.num t.den in
      let covers = (ceil_div_bounds t.num t.den t_pos).0 in
      let (up, less) = ceil_div_bounds b 100 (omega arith) in
      let under : t.num ≤ ceil_div b 100 * t.den =
        round_below round (ceil_div b 100) s h (omega (arith, less)) (omega arith)
          (scaled b (ceil_div b 100) r.num r.den hi up) in
      let over : (round w).num * t.den ≤ t.num * (round w).den =
        h.monotone w s (omega arith) (omega arith) (omega (arith, lo)) in
      (
        hundredth_above a total low (omega arith)
            (through (round w).num (round w).den t.num t.den total t_pos over covers),
        omega (arith, ceil_div_le t.num t.den (ceil_div b 100) t_pos under, less),
      )

  pub total_seconds_bounds :
      (duration p q a b : ℕ)
      → 0 < duration
      → duration ≤ max_duration_seconds
      → a * suc q ≤ p
      → p ≤ b * suc q
      → b ≤ max_extra_time_pct
      → (duration * (100 + a) ≤ total_seconds round duration p (suc q) * 100)
        × (total_seconds round duration p (suc q) * 100 < duration * (100 + b) + 100)
  unfolding total_seconds
  total_seconds_bounds duration p q a b some_time long lo hi top =
      let le : a ≤ b = grind arith in
      let (f_pos, f_lo, f_hi) = factor_bounds p q a b lo hi top in
      let f = factor round p (suc q) in
      let (p_pos, p_lo, p_hi) = product_bounds duration a b f long le top f_pos f_lo f_hi in
      total_bounds (duration * (100 + a)) (duration * (100 + b)) (product round duration f)
        (enough duration a some_time) (omega (arith, mul_le (100 + b) 1100 duration (omega arith)))
        (mul_le (100 + a) (100 + b) duration (omega arith)) p_pos p_lo p_hi

  -- With valid inputs the deadline is a whole number of seconds after the start. If the percentage is
  -- between two whole ones, the seconds cover the duration with the lower one, and are fewer than a
  -- second more than it with the upper one; so for a whole percentage they are the least number that
  -- covers the extended duration. The rounding of doubles is as IEEE 754 has it.
  pub compute_deadline_lem :
      (started duration p q a b : ℕ)
      → 0 < duration
      → duration ≤ max_duration_seconds
      → a * suc q ≤ p
      → p ≤ b * suc q
      → b ≤ max_extra_time_pct
      → (total : ℕ) × (compute_deadline round (some started) (nat duration) (ratio (pos p) q)
          ≡ ok (date_of (started + total * 1000)))
        × (duration * (100 + a) ≤ total * 100)
        × (total * 100 < duration * (100 + b) + 100)
  unfolding compute_deadline
  compute_deadline_lem started duration p q a b some_time long lo hi top =
      let (covers, least) = total_seconds_bounds duration p q a b some_time long lo hi top in
      let valid : p ≤ max_extra_time_pct * suc q = within p (suc q) b hi top in
      (total_seconds round duration p (suc q), ground arith, covers, least)

-- The candidate has the whole of the duration: until it is over the deadline is not past.
pub whole_duration :
    (round : Ratio → Ratio) (started duration p q now : ℕ) (deadline : Date)
    → IsRounding round
    → compute_deadline round (some started) (nat duration) (ratio (pos p) q) ≡ ok deadline
    → is_past_deadline deadline (some now) ≡ ok true
    → started + duration * 1000 < now
unfolding compute_deadline is_past_deadline
whole_duration round started duration p q now deadline h e past =
    let (covers, least) =
      total_seconds_bounds round h duration p q 0 1000 (ground arith) (ground arith) (omega arith)
        (ground arith) (omega arith) in
    ground (arith, covers)

-- The displayed seconds are the least whole number that covers the time left, and are 0 exactly from
-- the instant of the deadline on.
pub seconds_remaining_bounds :
    (deadline now s : ℕ)
    → seconds_remaining (some deadline) (some now) ≡ ok s
    → (deadline ≤ now + s * 1000)
      × ((s ≡ 0) ↔ (deadline ≤ now))
      × (now < deadline → now + s * 1000 < deadline + 1000)
unfolding seconds_remaining
seconds_remaining_bounds deadline now s h =
    ground (arith, ceil_div_bounds (deadline - now) 1000 (omega arith))

-- What a deadline that was computed says of the inputs.
pub compute_deadline_inv :
    (round : Ratio → Ratio) (started duration p q deadline : ℕ)
    → compute_deadline round (some started) (nat duration) (ratio (pos p) q) ≡ ok (some deadline)
    → (deadline ≡ started + total_seconds round duration p (suc q) * 1000)
      × (0 < duration)
      × (duration ≤ max_duration_seconds)
      × (p ≤ max_extra_time_pct * suc q)
unfolding compute_deadline
compute_deadline_inv round started duration p q deadline e = ground arith
