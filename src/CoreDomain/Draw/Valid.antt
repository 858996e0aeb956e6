-- ===== src/CoreDomain/Draw/Valid.antt =====
-- The rules that `validateRule` lets through.
use assaybank.Prelude.{
  ℕ, ◌≤◌, ◌<◌, ◌≡◌, refl, ◌↔◌, ◌||◌, not, Bool, true, false, none, some, arith, if◌then◌else◌,
}
use assaybank.Prelude.Int.{pos, negsuc}
use assaybank.Prelude.Num.{
  Num, whole, fraction, nonfinite, nat, to_nat, lt_num, is_finite, is_negative, is_integer,
}
use assaybank.CoreDomain.Errors.{DomainError}
use assaybank.CoreDomain.Draw.{
  SectionRule, validate_rule, bad_pick_count, bad_bounds, bad_order, bad_days, bad_score,
}

-- The rules that can be drawn from: whole numbers in their ranges.
pub record IsValidRule (rule : SectionRule) : Type 0 where
  pub pick : ℕ
  pub low : ℕ
  pub high : ℕ
  pub days : ℕ
  pub picks : (rule.pick_count ≡ nat pick) × (0 < pick)
  pub lows : (rule.min_difficulty ≡ nat low) × (1 ≤ low)
  pub highs : (rule.max_difficulty ≡ nat high) × (low ≤ high) × (high ≤ 5)
  pub seen : rule.exclude_seen_days ≡ nat days
  pub score :
      (is_finite rule.score_per_question ≡ true) × (is_negative rule.score_per_question ≡ false)

pub validate_rule_complete : (rule : SectionRule) → IsValidRule rule → validate_rule rule ≡ none
unfolding validate_rule
validate_rule_complete rule v = ground arith

positive :
    (x : Num)
    → not (is_integer x) || not (lt_num (nat 0) x) ≡ false
    → (x ≡ nat (to_nat x)) × (0 < to_nat x)
positive (whole (pos n)) h = ground arith
positive (whole (negsuc n)) h = ground arith
positive (fraction z) h = cc
positive nonfinite h = cc

bounded :
    (x y : Num)
    → not (is_integer x) || not (is_integer y) || lt_num x (nat 1) || lt_num (nat 5) y ≡ false
    → lt_num y x ≡ false
    → (x ≡ nat (to_nat x))
      × (1 ≤ to_nat x)
      × (y ≡ nat (to_nat y))
      × (to_nat x ≤ to_nat y)
      × (to_nat y ≤ 5)
bounded (whole (pos a)) (whole (pos b)) h k = ground arith
bounded (whole (negsuc a)) (whole b) h k = ground arith
bounded (whole (pos a)) (whole (negsuc b)) h k = ground arith
bounded (whole a) (fraction b) h k = ground arith
bounded (whole a) nonfinite h k = ground arith
bounded (fraction z) y h k = cc
bounded nonfinite y h k = cc

natural : (x : Num) → not (is_integer x) || is_negative x ≡ false → x ≡ nat (to_nat x)
natural (whole (pos n)) h = refl
natural (whole (negsuc n)) h = cc
natural (fraction z) h = cc
natural nonfinite h = cc

guards :
    (rule : SectionRule)
    → validate_rule rule ≡ none
    → (bad_pick_count rule ≡ false)
      × (bad_bounds rule ≡ false)
      × (bad_order rule ≡ false)
      × (bad_days rule ≡ false)
      × (bad_score rule ≡ false)
unfolding validate_rule
guards rule h =
    ladder (bad_pick_count rule) (bad_bounds rule) (bad_order rule) (bad_days rule) (bad_score rule)
      _ h
  where
    ladder :
        (a b c d e : Bool) (failure : DomainError)
        → (if a
            then some failure
            else if b
            then some failure
            else if c
            then some failure
            else if d
            then some failure
            else if e
            then some failure
            else none)
          ≡ none
        → (a ≡ false) × (b ≡ false) × (c ≡ false) × (d ≡ false) × (e ≡ false)
    ladder a b c d e failure h = ground arith

finite : (a b : Bool) → not a || b ≡ false → (a ≡ true) × (b ≡ false)
finite a b h = ground arith

pub validate_rule_sound : (rule : SectionRule) → validate_rule rule ≡ none → IsValidRule rule
unfolding validate_rule
validate_rule_sound rule h =
    let (picks, bounds, order, days, score) = guards rule h in
    let (a, b, c, d, e) = bounded _ _ bounds order in
    record {
      pick = to_nat rule.pick_count;
      low = to_nat rule.min_difficulty;
      high = to_nat rule.max_difficulty;
      days = to_nat rule.exclude_seen_days;
      picks = positive _ picks;
      lows = (a, b);
      highs = (c, d, e);
      seen = natural _ days;
      score = finite (is_finite rule.score_per_question) _ score;
    }

-- The guards pass exactly the rules whose numbers are whole and in range.
pub validate_rule_iff : (rule : SectionRule) → (validate_rule rule ≡ none) ↔ IsValidRule rule
validate_rule_iff rule = (validate_rule_sound rule, validate_rule_complete rule)
