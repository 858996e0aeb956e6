-- ===== src/CoreDomain/Tests/Draws.antt =====
-- The draw at concrete inputs.
use mathlib.Core.List.{Mem, Nodup, Perm}
use assaybank.Prelude.{ℕ, ◌-◌, ◌≡◌, refl, true, none, some, List, [], ◌∷◌, ok, arith}
use assaybank.Prelude.Num.{nat}
use assaybank.CoreDomain.Kinds.{coding}
use assaybank.CoreDomain.Shuffle.{Rng, shuffle_with, shuffle_with-Perm}
use assaybank.CoreDomain.Draw.{SectionRule, DrawCandidate, resolve_draw}
use assaybank.CoreDomain.Draw.Rows.{IsKeyed}
use assaybank.CoreDomain.Draw.Eligible.{SameRows}
use assaybank.CoreDomain.Draw.Resolve.{IsDrawable, ids, resolve_draw-SameRows, resolve_draw_sound}

-- A generator that always yields the number just below 1.
abbrev top_rng : Rng
top_rng = record { is_usable = λ k. true; floor_times = λ k len. len - 1 }

abbrev two_of_each : SectionRule
two_of_each = record {
  pick_count = nat 2;
  skill_ids = [];
  kinds = [];
  min_difficulty = nat 2;
  max_difficulty = nat 4;
  exclude_seen_days = nat 30;
  score_per_question = nat 1;
}

abbrev row : ℕ → ℕ → DrawCandidate
row id difficulty = record {
  question_version_id = id ∷ [];
  skill_ids = [];
  kind = coding;
  difficulty = nat difficulty;
  last_seen_days_ago = none;
}

abbrev row_seen : DrawCandidate
row_seen = record (row b'd' 3) { last_seen_days_ago = some 5 }

-- Rows b, a, c, d; c is too hard, d was seen five days ago.
abbrev pool : List DrawCandidate
pool = row b'b' 3 ∷ row b'a' 2 ∷ row b'c' 5 ∷ row_seen ∷ []

abbrev pool_turned : List DrawCandidate
pool_turned = row b'a' 2 ∷ row_seen ∷ row b'b' 3 ∷ row b'c' 5 ∷ []

pool-IsKeyed : IsKeyed pool
pool-IsKeyed d e h k p = ground arith

pool-SameRows : SameRows pool pool_turned
pool-SameRows = (λ e. ground arith, refl)

resolve_draw-SameRows_example :
    resolve_draw two_of_each pool top_rng ≡ resolve_draw two_of_each pool_turned top_rng
resolve_draw-SameRows_example =
    resolve_draw-SameRows two_of_each pool pool_turned top_rng pool-IsKeyed pool-SameRows

drawn_pool : resolve_draw two_of_each pool top_rng ≡ ok (row b'b' 3 ∷ row b'a' 2 ∷ [])
unfolding resolve_draw
drawn_pool = refl

resolve_draw_sound_example :
    (nat 2 ≡ nat 2)
    × ((e : DrawCandidate) → Mem e (row b'b' 3 ∷ row b'a' 2 ∷ []) → IsDrawable two_of_each pool e)
    × Nodup (ids (row b'b' 3 ∷ row b'a' 2 ∷ []))
resolve_draw_sound_example =
    resolve_draw_sound two_of_each pool top_rng (row b'b' 3 ∷ row b'a' 2 ∷ []) drawn_pool

abbrev numbers : List ℕ
numbers = 1 ∷ 2 ∷ 3 ∷ []

shuffle_with-Perm_example : Perm (shuffle_with top_rng numbers) numbers
shuffle_with-Perm_example = shuffle_with-Perm top_rng numbers
