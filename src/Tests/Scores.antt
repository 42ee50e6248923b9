-- ===== src/Tests/Scores.antt =====
-- Scoring and ranking at concrete inputs.
use mathlib.Core.List.{Perm}
use jejak_inderasakti_be.Shared.{
  ℕ, ◌+◌, ◌*◌, ◌≤◌, ◌<◌, ◌≡◌, ◌↔◌, ◌⊎◌, inr, refl, true, false, List, [], ◌∷◌, map, pos, tenths,
  arith,
}
use jejak_inderasakti_be.Game.Scoring.{
  ScoreInput, score, base_points, speed_points, speed_factor, effective_ms,
}
use jejak_inderasakti_be.Game.Scoring.Laws.{score_bounds, score_full, score_anti}
use jejak_inderasakti_be.Rank.{Standing, key, order, sort, insert}
use jejak_inderasakti_be.Rank.Key.{InRange, Better, key-Better}
use jejak_inderasakti_be.Rank.Order.{order_lem, IsRanked, with_value}

-- A correct answer to a question of level 2 after 11 of 20 s, with a streak of 3.
abbrev half_time : ScoreInput
half_time = record {
  level = 2;
  correct = true;
  response_ms = pos 11000;
  limit_ms = 20000;
  grace_ms = 2000;
  streak_before = 3;
  accuracy_mode = false;
}

half_time_score : score tenths half_time ≡ 750
unfolding score speed_points speed_factor effective_ms base_points
half_time_score = refl

score_bounds_example :
    (score tenths half_time ≤ base_points 2 + 250)
    × (true ≡ true → 11000 ≤ 21000 → 3 * base_points 2 ≤ 5 * score tenths half_time)
    × ((true ≡ false) ⊎ (21000 < 11000) → score tenths half_time ≡ 0)
score_bounds_example = score_bounds tenths half_time

score_full_example :
    score tenths (record half_time { response_ms = pos 2000 }) ≡ base_points 2 + 150
score_full_example =
    score_full tenths (record half_time { response_ms = pos 2000 }) refl (omega arith)
      (inr (omega arith))

score_anti_example :
    score tenths (record half_time { response_ms = pos 12000 }) ≤ score tenths half_time
score_anti_example = score_anti tenths half_time (pos 12000) (omega arith)

abbrev fast : Standing
fast = record { player_id = "fast"; score = 1500; correct = 2; total_ms = pos 9000 }

abbrev slow : Standing
slow = record { player_id = "slow"; score = 1500; correct = 2; total_ms = pos 12000 }

in_range : (InRange fast) × (InRange slow)
in_range = omega arith

key-Better_example : (tenths.lt (key tenths slow) (key tenths fast) ≡ true) ↔ Better fast slow
key-Better_example = key-Better tenths fast slow in_range.0 in_range.1

order_run : order tenths (slow ∷ fast ∷ []) ≡ "fast" ∷ "slow" ∷ []
unfolding order sort insert key
order_run = refl

order_lem_example :
    (ys : List Standing) × (order tenths (slow ∷ fast ∷ []) ≡ map (λ s. s.player_id) ys)
    × Perm (slow ∷ fast ∷ []) ys
    × IsRanked ys
    × ((v : ℕ) → with_value v ys ≡ with_value v (slow ∷ fast ∷ []))
order_lem_example = order_lem tenths (slow ∷ fast ∷ []) (in_range.1, (in_range.0, tt))
