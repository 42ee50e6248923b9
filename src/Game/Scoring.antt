-- ===== src/Game/Scoring.antt =====
-- api/internal/game/scoring.go: the points of one answer and the timer of one question.
-- Durations are nanoseconds, as in Go; `float64` is the parameter `Float64`.
pub mod Laws
use jejak_inderasakti_be.Shared.{
  ℕ, ◌+◌, ◌-◌, ◌*◌, ◌/◌, min, String, Bool, true, false, not, ◌||◌, ltb, leb, ◌==◌, if◌then◌else◌,
  same, String-discrete, ℤ, pos_part, Float64,
}

abbrev pub network_grace_ms : ℕ
network_grace_ms = 1000

abbrev pub streak_bonus : ℕ
streak_bonus = 50

abbrev pub max_streak_bonus : ℕ
max_streak_bonus = 250

abbrev pub reading_grace_ms : ℕ
reading_grace_ms = 2000

abbrev pub reading_grace_sd_ms : ℕ
reading_grace_sd_ms = 3000

abbrev pub jenjang_sd : String
jenjang_sd = "SD"

abbrev pub millisecond : ℕ
millisecond = 1000000

abbrev pub second : ℕ
second = 1000000000

-- A level that the map lacks has the zero value.
unfoldable pub base_points : ℕ → ℕ
base_points level =
    if level == 1 then 500 else if level == 2 then 750 else if level == 3 then 1000 else 0

unfoldable pub timer_by_level : ℕ → ℕ
timer_by_level level =
    if level == 1
    then 15 * second
    else if level == 2
    then 20 * second
    else if level == 3
    then 25 * second
    else 0

-- `response_ms` may be negative, if the clock was set back; limit and grace are constants.
pub record ScoreInput : Type 0 where
  pub level : ℕ
  pub correct : Bool
  pub response_ms : ℤ
  pub limit_ms : ℕ
  pub grace_ms : ℕ
  pub streak_before : ℕ
  pub accuracy_mode : Bool

-- max(0, min(response, limit) - grace): subtraction on ℕ stops at 0.
unfoldable pub effective_ms : ScoreInput → ℕ
effective_ms i = min (pos_part i.response_ms) i.limit_ms - i.grace_ms

module _ (f : Float64) where
  unfoldable pub speed_factor : ScoreInput → f.F
  speed_factor i =
      if i.accuracy_mode || leb i.limit_ms i.grace_ms
      then f.of_int 1
      else f.sub (f.of_int 1)
          (f.div (f.of_int (effective_ms i)) (f.of_int (i.limit_ms - i.grace_ms)))

  -- round(base * (0.6 + 0.4 * speed))
  unfoldable pub speed_points : ScoreInput → ℕ
  speed_points i =
      f.round (f.mul (f.of_int (base_points i.level)) (f.add f.c06 (f.mul f.c04 (speed_factor i))))

  unfoldable pub score : ScoreInput → ℕ
  score i =
      if not i.correct || ltb (i.limit_ms + network_grace_ms) (pos_part i.response_ms)
      then 0
      else speed_points i + min (streak_bonus * i.streak_before) max_streak_bonus

-- time.Duration(float64(limit) * 1.25) is exact: 1.25 is 5/4, and the limits are below 2^50.
unfoldable pub question_limit : ℕ → String → ℕ
unfolding timer_by_level
question_limit level jenjang =
    let limit = timer_by_level level in if same jenjang jenjang_sd then limit * 5 / 4 else limit

unfoldable pub reading_grace : String → ℕ
reading_grace jenjang = if same jenjang jenjang_sd then reading_grace_sd_ms else reading_grace_ms
