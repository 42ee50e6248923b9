-- ===== src/Game/Play/Options.antt =====
-- The options of a question, and the outcome of an answer to it (api/internal/game/play.go).
use jejak_inderasakti_be.Shared.{
  ℕ, ◌/◌, String, Bool, false, ◌||◌, List, [], ◌∷◌, Option, none, some, ltb, if◌then◌else◌, same, ℤ,
  pos, sub_ℕ, quot, min_ℕ,
}
use jejak_inderasakti_be.Store.Types.{AnswerOption, Question}
use jejak_inderasakti_be.Game.Scoring.{score, reading_grace, millisecond}
use jejak_inderasakti_be.Game.State.{PlayerState, Room, Deps, ActiveQuestion, deadline}

-- How a question was resolved. `correct` is none where it timed out.
pub record Outcome : Type 0 where
  pub option_id : Option String
  pub correct : Option Bool
  pub answered_at : Option ℕ
  pub points : ℕ
  pub spent_ms : ℤ

unfoldable pub has_option : List AnswerOption → String → Bool
has_option [] id = false
has_option (o ∷ os) id = same o.id id || has_option os id

unfoldable pub is_correct : List AnswerOption → String → Bool
is_correct [] id = false
is_correct (o ∷ os) id = if same o.id id then o.correct else is_correct os id

unfoldable pub correct_option_id : List AnswerOption → String
correct_option_id [] = ""
correct_option_id (o ∷ os) = if o.correct then o.id else correct_option_id os

-- True-false questions keep their order.
unfoldable pub shuffled_options : (d : Deps) → Question → d.World → List AnswerOption × d.World
shuffled_options d q w = if same q.kind "tf" then (q.options, w) else d.shuffle q.options w

unfoldable pub timeout_outcome : ActiveQuestion → Outcome
timeout_outcome a = record {
  option_id = none;
  correct = none;
  answered_at = none;
  points = 0;
  spent_ms = pos (a.limit / millisecond);
}

module _ (d : Deps) where
  open d use {World, float}

  -- The outcome of choosing an option at `now`, before the deadline.
  unfoldable pub answered_outcome : Room World → PlayerState → ActiveQuestion → String → ℕ → Outcome
  answered_outcome r p a chosen now =
      let elapsed = sub_ℕ now a.served_at in
      let correct = is_correct a.options chosen in
      record {
        option_id = some chosen;
        correct = some correct;
        answered_at = some now;
        points = score float (record {
          level = a.question.level;
          correct = correct;
          response_ms = quot elapsed millisecond;
          limit_ms = a.limit / millisecond;
          grace_ms = reading_grace r.jenjang;
          streak_before = p.streak;
          accuracy_mode = r.accuracy_mode;
        });
        spent_ms = quot (min_ℕ elapsed a.limit) millisecond;
      }

  -- No option, or one past the deadline, counts as a timeout.
  unfoldable pub outcome_at :
      Room World → PlayerState → ActiveQuestion → Option String → ℕ → Outcome
  outcome_at r p a none now = timeout_outcome a
  outcome_at r p a (some chosen) now =
      if ltb (deadline a) now then timeout_outcome a else answered_outcome r p a chosen now

  unfoldable pub outcome_of :
      Room World → PlayerState → ActiveQuestion → Option String → Outcome × Room World
  outcome_of r p a chosen =
      let (now, w) = d.clock r.world in (outcome_at r p a chosen now, record r { world = w })
