-- ===== src/Game/Play/Resolve.antt =====
-- Resolving the active question of a player (api/internal/game/play.go).
use jejak_inderasakti_be.Shared.{
  maybe, ℕ, suc, ◌+◌, ◌-◌, ◌/◌, String, Bool, true, false, List, [], ◌∷◌, Option, none, some, ltb,
  leb, if◌then◌else◌, ◌+ℤ◌, length,
}
use jejak_inderasakti_be.Store.Types.{
  StoreError, duplicate_answer, AnswerOption, Question, Result, in_lang,
}
use jejak_inderasakti_be.Game.Scoring.{millisecond}
use jejak_inderasakti_be.Game.State.{
  PlayerState, Room, Deps, ActiveQuestion, q_show, q_result, is_running, send_to, reject,
  set_player, deadline,
}
use jejak_inderasakti_be.Game.Board.{save_standing, mark_leaderboard_dirty}
use jejak_inderasakti_be.Game.Session.{end_if_all_finished}
use jejak_inderasakti_be.Game.Play.Options.{Outcome, timeout_outcome, correct_option_id}

unfoldable pub is_right : Option Bool → Bool
is_right none = false
is_right (some b) = b

-- The player's totals after an outcome, with no active question.
unfoldable pub advance : PlayerState → Outcome → PlayerState
advance p out = record p {
  score = p.score + out.points;
  total_ms = p.total_ms +ℤ out.spent_ms;
  resolved = suc p.resolved;
  streak = if is_right out.correct then suc p.streak else 0;
  correct = if is_right out.correct then suc p.correct else p.correct;
  active = none;
}

unfoldable pub result_of : PlayerState → ActiveQuestion → Outcome → PlayerState → Bool → Result
result_of p a out next finished = record {
  player_id = p.info.id;
  question_id = a.question.id;
  served_at = a.served_at;
  answered_at = out.answered_at;
  option_id = out.option_id;
  correct = out.correct;
  points = out.points;
  score = next.score;
  correct_count = next.correct;
  total_ms = next.total_ms;
  current_index = next.resolved;
  streak = next.streak;
  finished = finished;
}

unfoldable pub option_labels : List AnswerOption → String → List (String × String)
option_labels [] lang = []
option_labels (o ∷ os) lang = (o.id, in_lang o.label lang) ∷ option_labels os lang

module _ {W : Type 0} where
  -- The active question, with the time left at `now`.
  unfoldable pub send_question : PlayerState → ActiveQuestion → ℕ → Room W → Room W
  send_question p a now r =
      send_to p
        (q_show p.resolved (length r.questions) a.question (in_lang a.question.prompt p.info.lang)
          (option_labels a.options p.info.lang) ((a.served_at + a.limit - now) / millisecond))
        r

  unfoldable pub send_result : PlayerState → Question → Outcome → Bool → Room W → Room W
  send_result p q out finished r =
      send_to p
        (q_result (is_right out.correct) (correct_option_id q.options)
          (in_lang q.explanation p.info.lang) out.points p.score p.streak finished)
        r

  unfoldable pub reject_failed_save : PlayerState → StoreError → Room W → Room W
  reject_failed_save p duplicate_answer r =
      reject p "q.answer" "ALREADY_ANSWERED" "this question was already answered" r
  reject_failed_save p _ r = reject p "q.answer" "INTERNAL" "could not save the answer, try again" r

module _ (d : Deps) where
  open d use {World}

  -- What follows a stored result: the player moves on, and the room may end.
  unfoldable pub settle :
      PlayerState → ActiveQuestion → Outcome → Bool → Bool → Room World → Room World
  settle next a out announce finished r =
      let moved = save_standing d next (set_player next r) in
      let told = if announce then send_result next a.question out finished moved else moved in
      let marked = mark_leaderboard_dirty d told in
      if finished then end_if_all_finished d marked else marked

  unfoldable pub resolve_with :
      Option StoreError
      → PlayerState
      → ActiveQuestion
      → Outcome
      → Bool
      → Room World
      → Bool × Room World
  resolve_with (some e) p a out announce r = (false, reject_failed_save p e r)
  resolve_with none p a out announce r =
      let next = advance p out in
      (true, settle next a out announce (leb (length r.questions) next.resolved) r)

  -- Records the outcome of the active question `a` of `p`. It is false, and leaves the player
  -- untouched, if the result could not be stored.
  unfoldable pub resolve :
      PlayerState → ActiveQuestion → Outcome → Bool → Room World → Bool × Room World
  resolve p a out announce r =
      let next = advance p out in
      let (e, w) =
        d.save_result (result_of p a out next (leb (length r.questions) next.resolved)) r.world in
      resolve_with e p a out announce (record r { world = w })

  -- A question past its deadline becomes a timeout of 0 points. Whether the player is free for a new
  -- question.
  unfoldable pub settle_active : PlayerState → ActiveQuestion → Room World → Bool × Room World
  settle_active p a r =
      if is_running r.status
      then (let (now, w) = d.clock r.world in
          if ltb now (deadline a)
          then (false, record r { world = w })
          else resolve p a (timeout_outcome a) false (record r { world = w }))
      else (false, r)

  unfoldable pub settle_expired : PlayerState → Room World → Bool × Room World
  settle_expired p r = maybe p.active ((true, r)) λ a. settle_active p a r
