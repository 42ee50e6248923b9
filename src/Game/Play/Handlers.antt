-- ===== src/Game/Play/Handlers.antt =====
-- The commands of a player: the next question, and an answer (api/internal/game/play.go).
use jejak_inderasakti_be.Shared.{
  maybe, String, Bool, true, false, ◌||◌, List, [], ◌∷◌, Option, none, some, leb, if◌then◌else◌,
  same, length, take, get_elem?,
}
use jejak_inderasakti_be.Store.Types.{Question}
use jejak_inderasakti_be.Game.Scoring.{question_limit}
use jejak_inderasakti_be.Game.State.{
  PlayerState, Room, Deps, ActiveQuestion, is_running, find, reject, set_player,
}
use jejak_inderasakti_be.Game.Play.Options.{has_option, shuffled_options, outcome_of}
use jejak_inderasakti_be.Game.Play.Resolve.{resolve, settle_expired, send_question}

unfoldable pub asks : List Question → String → Bool
asks [] id = false
asks (q ∷ qs) id = same q.id id || asks qs id

unfoldable pub invalid_option : ActiveQuestion → Option String → Bool
invalid_option a none = false
invalid_option a (some chosen) = if has_option a.options chosen then false else true

module _ {W : Type 0} where
  -- Whether the question is among those that the player has resolved.
  unfoldable pub was_resolved : Room W → PlayerState → String → Bool
  was_resolved r p question_id = asks (take p.resolved r.questions) question_id

  unfoldable pub reject_unserved_answer : PlayerState → String → Room W → Room W
  reject_unserved_answer p question_id r =
      if was_resolved r p question_id
      then reject p "q.answer" "ALREADY_ANSWERED" "this question was already answered" r
      else reject p "q.answer" "NOT_SERVED" "this question is not the active one" r

module _ (d : Deps) where
  open d use {World}

  -- r.questions[p.resolved] exists where this is called.
  unfoldable pub serve_question : PlayerState → Question → Room World → Room World
  serve_question p question r =
      let (options, w) = shuffled_options d question r.world in
      let (now, w') = d.clock w in
      let a : ActiveQuestion = record {
        question = question;
        options = options;
        served_at = now;
        limit = question_limit question.level r.jenjang;
      } in
      let shown = record p { active = some a } in
      send_question shown a now (set_player shown (record r { world = w' }))

  unfoldable pub serve : PlayerState → Room World → Room World
  serve p r = maybe (get_elem? r.questions p.resolved) r λ q. serve_question p q r

  -- The player is free: it is served the next question, if the session still runs.
  unfoldable pub next_if_left : PlayerState → Room World → Room World
  next_if_left p r =
      if leb (length r.questions) p.resolved
      then reject p "q.next" "ALREADY_FINISHED" "you have answered every question" r
      else serve p r

  unfoldable pub next_after_settling : String → Bool × Room World → Room World
  next_after_settling id (free, r) = maybe (find id r.players) r λ p.
      if free
      then (if is_running r.status then next_if_left p r else r)
      else reject p "q.next" "QUESTION_IN_PROGRESS" "answer the current question first" r

  unfoldable pub next_question_of : PlayerState → Room World → Room World
  next_question_of p r =
      if is_running r.status
      then next_after_settling p.info.id (settle_expired d p r)
      else reject p "q.next" "ROOM_NOT_STARTED" "the session has not started" r

  unfoldable pub next_question : String → Room World → Room World
  next_question id r = maybe (find id r.players) r λ p. next_question_of p r

  unfoldable pub answer_active :
      PlayerState → ActiveQuestion → Option String → Room World → Room World
  answer_active p a chosen r =
      if invalid_option a chosen
      then reject p "q.answer" "INVALID_OPTION" "unknown option for this question" r
      else (let (out, r') = outcome_of d r p a chosen in (resolve d p a out true r').1)

  unfoldable pub answer_running :
      PlayerState → Option ActiveQuestion → String → Option String → Room World → Room World
  answer_running p none question_id chosen r = reject_unserved_answer p question_id r
  answer_running p (some a) question_id chosen r =
      if same a.question.id question_id
      then answer_active p a chosen r
      else reject_unserved_answer p question_id r

  unfoldable pub answer_of : PlayerState → String → Option String → Room World → Room World
  answer_of p question_id chosen r =
      if is_running r.status
      then answer_running p p.active question_id chosen r
      else reject p "q.answer" "ROOM_NOT_STARTED" "the session has not started" r

  unfoldable pub answer : String → String → Option String → Room World → Room World
  answer id question_id chosen r = maybe (find id r.players) r λ p. answer_of p question_id chosen r
