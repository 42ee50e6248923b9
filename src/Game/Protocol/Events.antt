-- ===== src/Game/Protocol/Events.antt =====
-- The events of a room, and its whole life, as steps of a session.
use jejak_inderasakti_be.Shared.{
  ℕ, ◌≤◌, ◌≡◌, refl, ◌∙◌, false, List, [], ◌∷◌, if_elim, All, arith, length,
}
use jejak_inderasakti_be.Store.Types.{Status}
use jejak_inderasakti_be.Game.State.{Room, Deps, is_ended}
use jejak_inderasakti_be.Game.Session.{close_all, drop_sink}
use jejak_inderasakti_be.Game.Room.{
  Event, joins, attaches_player, attaches_host, detaches, starts, ends, kicks, asks_next, answers,
  leaderboard_fires, deadline_fires, handle, loop, stop,
}
use jejak_inderasakti_be.Game.Invariant.Defs.{IsGood}
use jejak_inderasakti_be.Game.Invariant.Events.{IsFair, handle-IsGood}
use jejak_inderasakti_be.Game.Protocol.{Session, Step, Steps, here, next}
use jejak_inderasakti_be.Game.Protocol.Entries.{entries-map}
use jejak_inderasakti_be.Game.Protocol.Moves.{
  Refines, Steps-trans, end_session-Refines, start_session-Refines,
}
use jejak_inderasakti_be.Game.Protocol.Handlers.{
  with_players, add_player_and_notify-Refines, attach_player-Refines, attach_host-Refines,
  detach-Refines, kick-Refines, leaderboard_timer-Refines, next_question-Refines, answer-Refines,
}

module _ (d : Deps) where
  open d use {World}

  -- In a good room that has not ended, every event is a sequence of steps of the session, which may be
  -- empty. A step: a player joins with no progress or leaves, the lobby starts, a question of a running
  -- session is resolved, wrongly for no points or rightly for at most 1250, or the session ends.
  pub handle-Refines :
      (e : Event) (r : Room World)
      → is_ended r.status ≡ false
      → IsFair e
      → IsGood r
      → Refines r (handle d e r)
  unfolding handle
  handle-Refines (joins p) r o f g = add_player_and_notify-Refines p r o f
  handle-Refines (attaches_player id s) r o f g = attach_player-Refines d id s r g
  handle-Refines (attaches_host id s) r o f g = attach_host-Refines id s r
  handle-Refines (detaches s) r o f g = detach-Refines s r
  handle-Refines starts r o f g = start_session-Refines d r
  handle-Refines ends r o f g = end_session-Refines d r
  handle-Refines (kicks id) r o f g = kick-Refines d id r o
  handle-Refines (asks_next id) r o f g = next_question-Refines d id r g
  handle-Refines (answers id question_id chosen) r o f g =
      answer-Refines d id question_id chosen r g
  handle-Refines leaderboard_fires r o f g = leaderboard_timer-Refines d r
  handle-Refines deadline_fires r o f g = end_session-Refines d r

  loop-Steps :
      (es : List Event) (r : Room World)
      → All IsFair es
      → IsGood r
      → is_ended r.status ≡ false
      → Refines r (loop d es r)
  unfolding loop stop close_all
  loop-Steps [] r f g o = here (with_players r _ (entries-map drop_sink r.players (λ p. refl)))
  loop-Steps (e ∷ es) r f g o =
      if_elim (Refines r) (is_ended (handle d e r).status) (λ _. handle-Refines e r o f.0 g)
        (λ o'.
          Steps-trans (handle-Refines e r o f.0 g)
            (loop-Steps es (handle d e r) f.1 (handle-IsGood d e r o f.0 g) o'))

-- How far a session is.
abbrev pub stage : Status → ℕ
stage Status.lobby = 0
stage Status.running = 1
stage Status.ended = 2

stage_le : (s : Status) → stage s ≤ 2
stage_le Status.lobby = omega arith
stage_le Status.running = omega arith
stage_le Status.ended = omega arith

Step-stage : {s t : Session} → Step s t → (stage s.status ≤ stage t.status) × (s.total ≡ t.total)
Step-stage (Step.join id o n e) = rw e (omega arith, refl)
Step-stage (Step.start l e) = rw (l, e) (omega arith, refl)
Step-stage (Step.resolve x x' run f l h e) = rw e (omega arith, refl)
Step-stage (Step.leave x o f e) = rw e (omega arith, refl)
Step-stage {s} (Step.finish o e) = rw e (stage_le s.status, refl)

Steps-stage : {s t : Session} → Steps s t → (stage s.status ≤ stage t.status) × (s.total ≡ t.total)
Steps-stage (here e) = rw e (omega arith, refl)
Steps-stage (next k st) =
    let (a, b) = Steps-stage k in let (c, e) = Step-stage st in (omega arith, b ∙ e)

module _ (d : Deps) where
  open d use {World}

  -- The whole life of a good room, whatever its events, is a number of steps of the session; its
  -- status never goes back, and its questions stay as many.
  pub loop-Refines :
      (es : List Event) (r : Room World)
      → All IsFair es
      → IsGood r
      → is_ended r.status ≡ false
      → Refines r (loop d es r)
        × (stage r.status ≤ stage (loop d es r).status)
        × (length r.questions ≡ length (loop d es r).questions)
  loop-Refines es r f g o =
      let k = loop-Steps d es r f g o in let (a, b) = Steps-stage k in (k, a, b)
