-- ===== src/Game/Invariant/Events.antt =====
-- The invariants over the life of a room: each event, and the whole loop.
use jejak_inderasakti_be.Shared.{◌≡◌, false, List, [], ◌∷◌, if_elim, All}
use jejak_inderasakti_be.Game.State.{Room, Deps, is_ended}
use jejak_inderasakti_be.Game.Session.{end_session}
use jejak_inderasakti_be.Game.Room.{
  Event, joins, attaches_player, attaches_host, detaches, starts, ends, kicks, asks_next, answers,
  leaderboard_fires, deadline_fires, handle, loop, stop,
}
use jejak_inderasakti_be.Game.Invariant.Defs.{core, IsValid, IsDetached, IsGood}
use jejak_inderasakti_be.Game.Invariant.Session.{
  start_session-IsValid, start_session-IsLive, end_session-IsValid, end_session-ended, ended-IsLive,
  close_all-IsValid, close_all-IsDetached,
}
use jejak_inderasakti_be.Game.Invariant.Handlers.{next_question-IsGood, answer-IsGood}
use jejak_inderasakti_be.Game.Invariant.Connections.{
  IsNew, add_player_and_notify-IsGood, attach_player-IsGood, attach_host-IsGood, detach-IsGood,
  kick-IsGood, leaderboard_timer-IsGood,
}

-- What the room relies on of an event: a player that joins has no progress yet.
abbrev pub IsFair : Event → Type 0
IsFair (joins p) = IsNew p
IsFair _ = Unit

module _ (d : Deps) where
  open d use {World}

  -- In a room that has not ended, every event keeps the invariants: the order lists
  -- the keys of the players, each once; every player's totals fit what it has resolved, and its
  -- active question is its next one; a lobby has no progress; an ended room has no connection; and a
  -- running room with players has one who is not finished.
  pub handle-IsGood :
      (e : Event) (r : Room World)
      → is_ended r.status ≡ false
      → IsFair e
      → IsGood r
      → IsGood (handle d e r)
  unfolding handle
  handle-IsGood (joins p) r n f g = add_player_and_notify-IsGood p r f g
  handle-IsGood (attaches_player id s) r n f g = attach_player-IsGood d id s r g
  handle-IsGood (attaches_host id s) r n f g = attach_host-IsGood id s r n g
  handle-IsGood (detaches s) r n f g = detach-IsGood s r g
  handle-IsGood starts r n f g = (start_session-IsValid d r g.0, start_session-IsLive d r g.0 g.1)
  handle-IsGood ends r n f g =
      (end_session-IsValid d r g.0, ended-IsLive d (end_session d r) (end_session-ended d r))
  handle-IsGood (kicks id) r n f g = kick-IsGood d id r g
  handle-IsGood (asks_next id) r n f g = next_question-IsGood d id r g
  handle-IsGood (answers id question_id chosen) r n f g = answer-IsGood d id question_id chosen r g
  handle-IsGood leaderboard_fires r n f g = leaderboard_timer-IsGood d r g
  handle-IsGood deadline_fires r n f g =
      (end_session-IsValid d r g.0, ended-IsLive d (end_session d r) (end_session-ended d r))

  -- Events that follow one another: what the loop relies on of each.
  abbrev pub AllFair : List Event → Type 0
  AllFair = All IsFair

  -- Whatever happens to a good room, when its loop is over no connection is attached, and its
  -- players' totals are still sound.
  pub loop-IsDetached :
      (es : List Event) (r : Room World)
      → AllFair es
      → IsGood r
      → is_ended r.status ≡ false
      → IsDetached (core (loop d es r)) × IsValid (core (loop d es r))
  unfolding loop stop
  loop-IsDetached [] r f g n = (close_all-IsDetached r, close_all-IsValid r g.0)
  loop-IsDetached (e ∷ es) r f g n =
      let kept = handle-IsGood e r n f.0 g in
      if_elim (λ (z : Room World). IsDetached (core z) × IsValid (core z))
        (is_ended (handle d e r).status) (λ ended. (kept.0.quiet ended, kept.0))
        (λ n'. loop-IsDetached es (handle d e r) f.1 kept n')
