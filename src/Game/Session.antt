-- ===== src/Game/Session.antt =====
-- Start and end of a session (api/internal/game/room.go).
use jejak_inderasakti_be.Shared.{
  ℕ, ◌*◌, Bool, true, false, ◌&&◌, not, List, [], ◌∷◌, map, Option, none, some, leb, if◌then◌else◌,
  length, take,
}
use jejak_inderasakti_be.Store.Types.{Status, Fallible, ok, err}
use jejak_inderasakti_be.Rank
use jejak_inderasakti_be.Game.Scoring.{second}
use jejak_inderasakti_be.Game.State.{
  PlayerState, Room, Deps, Sink, Message, Effect, PodiumEntry, closed, deadline_armed, room_started,
  room_ended, is_running, is_lobby, is_ended, lookup_all, number_from,
}
use jejak_inderasakti_be.Game.Board.{standings, broadcast}

abbrev pub max_room_duration : ℕ
max_room_duration = 12 * 60 * second

abbrev pub podium_size : ℕ
podium_size = 3

unfoldable pub close_sink : Option Sink → List Effect → List Effect
close_sink none log = log
close_sink (some s) log = closed s ∷ log

unfoldable pub close_sinks : List PlayerState → List Effect → List Effect
close_sinks [] log = log
close_sinks (p ∷ ps) log = close_sinks ps (close_sink p.sink log)

abbrev pub drop_sink : PlayerState → PlayerState
drop_sink p = record p { sink = none }

unfoldable pub podium_entry : ℕ × PlayerState → PodiumEntry
podium_entry (n, p) = record {
  rank = n;
  nickname = p.info.nickname;
  avatar = p.info.avatar;
  score = p.score;
}

unfoldable pub all_finished : ℕ → List PlayerState → Bool
all_finished total [] = true
all_finished total (p ∷ ps) = leb total p.resolved && all_finished total ps

abbrev pub is_empty : List PlayerState → Bool
is_empty [] = true
is_empty (_ ∷ _) = false

module _ {W : Type 0} where
  unfoldable pub close_all : Room W → Room W
  close_all r = record r {
    log = close_sinks r.players (close_sink r.host r.log);
    host = none;
    players = map drop_sink r.players;
  }

module _ (d : Deps) where
  open d use {World, float}

  unfoldable pub podium : Room World → List PodiumEntry
  podium r =
      map podium_entry
        (number_from 0 (lookup_all (take podium_size (Rank.order float (standings r))) r.players))

  unfoldable pub ended_message : Room World → Message
  ended_message r = room_ended (podium r)

  -- An error of the store is only logged: the room ends.
  unfoldable pub end_session : Room World → Room World
  end_session r =
      if is_ended r.status
      then r
      else (let ended = record r {
        world = (d.mark_room_ended r.id r.world).1;
        status = Status.ended;
      } in
          close_all (broadcast (ended_message ended) ended))

  unfoldable pub end_if_all_finished : Room World → Room World
  end_if_all_finished r =
      if is_running r.status
        && not (is_empty r.players)
        && all_finished (length r.questions) r.players
      then end_session r
      else r

  -- The room runs only if the store says that it was in the lobby.
  unfoldable pub started : Fallible Bool → Room World → Room World
  started (ok true) r =
      broadcast room_started
        (record r { status = Status.running; log = deadline_armed max_room_duration ∷ r.log })
  started (ok false) r = r
  started (err e) r = r

  unfoldable pub start_session : Room World → Room World
  start_session r =
      if is_lobby r.status
      then (let (answer, w) = d.mark_room_started r.id r.world in
          started answer (record r { world = w }))
      else r
