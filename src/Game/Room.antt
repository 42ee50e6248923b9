-- ===== src/Game/Room.antt =====
-- The handlers and the event loop of a room (api/internal/game/room.go). The room goroutine takes one
-- event at a time; a call from elsewhere is an event.
use jejak_inderasakti_be.Shared.{
  maybe, ℕ, ◌+◌, ◌-◌, max, String, Bool, false, ◌&&◌, not, List, [], ◌∷◌, ◌++◌, map, Option, none,
  some, ◌==◌, if◌then◌else◌, same,
}
use jejak_inderasakti_be.Store.Types.{StoreError, Question, Player, RoomData}
use jejak_inderasakti_be.Game.Scoring.{millisecond}
use jejak_inderasakti_be.Game.State.{
  PlayerState, Room, Deps, Sink, Message, PlayerView, view_of, player_joined, player_kicked,
  room_state, deadline_armed, timers_stopped, stopped, is_running, is_ended, find, delete,
  remove_id, lookup_all, send, close, set_player,
}
use jejak_inderasakti_be.Game.Board.{
  restore_board, forget_standing, mark_leaderboard_dirty, send_leaderboard,
}
use jejak_inderasakti_be.Game.Session.{
  max_room_duration, close_sink, close_all, ended_message, end_session, end_if_all_finished,
  start_session,
}
use jejak_inderasakti_be.Game.Play.Resolve.{settle_expired, send_question}
use jejak_inderasakti_be.Game.Play.Handlers.{next_question, answer}

pub data RoomError : Type 0 where
  room_closed unknown_player not_host : RoomError

unfoldable pub state_of : Player → PlayerState
state_of p = record {
  info = p;
  sink = none;
  active = none;
  score = p.score;
  correct = p.correct_count;
  total_ms = p.total_ms;
  streak = p.streak;
  resolved = p.current_index;
}

unfoldable pub views : List PlayerState → List PlayerView
views [] = []
views (p ∷ ps) = view_of p.info ∷ views ps

abbrev pub holds : Option Sink → Sink → Bool
holds none s = false
holds (some t) s = t == s

abbrev pub forget_sink : Sink → PlayerState → PlayerState
forget_sink s p = record p { sink = if holds p.sink s then none else p.sink }

module _ {W : Type 0} where
  unfoldable pub add_player : Player → Room W → Room W
  add_player p r =
      maybe (find p.id r.players)
        (record r { players = r.players ++ state_of p ∷ []; order = r.order ++ p.id ∷ [] }) (λ _. r)

  unfoldable pub notify_host : Message → Option Sink → Room W → Room W
  notify_host m none r = r
  notify_host m (some s) r = send s m r

  unfoldable pub add_player_and_notify : Player → Room W → Room W
  add_player_and_notify p r =
      let r' = add_player p r in notify_host (player_joined (view_of p)) r'.host r'

  -- `none` stands for the host, who has no progress.
  unfoldable pub state_message : Option PlayerState → Room W → Message
  state_message none r = room_state r.status 0 0 0 (views (lookup_all r.order r.players))
  state_message (some p) r =
      room_state r.status p.resolved p.score p.streak (views (lookup_all r.order r.players))

  unfoldable pub attach_host : String → Sink → Room W → Option RoomError × Room W
  attach_host host_id s r =
      if same host_id r.host_id
      then (
        none,
        send s (state_message none r) (record r { host = some s; log = close_sink r.host r.log }),
      )
      else (some not_host, r)

  unfoldable pub detach : Sink → Room W → Room W
  detach s r = record r {
    host = if holds r.host s then none else r.host;
    players = map (forget_sink s) r.players;
  }

module _ (d : Deps) where
  open d use {World}

  -- The question that a reconnecting player was working on is sent again.
  unfoldable pub resume_active : PlayerState → Room World → Room World
  resume_active p r = maybe p.active r λ a.
      if is_running r.status
      then (let (now, w) = d.clock r.world in send_question p a now (record r { world = w }))
      else r

  unfoldable pub attach_settled : String → Sink → Room World → Room World
  attach_settled id s r = maybe (find id r.players) r λ p.
      if is_ended r.status
      then close s (send s (ended_message d r) r)
      else (let p' = record p { sink = some s } in
          let attached = set_player p' r in
          resume_active p' (send s (state_message (some p') attached) attached))

  -- An older connection of the player is closed first.
  unfoldable pub unplug : PlayerState → Room World → Room World
  unplug p r = set_player (record p { sink = none }) (record r { log = close_sink p.sink r.log })

  unfoldable pub attach_player : String → Sink → Room World → Option RoomError × Room World
  attach_player id s r = maybe (find id r.players) ((some unknown_player, r)) λ p.
      let unplugged = unplug p r in
      let settled = (settle_expired d (record p { sink = none }) unplugged).1 in
      (none, attach_settled id s settled)

  unfoldable pub notify_kicked : Option Sink → Room World → Room World
  notify_kicked none r = r
  notify_kicked (some s) r = close s (send s (player_kicked "kicked by host") r)

  unfoldable pub kick_deleted : PlayerState → Option StoreError → Room World → Room World
  kick_deleted p (some e) r = r
  kick_deleted p none r =
      let id = p.info.id in
      let removed = record r { players = delete id r.players; order = remove_id r.order id } in
      let told = notify_kicked p.sink (forget_standing d id removed) in
      end_if_all_finished d (mark_leaderboard_dirty d told)

  -- The player stays if the store cannot delete it.
  unfoldable pub kick : String → Room World → Room World
  kick id r =
      maybe (find id r.players) r
        λ p. let (e, w) = d.delete_player id r.world in kick_deleted p e (record r { world = w })

  unfoldable pub leaderboard_timer : Room World → Room World
  leaderboard_timer r =
      if r.lb_dirty && not (is_ended r.status)
      then send_leaderboard d (record r { lb_waiting = false })
      else record r { lb_waiting = false }

pub data Event : Type 0 where
  joins : Player → Event
  attaches_player : String → Sink → Event
  attaches_host : String → Sink → Event
  detaches : Sink → Event
  starts ends : Event
  kicks : String → Event
  asks_next : String → Event
  answers : String → String → Option String → Event
  leaderboard_fires deadline_fires : Event

module _ (d : Deps) where
  open d use {World}

  unfoldable pub handle : Event → Room World → Room World
  handle (joins p) r = add_player_and_notify p r
  handle (attaches_player id s) r = (attach_player d id s r).1
  handle (attaches_host id s) r = (attach_host id s r).1
  handle (detaches s) r = detach s r
  handle starts r = start_session d r
  handle ends r = end_session d r
  handle (kicks id) r = kick d id r
  handle (asks_next id) r = next_question d id r
  handle (answers id question_id chosen) r = answer d id question_id chosen r
  handle leaderboard_fires r = leaderboard_timer d r
  handle deadline_fires r = end_session d r

  unfoldable pub stop : Room World → Room World
  stop r = record r { log = stopped ∷ timers_stopped ∷ r.log }

  -- The loop stops behind the event that ends the room; later events find it closed. When the events
  -- run out, the context is cancelled.
  unfoldable pub loop : List Event → Room World → Room World
  loop [] r = stop (close_all r)
  loop (e ∷ es) r =
      let rest = loop es (handle e r) in
      if is_ended (handle e r).status then stop (handle e r) else rest

  unfoldable pub add_players : List Player → Room World → Room World
  add_players [] r = r
  add_players (p ∷ ps) r = add_players ps (add_player p r)

  unfoldable pub empty_room : RoomData → List Question → World → Room World
  empty_room row questions w = record {
    id = row.id;
    pin = row.pin;
    host_id = row.host_id;
    jenjang = row.jenjang;
    accuracy_mode = row.accuracy_mode;
    questions = questions;
    status = row.status;
    players = [];
    order = [];
    host = none;
    lb_dirty = false;
    lb_last = none;
    lb_waiting = false;
    log = [];
    world = w;
  }

  -- The deadline of a restored room: max(12 min - time since the start, 1 ms).
  unfoldable pub arm_remaining : ℕ → Room World → Room World
  arm_remaining started_at r =
      if is_running r.status
      then (let (now, w) = d.wall_clock r.world in
          let left = max (max_room_duration + started_at - now) millisecond in
          record r { world = w; log = deadline_armed left ∷ r.log })
      else r

  -- The first event of the loop restores the leaderboard.
  unfoldable pub new_room : RoomData → List Player → List Question → World → Room World
  new_room row players questions w =
      restore_board d
        (arm_remaining row.started_at (add_players players (empty_room row questions w)))
