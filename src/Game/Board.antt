-- ===== src/Game/Board.antt =====
-- The leaderboard of a room (api/internal/game/play.go, from `standings` on).
use jejak_inderasakti_be.Shared.{
  ℕ, ◌+◌, ◌-◌, String, Bool, true, false, ◌&&◌, List, [], ◌∷◌, map, Option, none, some, leb, ◌==◌,
  if◌then◌else◌, length,
}
use jejak_inderasakti_be.Store.Types.{Fallible, ok, err}
use jejak_inderasakti_be.Rank.{Standing}
use jejak_inderasakti_be.Rank
use jejak_inderasakti_be.Game.State.{
  PlayerState, Room, Deps, Sink, Message, Effect, Ranking, sent, leaderboard_armed, lb_update, find,
  lookup_all, number_from,
}

unfoldable pub standing_of : PlayerState → Standing
standing_of p = record {
  player_id = p.info.id;
  score = p.score;
  correct = p.correct;
  total_ms = p.total_ms;
}

unfoldable pub deliver : Option Sink → Message → List Effect → List Effect
deliver none m log = log
deliver (some s) m log = sent s m ∷ log

unfoldable pub deliver_all : List PlayerState → Message → List Effect → List Effect
deliver_all [] m log = log
deliver_all (p ∷ ps) m log = deliver_all ps m (deliver p.sink m log)

unfoldable pub has_player : List PlayerState → String → Bool
has_player ps id = elim (find id ps) [ none ↦ false | some _ ↦ true ]

unfoldable pub all_players : List PlayerState → List String → Bool
all_players ps [] = true
all_players ps (id ∷ ids) = has_player ps id && all_players ps ids

unfoldable pub ranking_of : ℕ × PlayerState → Ranking
ranking_of (n, p) = record {
  rank = n;
  nickname = p.info.nickname;
  school = p.info.school;
  score = p.score;
  correct_count = p.correct;
}

module _ {W : Type 0} where
  -- The host first; the source visits the players of its map in any order.
  unfoldable pub broadcast : Message → Room W → Room W
  broadcast m r = record r { log = deliver_all r.players m (deliver r.host m r.log) }

  unfoldable pub standings : Room W → List Standing
  standings r = map standing_of (lookup_all r.order r.players)

  unfoldable pub covers_all_players : Room W → List String → Bool
  covers_all_players r ids = length ids == length r.players && all_players r.players ids

module _ (d : Deps) where
  open d use {World, float}

  -- A failed save is only logged.
  unfoldable pub save_standings : List Standing → Room World → Room World
  save_standings ss r =
      if d.has_board then record r { world = (d.board_save r.id ss r.world).1 } else r

  unfoldable pub save_standing : PlayerState → Room World → Room World
  save_standing p r = save_standings (standing_of p ∷ []) r

  unfoldable pub restore_board : Room World → Room World
  restore_board r = save_standings (standings r) r

  unfoldable pub forget_standing : String → Room World → Room World
  forget_standing id r =
      if d.has_board then record r { world = (d.board_forget r.id id r.world).1 } else r

  -- The order of the leaderboard store where it covers the players, else that of the memory, which
  -- is then written back.
  unfoldable pub accept_order : Fallible (List String) → Room World → List String × Room World
  accept_order (ok ids) r =
      if covers_all_players r ids
      then (ids, r)
      else (Rank.order float (standings r), save_standings (standings r) r)
  accept_order (err e) r = (Rank.order float (standings r), save_standings (standings r) r)

  unfoldable pub ranked_ids : Room World → List String × Room World
  ranked_ids r =
      if d.has_board
      then (let (ids, w) = d.board_order r.id r.world in accept_order ids (record r { world = w }))
      else (Rank.order float (standings r), r)

  unfoldable pub send_leaderboard : Room World → Room World
  send_leaderboard r =
      let (ids, r') = ranked_ids r in
      let rankings = map ranking_of (number_from 0 (lookup_all ids r'.players)) in
      let r'' = broadcast (lb_update rankings) r' in
      let (now, w) = d.wall_clock r''.world in
      record r'' { lb_dirty = false; lb_last = some now; world = w }

  -- Whether an interval has passed since the last update, or there was none.
  unfoldable pub update_due : Option ℕ → ℕ → Bool
  update_due none now = true
  update_due (some last) now = leb (last + d.lb_interval) now

  unfoldable pub time_left : Option ℕ → ℕ → ℕ
  time_left none now = 0
  time_left (some last) now = last + d.lb_interval - now

  unfoldable pub mark_leaderboard_dirty : Room World → Room World
  mark_leaderboard_dirty r =
      if r.lb_waiting
      then record r { lb_dirty = true }
      else (let (now, w) = d.wall_clock r.world in
          let marked = record r { lb_dirty = true; world = w } in
          if update_due r.lb_last now then send_leaderboard marked else record marked {
            lb_waiting = true;
            log = leaderboard_armed (time_left r.lb_last now) ∷ r.log;
          })
