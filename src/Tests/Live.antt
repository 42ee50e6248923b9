-- ===== src/Tests/Live.antt =====
-- The registry of rooms at concrete callers.
use jejak_inderasakti_be.Shared.{
  String, map, none, ◌≡◌, inr, refl, String-discrete, List, [], ◌∷◌, some, arith, All,
}
use jejak_inderasakti_be.Store.Types.{RoomData, Status, Fallible, ok, err}
use jejak_inderasakti_be.Store.Database.{Database, get_room_by_id}
use jejak_inderasakti_be.Store.Hosts.{room_by_id, not_found_or}
use jejak_inderasakti_be.Store.Progress.{
  players_of_room, list_room_players, players_of_rows, player_of_row,
}
use jejak_inderasakti_be.Store.Questions.{
  questions_by_ids, questions_from_rows, get_questions_by_ids, has_text, question_from_row, ordered,
  by_id,
}
use jejak_inderasakti_be.Game.Registry.{
  Start, find_pointer, remove_pointer, lookup, start_room, spawn, forget, load, load_found,
  load_open, load_questions, start_of,
}
use jejak_inderasakti_be.Game.Registry.Keys.{IsTidy}
use jejak_inderasakti_be.Game.Registry.Laws.{
  move, Move, spawns, forgets, moves, IsKept, spawn-moves,
}
use jejak_inderasakti_be.Game.Registry.Loading.{IsLoaded, load-IsLoaded}
use jejak_inderasakti_be.Game.Room.{state_of, new_room}
use jejak_inderasakti_be.Game.Invariant.Defs.{core, IsValid}
use jejak_inderasakti_be.Game.Invariant.Restored.{IsStored, new_room-IsValid}
use jejak_inderasakti_be.Tests.Sample.{quiet, running_room, newcomer}
use jejak_inderasakti_be.Tests.Api.{lobby_room, no_rooms, json, loads, played_server}

abbrev first_start : Start
first_start = record { data_ = lobby_room; players = []; questions = [] }

abbrev other_start : Start
other_start = record { data_ = record lobby_room { id = "r2" }; players = []; questions = [] }

abbrev between : List Move
between = spawns other_start ∷ forgets "r2" 1 ∷ forgets "r1" 7 ∷ []

moves_run : lookup "r1" (moves between (spawn first_start no_rooms).1) ≡ some 0
unfolding moves move spawn lookup find_pointer start_room forget remove_pointer String-discrete
moves_run = refl

between-IsKept : All (IsKept "r1" (spawn first_start no_rooms).0) between
unfolding spawn lookup find_pointer
between-IsKept = (tt, (inr (λ e. omega (arith, e)), (inr (λ e. omega (arith, e)), tt)))

spawn-moves_example :
    IsTidy (moves between (spawn first_start no_rooms).1)
    × ((spawn first_start (moves between (spawn first_start no_rooms).1)).0
        ≡ (spawn first_start no_rooms).0)
spawn-moves_example =
    spawn-moves first_start first_start between no_rooms (tt, tt) refl between-IsKept

-- The nicknames of the players that are loaded.
abbrev nicknames : Fallible Start × Database → List String
nicknames (ok s, after) = map (λ p. p.nickname) s.players
nicknames (err e, after) = []

load_run : nicknames (load (λ s. some s) json loads "r1" played_server.db) ≡ "@budi" ∷ "ani" ∷ []
unfolding load room_by_id not_found_or get_room_by_id load_found load_open load_questions
    players_of_room list_room_players players_of_rows player_of_row questions_by_ids start_of
    questions_from_rows get_questions_by_ids has_text question_from_row ordered by_id
    String-discrete
load_run = refl

load-IsLoaded_example :
    IsLoaded
      (λ s. some s)
      json
      loads
      "r1"
      played_server.db
      (load (λ s. some s) json loads "r1" played_server.db)
load-IsLoaded_example = load-IsLoaded (λ s. some s) json loads "r1" played_server.db

abbrev started_room : RoomData
started_room = record lobby_room { status = Status.running; started_at = 0 }

newcomer-IsStored : IsStored started_room running_room.questions (newcomer "ani")
unfolding state_of
newcomer-IsStored = (
  record {
    within = omega arith;
    correct_le = omega arith;
    streak_le = omega arith;
    score_le = omega arith;
    time_le = omega arith;
    next = tt;
  },
  (λ e. cc),
)

new_room-IsValid_example :
    let made = core (new_room quiet started_room (newcomer "ani" ∷ []) running_room.questions 0) in
    IsValid made × (made.players ≡ map state_of (newcomer "ani" ∷ [])) × (made.host ≡ none)
new_room-IsValid_example =
    new_room-IsValid quiet started_room (newcomer "ani" ∷ []) running_room.questions 0 (omega arith)
      (tt, tt) (newcomer-IsStored, tt)
