-- ===== src/Tests/Sample.antt =====
-- A small world: the clock stands still unless a call moves it, the store keeps everything, and there
-- is no leaderboard store.
use mathlib.Core.List.Perm
use jejak_inderasakti_be.Shared.{ℕ, ◌*◌, String, true, false, [], ◌∷◌, none, some, tenths, pos}
use jejak_inderasakti_be.Store.Types.{Status, ok, AnswerOption, Question, Text, Player}
use jejak_inderasakti_be.Game.Scoring.{second}
use jejak_inderasakti_be.Game.State.{ActiveQuestion, PlayerState, Room, Deps}

-- The world is the time of the clock.
abbrev pub quiet : Deps
quiet = record {
  World = ℕ;
  float = tenths;
  clock = λ w. (w, w);
  wall_clock = λ w. (w, w);
  shuffle = λ os w. (os, w);
  shuffle_perm = λ os w. Perm.refl os;
  mark_room_started = λ id w. (ok true, w);
  mark_room_ended = λ id w. (none, w);
  delete_player = λ id w. (none, w);
  save_result = λ r w. (none, w);
  has_board = false;
  board_save = λ id ss w. (none, w);
  board_order = λ id w. (ok [], w);
  board_forget = λ id p w. (none, w);
  lb_interval = second;
}

abbrev text : Text
text = record { id = "ya"; en = "yes" }

abbrev right : AnswerOption
right = record { id = "opt-a"; label = text; correct = true }

abbrev wrong : AnswerOption
wrong = record { id = "opt-b"; label = text; correct = false }

abbrev question : String → Question
question id = record {
  id = id;
  site = 1;
  level = 1;
  kind = "tf";
  prompt = text;
  explanation = text;
  options = right ∷ wrong ∷ [];
}

abbrev pub shown : ActiveQuestion
shown = record {
  question = question "M1-01";
  options = right ∷ wrong ∷ [];
  served_at = 100 * second;
  limit = 15 * second;
}

abbrev pub newcomer : String → Player
newcomer id = record {
  id = id;
  nickname = id;
  school = "";
  lang = "id";
  avatar = 1;
  score = 0;
  correct_count = 0;
  total_ms = pos 0;
  current_index = 0;
  streak = 0;
  finished = false;
}

-- Ani is answering her first question, on connection 7.
abbrev pub ani : PlayerState
ani = record {
  info = newcomer "ani";
  sink = some 7;
  active = some shown;
  score = 0;
  correct = 0;
  total_ms = pos 0;
  streak = 0;
  resolved = 0;
}

-- A running room of two questions, ten seconds after the first was shown.
abbrev pub running_room : Room ℕ
running_room = record {
  id = "room";
  pin = "123456";
  host_id = "host";
  jenjang = "SMP";
  accuracy_mode = false;
  questions = question "M1-01" ∷ question "M1-02" ∷ [];
  status = Status.running;
  players = ani ∷ [];
  order = "ani" ∷ [];
  host = none;
  lb_dirty = false;
  lb_last = none;
  lb_waiting = false;
  log = [];
  world = 110 * second;
}

abbrev pub lobby_room : Room ℕ
lobby_room = record running_room { status = Status.lobby; players = []; order = [] }
