-- ===== src/Tests/Results.antt =====
-- Storing a result, and reading the player again, at concrete tables.
use jejak_inderasakti_be.Shared.{
  ◌*◌, ◌≡◌, refl, pos, String-discrete, true, false, [], ◌∷◌, none, some, arith, ◌+ℤ◌,
}
use jejak_inderasakti_be.Store.Types.{Result}
use jejak_inderasakti_be.Store.Database.{Database, PlayerRow}
use jejak_inderasakti_be.Store.Rooms.{commits, committed, to_int16}
use jejak_inderasakti_be.Store.Progress.{
  SaveFaults, has_answer, has_player_row, insert_answer, update_player_progress, answer_params,
  save_progress, save_answer, save_result, player_of_row, error_of,
}
use jejak_inderasakti_be.Store.Restored.{find_row, IsAtomic, save_result_lem}
use jejak_inderasakti_be.Game.Scoring.{second}
use jejak_inderasakti_be.Game.Play.Options.{Outcome}
use jejak_inderasakti_be.Game.Play.Resolve.{advance, result_of, is_right}
use jejak_inderasakti_be.Game.Room.{state_of}
use jejak_inderasakti_be.Game.Invariant.Defs.{IsSound}
use jejak_inderasakti_be.Game.Effects.Restored.{totals, restored_lem}
use jejak_inderasakti_be.Tests.Sample.{ani, shown, running_room}

abbrev ani_row : PlayerRow
ani_row = record {
  id = "ani";
  room_id = "room";
  nickname = "ani";
  school_id = none;
  jenjang = "SMP";
  avatar = 1;
  lang = "id";
  score = 0;
  correct_count = 0;
  total_ms = 0;
  current_index = 0;
  streak = 0;
  finished_at = none;
}

abbrev tables : Database
tables = record {
  hosts = [];
  questions = [];
  rooms = [];
  players = ani_row ∷ [];
  answers = [];
  schools = [];
}

abbrev works : SaveFaults
works = record {
  begin_fails = false;
  insert_fails = false;
  update_fails = false;
  commit = commits;
  now = 111 * second;
}

-- Ani's answer after ten seconds.
abbrev right : Outcome
right = record {
  option_id = some "opt-a";
  correct = some true;
  answered_at = some (110 * second);
  points = 750;
  spent_ms = pos 10000;
}

abbrev result : Result
result = record {
  player_id = "ani";
  question_id = "M1-01";
  served_at = 100 * second;
  answered_at = some (110 * second);
  option_id = some "opt-a";
  correct = some true;
  points = 750;
  score = 750;
  correct_count = 1;
  total_ms = pos 10000;
  current_index = 1;
  streak = 1;
  finished = false;
}

result_run : result_of ani shown right (advance ani right) false ≡ result
unfolding result_of advance is_right ◌+ℤ◌
result_run = refl

save_run : (save_result (λ s. some s) works result tables).0 ≡ none
unfolding save_result save_answer has_player_row insert_answer has_answer answer_params
    save_progress update_player_progress to_int16 committed error_of String-discrete
save_run = refl

save_result_lem_example :
    IsAtomic works "ani" result tables (save_result (λ s. some s) works result tables)
save_result_lem_example = save_result_lem (λ s. some s) works "ani" result tables refl

advanced-IsSound : IsSound running_room.questions (advance ani right)
unfolding advance is_right ◌+ℤ◌
advanced-IsSound = record {
  within = omega arith;
  correct_le = omega arith;
  streak_le = omega arith;
  score_le = omega arith;
  time_le = omega arith;
  next = tt;
}

advanced_saved :
    (save_result (λ s. some s) works (result_of ani shown right (advance ani right) false) tables).0
    ≡ none
advanced_saved = rw result_run save_run

restored_lem_example :
    (again : PlayerRow) × (find_row "ani"
        (save_result
          (λ s. some s)
          works
          (result_of ani shown right (advance ani right) false)
          tables).1.players
      ≡ some again)
    × (totals (state_of (player_of_row [] again)) ≡ totals (advance ani right))
unfolding String-discrete
restored_lem_example =
    restored_lem (λ s. some s) works tables running_room.questions ani shown right false ani_row
      "ani" refl refl (omega arith) advanced-IsSound advanced_saved
