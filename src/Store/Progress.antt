-- ===== src/Store/Progress.antt =====
-- api/internal/store/gameplay.go, SaveResult, and store.go, PlayersOfRoom, with their statements of
-- api/internal/store/queries/answers.sql.go and players.sql.go: the answers and the progress of players.
use jejak_inderasakti_be.Shared.{
  ℕ, ℤ, pos, negsuc, String, Bool, true, false, not, ◌&&◌, ◌||◌, List, [], ◌∷◌, ◌++◌, Option, none,
  some, leb, if◌then◌else◌, same, maybe,
}
use jejak_inderasakti_be.Store.Types.{
  Player, Result, Fallible, ok, err, StoreError, not_found, duplicate_answer, other,
}
use jejak_inderasakti_be.Store.Database.{Database, PlayerRow, AnswerRow, get_school_name}
use jejak_inderasakti_be.Store.Rooms.{Commit, committed, to_int16, to_int32}

-- The primary key (room_player_id, question_id).
unfoldable pub has_answer : String → String → List AnswerRow → Bool
has_answer player_id question_id [] = false
has_answer player_id question_id (row ∷ rows) =
    same row.player_id player_id && same row.question_id question_id
    || has_answer player_id question_id rows

-- The foreign key of an answer to its player.
unfoldable pub has_player_row : String → List PlayerRow → Bool
has_player_row id [] = false
has_player_row id (row ∷ rows) = same row.id id || has_player_row id rows

-- ON CONFLICT (room_player_id, question_id) DO NOTHING: none where no row is affected.
unfoldable pub insert_answer : AnswerRow → List AnswerRow → Option (List AnswerRow)
insert_answer row rows =
    if has_answer row.player_id row.question_id rows then none else some (rows ++ row ∷ [])

-- The columns of one player after the statement.
unfoldable pub with_progress : ℕ → Result → ℕ → PlayerRow → PlayerRow
with_progress now r total_ms row = record row {
  score = to_int32 r.score;
  correct_count = to_int16 r.correct_count;
  total_ms = to_int32 total_ms;
  current_index = to_int16 r.current_index;
  streak = to_int16 r.streak;
  finished_at = if r.finished then some (maybe row.finished_at now (λ t. t)) else row.finished_at;
}

-- WHERE id = $1
unfoldable pub update_rows : String → (PlayerRow → PlayerRow) → List PlayerRow → List PlayerRow
update_rows id f [] = []
update_rows id f (row ∷ rows) =
    let rest = update_rows id f rows in if same row.id id then f row ∷ rest else row ∷ rest

-- The statement fails where a CHECK does: total_ms >= 0, current_index BETWEEN 0 AND 15.
unfoldable pub update_player_progress :
    ℕ → String → Result → ℤ → List PlayerRow → Option (List PlayerRow)
update_player_progress now id r (pos total_ms) rows =
    if has_player_row id rows && not (leb (to_int16 r.current_index) 15)
    then none
    else some (update_rows id (with_progress now r total_ms) rows)
update_player_progress now id r (negsuc n) rows = if has_player_row id rows then none else some rows

-- `ORDER BY created_at` is the order of the table.
unfoldable pub list_room_players : String → List PlayerRow → List PlayerRow
list_room_players room_id [] = []
list_room_players room_id (row ∷ rows) =
    let rest = list_room_players room_id rows in
    if same row.room_id room_id then row ∷ rest else rest

-- Which calls fail in the transaction, and when it runs.
pub record SaveFaults : Type 0 where
  pub begin_fails : Bool
  pub insert_fails : Bool
  pub update_fails : Bool
  pub commit : Commit
  pub now : ℕ

unfoldable pub answer_params : String → Result → AnswerRow
answer_params player_id r = record {
  player_id = player_id;
  question_id = r.question_id;
  served_at = r.served_at;
  answered_at = r.answered_at;
  option_id = r.option_id;
  correct = r.correct;
  points = to_int16 r.points;
}

unfoldable pub error_of : Fallible (Unit {0}) × Database → Option StoreError × Database
error_of (ok _, after) = (none, after)
error_of (err e, after) = (some e, after)

unfoldable pub save_progress :
    SaveFaults → String → Result → List AnswerRow → Database → Option StoreError × Database
save_progress f id r answers db =
    if f.update_fails
    then (some other, db)
    else maybe (update_player_progress f.now id r r.total_ms db.players) ((some other, db))
        (λ players.
          error_of (committed f.commit tt db (record db { players = players; answers = answers })))

unfoldable pub save_answer : SaveFaults → String → Result → Database → Option StoreError × Database
save_answer f id r db =
    if f.insert_fails || not (has_player_row id db.players)
    then (some other, db)
    else maybe (insert_answer (answer_params id r) db.answers) ((some duplicate_answer, db))
        (λ answers. save_progress f id r answers db)

-- The answer and the totals are stored together. The question is one of the table of questions.
unfoldable pub save_result :
    (String → Option String) → SaveFaults → Result → Database → Option StoreError × Database
save_result parse f r db =
    maybe (parse r.player_id) ((some not_found, db))
      (λ id. if f.begin_fails then (some other, db) else save_answer f id r db)

-- The name of a stored school, empty without one.
unfoldable pub joined_school : Option ℤ → List (ℕ × String) → String
joined_school none schools = ""
joined_school (some id) schools = maybe (get_school_name id schools) "" (λ name. name)

-- `lang` is a CHAR(2) that is "id" or "en" by a CHECK, so that trimming it changes nothing.
unfoldable pub player_of_row : List (ℕ × String) → PlayerRow → Player
player_of_row schools row = record {
  id = row.id;
  nickname = row.nickname;
  school = joined_school row.school_id schools;
  lang = row.lang;
  avatar = row.avatar;
  score = row.score;
  correct_count = row.correct_count;
  total_ms = pos row.total_ms;
  current_index = row.current_index;
  streak = row.streak;
  finished = maybe row.finished_at false (λ _. true);
}

unfoldable pub players_of_rows : List (ℕ × String) → List PlayerRow → List Player
players_of_rows schools [] = []
players_of_rows schools (row ∷ rows) = player_of_row schools row ∷ players_of_rows schools rows

-- `fails` is an error of the database.
unfoldable pub players_of_room :
    (String → Option String) → Bool → String → Database → Fallible (List Player)
players_of_room parse fails room_id db = maybe (parse room_id) (err not_found) (λ id.
    if fails then err other else ok (players_of_rows db.schools (list_room_players id db.players)))
