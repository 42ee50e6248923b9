-- ===== src/Store/Marks.antt =====
-- api/internal/store/store.go, MarkRoomStarted, MarkRoomEnded and DeletePlayer: the calls of a room that
-- is played.
use jejak_inderasakti_be.Shared.{
  ℕ, String, Bool, Option, none, some, if◌then◌else◌, maybe, same, List, [], ◌∷◌,
}
use jejak_inderasakti_be.Store.Types.{StoreError, not_found, other, Fallible, ok, err}
use jejak_inderasakti_be.Store.Database.{
  Database, AnswerRow, mark_started_rows, mark_ended_rows, delete_player_row,
}

unfoldable pub mark_room_started :
    (String → Option String) → Bool → ℕ → String → Database → Fallible Bool × Database
mark_room_started parse fails now room_id db = maybe (parse room_id) ((err not_found, db)) (λ id.
    if fails
    then (err other, db)
    else (let (found, rows) = mark_started_rows now id db.rooms in
        (ok found, record db { rooms = rows })))

unfoldable pub mark_room_ended :
    (String → Option String) → Bool → String → Database → Option StoreError × Database
mark_room_ended parse fails room_id db = maybe (parse room_id) ((some not_found, db)) (λ id.
    if fails then (some other, db) else (none, record db { rooms = mark_ended_rows id db.rooms }))

-- ON DELETE CASCADE
unfoldable pub delete_answers : String → List AnswerRow → List AnswerRow
delete_answers id [] = []
delete_answers id (row ∷ rows) =
    let rest = delete_answers id rows in if same row.player_id id then rest else row ∷ rest

-- The answers of the player go with it.
unfoldable pub delete_player :
    (String → Option String) → Bool → String → Database → Option StoreError × Database
delete_player parse fails player_id db = maybe (parse player_id) ((some not_found, db)) (λ id.
    if fails then (some other, db) else (
      none,
      record db {
        players = delete_player_row id db.players;
        answers = delete_answers id db.answers;
      },
    ))
