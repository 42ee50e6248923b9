-- ===== src/Store/Database.antt =====
-- api/internal/store/queries/models.go, rooms.sql.go, players.sql.go and schools.sql.go: the tables, and
-- statements that the store runs on them.
use jejak_inderasakti_be.Shared.{
  ℤ, pos, negsuc, ℕ, suc, ◌+◌, ◌*◌, String, Bool, true, false, ◌&&◌, ◌||◌, List, [], ◌∷◌, ◌++◌,
  Option, none, some, ltb, ◌==◌, if◌then◌else◌, same,
}
use jejak_inderasakti_be.Store.Types.{RoomData, Status}

pub record RoomRow : Type 0 where
  pub room : RoomData
  pub created_at : ℕ

pub record PlayerRow : Type 0 where
  pub id : String
  pub room_id : String
  pub nickname : String
  pub school_id : Option ℤ
  pub jenjang : String
  pub avatar : ℕ
  pub lang : String
  pub score : ℕ
  pub correct_count : ℕ
  pub total_ms : ℕ
  pub current_index : ℕ
  pub streak : ℕ
  pub finished_at : Option ℕ

pub record AnswerRow : Type 0 where
  pub player_id : String
  pub question_id : String
  pub served_at : ℕ
  pub answered_at : Option ℕ
  pub option_id : Option String
  pub correct : Option Bool
  pub points : ℕ

pub record HostRow : Type 0 where
  pub id : String
  pub email : String
  pub password_hash : String
  pub name : String
  pub last_login_at : Option ℕ

-- Prompt, explanation and options are JSON.
pub record QuestionRow : Type 0 where
  pub id : String
  pub site : ℕ
  pub level : ℕ
  pub kind : String
  pub prompt : String
  pub options : String
  pub explanation : String
  pub active : Bool

pub record Database : Type 0 where
  pub hosts : List HostRow
  pub questions : List QuestionRow
  pub rooms : List RoomRow
  pub players : List PlayerRow
  pub answers : List AnswerRow
  pub schools : List (ℕ × String)

abbrev pub two_hours : ℕ
two_hours = 7200 * 1000000000

unfoldable pub is_open : Status → Bool
is_open Status.lobby = true
is_open Status.running = true
is_open Status.ended = false

unfoldable pub is_waiting : Status → Bool
is_waiting Status.lobby = true
is_waiting Status.running = false
is_waiting Status.ended = false

-- status != 'ended' AND created_at > NOW() - INTERVAL '2 hours'
unfoldable pub is_active_room : ℕ → RoomRow → Bool
is_active_room now row = is_open row.room.status && ltb now (row.created_at + two_hours)

unfoldable pub count_active_rooms : ℕ → List RoomRow → ℕ
count_active_rooms now [] = 0
count_active_rooms now (row ∷ rows) =
    let rest = count_active_rooms now rows in if is_active_room now row then suc rest else rest

-- WHERE pin = $1 AND status != 'ended'
unfoldable pub get_active_room_by_pin : String → List RoomRow → Option RoomData
get_active_room_by_pin pin [] = none
get_active_room_by_pin pin (row ∷ rows) =
    let rest = get_active_room_by_pin pin rows in
    if same row.room.pin pin && is_open row.room.status then some row.room else rest

-- WHERE id = $1
unfoldable pub get_room_by_id : String → List RoomRow → Option RoomData
get_room_by_id id [] = none
get_room_by_id id (row ∷ rows) =
    let rest = get_room_by_id id rows in if same row.room.id id then some row.room else rest

-- The constraint UNIQUE on rooms.pin.
unfoldable pub has_pin : String → List RoomRow → Bool
has_pin pin [] = false
has_pin pin (row ∷ rows) = same row.room.pin pin || has_pin pin rows

-- The new row; none where the PIN is taken.
unfoldable pub insert_room : RoomRow → List RoomRow → Option (List RoomRow)
insert_room row rows = if has_pin row.room.pin rows then none else some (rows ++ (row ∷ []))

-- WHERE id = $1 AND status != 'ended' FOR UPDATE
unfoldable pub lock_room_for_join : String → List RoomRow → Bool
lock_room_for_join id [] = false
lock_room_for_join id (row ∷ rows) =
    same row.room.id id && is_open row.room.status || lock_room_for_join id rows

unfoldable pub count_room_players : String → List PlayerRow → ℕ
count_room_players room_id [] = 0
count_room_players room_id (row ∷ rows) =
    let rest = count_room_players room_id rows in
    if same row.room_id room_id then suc rest else rest

-- The constraint UNIQUE (room_id, nickname).
unfoldable pub has_nickname : String → String → List PlayerRow → Bool
has_nickname room_id nickname [] = false
has_nickname room_id nickname (row ∷ rows) =
    same row.room_id room_id && same row.nickname nickname || has_nickname room_id nickname rows

unfoldable pub insert_player_row : PlayerRow → List PlayerRow → Option (List PlayerRow)
insert_player_row row rows =
    if has_nickname row.room_id row.nickname rows then none else some (rows ++ (row ∷ []))

unfoldable pub delete_player_row : String → List PlayerRow → List PlayerRow
delete_player_row id [] = []
delete_player_row id (row ∷ rows) =
    let rest = delete_player_row id rows in if same row.id id then rest else row ∷ rest

-- The ids of schools are a SERIAL, from 1 on.
unfoldable pub get_school_name : ℤ → List (ℕ × String) → Option String
get_school_name (negsuc m) schools = none
get_school_name (pos id) [] = none
get_school_name (pos id) ((n, name) ∷ schools) =
    if n == id then some name else get_school_name (pos id) schools

-- SET status = 'running', started_at = NOW() WHERE id = $1 AND status = 'lobby', with whether a row is
-- affected.
unfoldable pub mark_started_rows : ℕ → String → List RoomRow → Bool × List RoomRow
mark_started_rows now id [] = (false, [])
mark_started_rows now id (row ∷ rows) =
    let (found, rest) = mark_started_rows now id rows in
    if same row.room.id id && is_waiting row.room.status
    then (
      true,
      record row { room = record row.room { status = Status.running; started_at = now } } ∷ rest,
    )
    else (found, row ∷ rest)

-- SET status = 'ended' WHERE id = $1 AND status != 'ended'
unfoldable pub mark_ended_rows : String → List RoomRow → List RoomRow
mark_ended_rows id [] = []
mark_ended_rows id (row ∷ rows) =
    let rest = mark_ended_rows id rows in
    if same row.room.id id && is_open row.room.status
    then record row { room = record row.room { status = Status.ended } } ∷ rest
    else row ∷ rest
