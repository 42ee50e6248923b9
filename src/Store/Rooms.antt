-- ===== src/Store/Rooms.antt =====
-- api/internal/store/store.go: creating a room and joining it, each a transaction on the tables.
use jejak_inderasakti_be.Shared.{
  ℤ, negsuc, ℕ, zero, suc, pos, String, Bool, false, List, Option, none, some, leb, if◌then◌else◌,
  maybe, min,
}
use jejak_inderasakti_be.Store.Types.{
  RoomData, Player, Status, not_found, max_rooms, room_full, nickname_taken, invalid_school, other,
  Fallible, ok, err,
}
use jejak_inderasakti_be.Store.Database.{
  Database, PlayerRow, count_active_rooms, insert_room, lock_room_for_join, count_room_players,
  insert_player_row, get_school_name,
}

abbrev pub max_active_rooms : ℕ
max_active_rooms = 5

abbrev pub max_players_in_room : ℕ
max_players_in_room = 15

abbrev pub pin_attempts : ℕ
pin_attempts = 8

pub record NewRoom : Type 0 where
  pub host_id : String
  pub jenjang : String
  pub short_session : Bool
  pub accuracy_mode : Bool
  pub question_ids : List String

pub record NewPlayer : Type 0 where
  pub room_id : String
  pub nickname : String
  pub jenjang : String
  pub lang : String
  pub school_id : Option ℤ
  pub avatar : ℕ

-- How a commit ends. An error may hide a commit that the database has done.
pub data Commit : Type 0 where
  commits loses commits_unheard : Commit

-- Which calls of the database fail in one transaction, and the id that it gives to a new row.
pub record Faults : Type 0 where
  pub begin_fails : Bool
  pub lock_fails : Bool
  pub count_fails : Bool
  pub school_fails : Bool
  pub insert_fails : Bool
  pub commit : Commit
  pub new_id : String

-- What the caller hears and what the tables become when a transaction commits.
unfoldable pub committed : {A : Type 0} → Commit → A → Database → Database → Fallible A × Database
committed commits a before after = (ok a, after)
committed loses a before after = (err other, before)
committed commits_unheard a before after = (err other, after)

abbrev pub new_room_data : String → String → String → NewRoom → RoomData
new_room_data id host_id pin new = record {
  id = id;
  pin = pin;
  host_id = host_id;
  jenjang = new.jenjang;
  short_session = new.short_session;
  accuracy_mode = new.accuracy_mode;
  status = Status.lobby;
  question_ids = new.question_ids;
  started_at = 0;
}

-- The reply of `insertRoom`; none where the PIN is taken.
unfoldable pub insert_room_tx :
    Faults → ℕ → RoomData → Database → Option (Fallible RoomData) × Database
insert_room_tx f now room db =
    if f.begin_fails
    then (some (err other), db)
    else if f.lock_fails
    then (some (err other), db)
    else if f.count_fails
    then (some (err other), db)
    else if leb max_active_rooms (count_active_rooms now db.rooms)
    then (some (err max_rooms), db)
    else if f.insert_fails
    then (some (err other), db)
    else maybe (insert_room (record { room = room; created_at = now }) db.rooms) ((none, db))
        (λ rows.
          let (reply, after) = committed f.commit room db (record db { rooms = rows }) in
          (some reply, after))

-- The attempts left, and the number of this one, which has its own PIN and transaction.
unfoldable pub create_room_from :
    ℕ
    → ℕ
    → (ℕ → Option String)
    → (ℕ → Faults)
    → ℕ
    → String
    → NewRoom
    → Database
    → Fallible RoomData × Database
create_room_from zero i random_pin faults now host_id new db = (err other, db)
create_room_from (suc left) i random_pin faults now host_id new db =
    maybe (random_pin i) ((err other, db)) (λ pin.
      let (reply, after) =
        insert_room_tx (faults i) now (new_room_data (faults i).new_id host_id pin new) db in
      let again = create_room_from left (suc i) random_pin faults now host_id new after in
      maybe reply again (λ r. (r, after)))

-- uuid.Parse is `parse`, and the PIN of attempt `i` is `random_pin i`.
unfoldable pub create_room :
    (String → Option String)
    → (ℕ → Option String)
    → (ℕ → Faults)
    → ℕ
    → NewRoom
    → Database
    → Fallible RoomData × Database
create_room parse random_pin faults now new db =
    maybe (parse new.host_id) ((err other, db))
      (λ host_id. create_room_from pin_attempts zero random_pin faults now host_id new db)

-- A column holds fewer values than an int: a larger number is stored as the largest one.
unfoldable pub to_int16 : ℕ → ℕ
to_int16 v = min v 32767

unfoldable pub to_int32 : ℕ → ℕ
to_int32 v = min v 2147483647

-- The same for an id, which may be negative.
unfoldable pub clamp_int32 : ℤ → ℤ
clamp_int32 (pos n) = pos (to_int32 n)
clamp_int32 (negsuc n) = negsuc (min n 2147483647)

abbrev pub column_of : Option ℤ → Option ℤ
column_of none = none
column_of (some id) = some (clamp_int32 id)

abbrev pub player_row : String → String → NewPlayer → PlayerRow
player_row id room_id new = record {
  id = id;
  room_id = room_id;
  nickname = new.nickname;
  school_id = column_of new.school_id;
  jenjang = new.jenjang;
  avatar = to_int16 new.avatar;
  lang = new.lang;
  score = 0;
  correct_count = 0;
  total_ms = 0;
  current_index = 0;
  streak = 0;
  finished_at = none;
}

abbrev pub new_player_info : String → String → NewPlayer → Player
new_player_info id school new = record {
  id = id;
  nickname = new.nickname;
  school = school;
  lang = new.lang;
  avatar = new.avatar;
  score = 0;
  correct_count = 0;
  total_ms = pos 0;
  current_index = 0;
  streak = 0;
  finished = false;
}

-- The name of the player's school, empty without one; none for a school that is not in the table.
-- Also none where the read fails.
unfoldable pub school_name : Bool → Option ℤ → List (ℕ × String) → Option String
school_name fails none schools = some ""
school_name fails (some id) schools =
    if fails then none else get_school_name (clamp_int32 id) schools

unfoldable pub insert_player : Faults → String → NewPlayer → Database → Fallible Player × Database
insert_player f room_id new db =
    maybe (school_name f.school_fails new.school_id db.schools) ((err invalid_school, db))
      (λ school.
        if f.insert_fails
        then (err other, db)
        else maybe (insert_player_row (player_row f.new_id room_id new) db.players)
            ((err nickname_taken, db))
            (λ rows.
              committed f.commit (new_player_info f.new_id school new) db
                (record db { players = rows })))

-- The lock on the row of the room makes joins of one room follow one another.
unfoldable pub join_room :
    (String → Option String) → Faults → NewPlayer → Database → Fallible Player × Database
join_room parse f new db = maybe (parse new.room_id) ((err not_found, db)) (λ room_id.
    if f.begin_fails
    then (err other, db)
    else if f.lock_fails
    then (err other, db)
    else if lock_room_for_join room_id db.rooms
    then (if f.count_fails
        then (err other, db)
        else if leb max_players_in_room (count_room_players room_id db.players)
        then (err room_full, db)
        else insert_player f room_id new db)
    else (err not_found, db))
