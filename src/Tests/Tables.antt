-- ===== src/Tests/Tables.antt =====
-- Creating and joining a room at concrete tables.
use jejak_inderasakti_be.Shared.{
  ℕ, zero, suc, ◌≡◌, refl, String, String-discrete, true, false, [], ◌∷◌, Option, none, some, arith,
}
use jejak_inderasakti_be.Store.Types.{ok}
use jejak_inderasakti_be.Store.Database.{
  Database, is_open, is_active_room, count_active_rooms, insert_room, has_pin, lock_room_for_join,
  count_room_players, has_nickname, insert_player_row,
}
use jejak_inderasakti_be.Store.Rooms.{
  NewRoom, NewPlayer, Faults, commits, committed, new_room_data, new_player_info, insert_room_tx,
  create_room_from, create_room, insert_player, join_room, school_name,
}
use jejak_inderasakti_be.Store.Capacity.{HasRooms, IsFound, create_room_lem}
use jejak_inderasakti_be.Store.Seats.{HasSeats, IsSeated, join_room_lem}

abbrev class_quiz : NewRoom
class_quiz = record {
  host_id = "host";
  jenjang = "SD";
  short_session = true;
  accuracy_mode = false;
  question_ids = "M1-01" ∷ [];
}

-- One room with one player.
abbrev tables : Database
tables = record {
  rooms = record { room = new_room_data "r1" "host" "111111" class_quiz; created_at = 0 } ∷ [];
  players =
      record {
        id = "p1";
        room_id = "r1";
        nickname = "amir";
        school_id = none;
        jenjang = "SD";
        avatar = 1;
        lang = "id";
        score = 0;
        correct_count = 0;
        total_ms = 0;
        current_index = 0;
        streak = 0;
        finished_at = none;
      }
      ∷ [];
  hosts = [];
  questions = [];
  answers = [];
  schools = [];
}

abbrev no_faults : String → Faults
no_faults id = record {
  begin_fails = false;
  lock_fails = false;
  count_fails = false;
  school_fails = false;
  insert_fails = false;
  commit = commits;
  new_id = id;
}

-- The first PIN is taken.
abbrev pins : ℕ → Option String
pins zero = some "111111"
pins (suc n) = some "222222"

tables-HasRooms : HasRooms 1 tables
unfolding count_active_rooms is_active_room is_open
tables-HasRooms = (omega arith, (tt, tt))

tables-HasSeats : HasSeats tables
unfolding count_room_players
tables-HasSeats = ((λ id. ground arith), (tt, tt))

create_room_run :
    (create_room (λ s. some s) pins (λ _. no_faults "r2") 1 class_quiz tables).0
    ≡ ok (new_room_data "r2" "host" "222222" class_quiz)
unfolding create_room create_room_from insert_room_tx insert_room has_pin count_active_rooms
    is_active_room is_open committed String-discrete
create_room_run = refl

create_room_lem_example :
    let (reply, after) = create_room (λ s. some s) pins (λ _. no_faults "r2") 1 class_quiz tables in
    HasRooms 1 after × IsFound reply after
create_room_lem_example =
    create_room_lem (λ s. some s) pins (λ _. no_faults "r2") 1 class_quiz tables tables-HasRooms

abbrev budi : NewPlayer
budi = record {
  room_id = "r1";
  nickname = "budi";
  jenjang = "SD";
  lang = "id";
  school_id = none;
  avatar = 2;
}

join_room_run :
    (join_room (λ s. some s) (no_faults "p2") budi tables).0 ≡ ok (new_player_info "p2" "" budi)
unfolding join_room lock_room_for_join is_open count_room_players insert_player school_name
    insert_player_row has_nickname committed String-discrete
join_room_run = refl

join_room_lem_example :
    let (reply, after) = join_room (λ s. some s) (no_faults "p2") budi tables in
    HasSeats after × IsSeated (λ s. some s) budi tables reply after
join_room_lem_example = join_room_lem (λ s. some s) budi tables (no_faults "p2") tables-HasSeats
