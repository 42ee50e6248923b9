-- ===== src/Tests/Joins.antt =====
-- The route to join a room at concrete requests.
use jejak_inderasakti_be.Shared.{negsuc, ◌≡◌, inl, refl, String-discrete, some, arith, ap}
use jejak_inderasakti_be.Auth.{new_numeric_date, sign, issue_player}
use jejak_inderasakti_be.Store.Database.{
  get_active_room_by_pin, get_room_by_id, is_open, lock_room_for_join, count_room_players,
  insert_player_row, has_nickname, get_school_name,
}
use jejak_inderasakti_be.Store.Rooms.{
  join_room as store_join_room, insert_player, school_name, clamp_int32, committed,
}
use jejak_inderasakti_be.Store.Hosts.{room_by_pin, room_by_id, not_found_or}
use jejak_inderasakti_be.Store.Progress.{players_of_room, list_room_players, players_of_rows}
use jejak_inderasakti_be.Store.Questions.{
  questions_by_ids, get_questions_by_ids, has_text, questions_from_rows, question_from_row, ordered,
  by_id,
}
use jejak_inderasakti_be.Game.Registry.{
  add_player as add_live, get, lookup, find_pointer, load, load_found, load_open, load_questions,
  start_of, spawn_loaded, spawn, start_room, pass_on,
}
use jejak_inderasakti_be.Store.Seats.{HasSeats}
use jejak_inderasakti_be.Http.Requests.{
  JoinRequest, Response, player_token_body, write_json, write_invalid, write_error, validate_join,
  valid_jenjang, valid_lang, is_bad_avatar,
}
use jejak_inderasakti_be.Http.Api.{Api}
use jejak_inderasakti_be.Http.Handlers.{
  room_or_error, active_room, allow_join, handle_join_error, enter_room, joined, join_active_room,
  join_request, join_room,
}
use jejak_inderasakti_be.Http.Joining.{
  trimmed, HasEntered, join_room-HasSeats, join_room-HasEntered, join_room-IsRefused,
}
use jejak_inderasakti_be.Tests.Api.{joining, texts, api, server, calls, request}

server-HasSeats : HasSeats server.db
unfolding count_room_players
server-HasSeats = ((λ id. omega arith), tt)

join_room_run :
    (join_room api (request "") calls server).0 ≡ write_json 200 (player_token_body "player token")
unfolding join_room allow_join join_request validate_join valid_jenjang valid_lang is_bad_avatar
    active_room room_by_pin not_found_or room_or_error get_active_room_by_pin is_open
    join_active_room store_join_room lock_room_for_join count_room_players insert_player school_name
    insert_player_row has_nickname committed joined enter_room add_live get lookup find_pointer load
    room_by_id get_room_by_id load_found load_open players_of_room list_room_players players_of_rows
    load_questions questions_by_ids get_questions_by_ids has_text questions_from_rows
    question_from_row ordered by_id start_of spawn_loaded spawn start_room pass_on issue_player sign
    new_numeric_date String-discrete write_json
join_room_run = refl

join_room-HasSeats_example : HasSeats (join_room api (request "") calls server).1.db
join_room-HasSeats_example = join_room-HasSeats api (request "") calls server server-HasSeats

join_room-HasEntered_example :
    (r : JoinRequest) × (texts.join_body "{}" ≡ some r)
    × HasEntered api
        (trimmed api r)
        (request "")
        calls
        server
        (join_room api (request "") calls server).0
        (join_room api (request "") calls server).1
unfolding write_json
join_room-HasEntered_example =
    join_room-HasEntered api (request "") calls server server-HasSeats
      (ap (λ (w : Response). w.status) join_room_run)

-- The school of this request is not in the table.
abbrev elsewhere : Api
elsewhere = record api {
  texts = record texts { join_body = λ s. some (record joining { school_id = some (negsuc 6) }) };
}

join_room_refused :
    (join_room elsewhere (request "") calls server).0 ≡ write_invalid "unknown school_id"
unfolding join_room allow_join join_request validate_join valid_jenjang valid_lang is_bad_avatar
    active_room room_by_pin not_found_or room_or_error get_active_room_by_pin is_open
    join_active_room store_join_room lock_room_for_join count_room_players insert_player school_name
    get_school_name joined handle_join_error String-discrete write_invalid clamp_int32
join_room_refused = refl

join_room-IsRefused_example : (join_room elsewhere (request "") calls server).1.db ≡ server.db
unfolding write_invalid write_error write_json
join_room-IsRefused_example =
    join_room-IsRefused elsewhere (request "") calls server
      (inl (ap (λ (w : Response). w.status) join_room_refused))
