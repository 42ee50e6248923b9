-- ===== src/Tests/Hosts.antt =====
-- The routes of hosts at concrete requests.
use mathlib.Core.List.Perm
use jejak_inderasakti_be.Shared.{
  ℕ, ap, [], ◌∷◌, ◌+◌, ◌<◌, ◌≡◌, ◌≢◌, refl, subst, String, String-discrete, true, some, arith,
  if_elim, same,
}
use jejak_inderasakti_be.Auth.{parse, new_numeric_date, sign, issue_host, host_token_ttl}
use jejak_inderasakti_be.Game.Selector.{
  composition, levels_to_ask, bucket, take_next, pick, site_cells, cells_from, shuffled_buckets,
  select_questions,
}
use jejak_inderasakti_be.Store.Database.{
  HostRow, get_room_by_id, is_open, is_active_room, count_active_rooms, has_pin, insert_room,
}
use jejak_inderasakti_be.Store.Rooms.{
  create_room as store_create_room, create_room_from, insert_room_tx, committed,
}
use jejak_inderasakti_be.Store.Progress.{list_room_players, joined_school}
use jejak_inderasakti_be.Store.Results.{
  ResultRow, outranks, count_outranking, ranked_row, ranked_rows, comes_before, insert_result,
  sort_results, get_room_leaderboard, room_results,
}
use jejak_inderasakti_be.Store.Hosts.{
  get_host_by_email, host_by_email, touch_host_login, room_by_id, not_found_or,
}
use jejak_inderasakti_be.Store.Questions.{list_selectable_questions, question_pool}
use jejak_inderasakti_be.Store.Capacity.{HasRooms}
use jejak_inderasakti_be.Http.Requests.{
  LoginRequest, Response, csv_body, safe_cell, starts_formula, is_formula_char, token_body,
  write_json, valid_jenjang,
}
use jejak_inderasakti_be.Http.Handlers.{password_matches, log_in, log_in_loaded, login}
use jejak_inderasakti_be.Http.Hosting.{
  created, create_selected, create_from_pool, create_request, create_room, require_host,
  send_results, export_loaded, safe_row, write_results_csv, export_results, host_of_claims,
  host_of_token,
}
use jejak_inderasakti_be.Http.Access.{
  IsFromHost, IsExport, get_results-IsExport, require_host-IsFromHost,
}
use jejak_inderasakti_be.Http.Created.{IsPlayable, IsCreated, post_rooms-IsCreated}
use jejak_inderasakti_be.Http.Login.{login-IsFromHost}
use jejak_inderasakti_be.Http.Routes.{post_rooms, get_results, serve_http}
use jejak_inderasakti_be.Tests.Tokens.{has_id}
use jejak_inderasakti_be.Tests.Selector.{pool-Nodup}
use jejak_inderasakti_be.Tests.Api.{played_server, texts, api, server, teacher, calls, request}

abbrev line : ℕ → String → ℕ → ResultRow
line rank nickname score = record {
  rank = rank;
  nickname = nickname;
  school = "";
  jenjang = "SD";
  score = score;
  correct_count = 1;
  total_ms = 900;
}

get_results_file :
    (serve_http api get_results (request "host token") calls played_server).0
    ≡ write_json 200 (csv_body "111111" (line 1 "ani" 300 ∷ line 2 "'@budi" 100 ∷ []))
unfolding serve_http require_host host_of_token host_of_claims parse new_numeric_date export_results
    room_by_id not_found_or get_room_by_id export_loaded send_results room_results
    get_room_leaderboard list_room_players ranked_rows ranked_row joined_school count_outranking
    outranks sort_results insert_result comes_before write_results_csv safe_row safe_cell
    starts_formula is_formula_char String-discrete
get_results_file = refl

get_results-IsExport_example :
    IsExport api
      (request "host token")
      calls
      played_server
      (serve_http api get_results (request "host token") calls played_server).0
    × ((serve_http api get_results (request "host token") calls played_server).1 ≡ played_server)
unfolding write_json
get_results-IsExport_example =
    get_results-IsExport api (request "host token") calls played_server
      (ap (λ (response : Response). response.status) get_results_file)

no_token : (host_id : String) → ¬ IsFromHost api (request "") calls host_id
unfolding String-discrete
no_token host_id (raw, claims, b, parsed, role, subject) = cc

require_host-IsFromHost_example :
    let (refused, after) = serve_http api post_rooms (request "") calls server in
    let (unexported, later) = serve_http api get_results (request "") calls server in
    (refused.status ≡ 401) × (after ≡ server) × (unexported.status ≡ 401) × (later ≡ server)
require_host-IsFromHost_example = require_host-IsFromHost api (request "") calls server no_token

pool-IsPlayable : IsPlayable api server
unfolding list_selectable_questions
pool-IsPlayable = ((λ site level ids. Perm.refl ids), pool-Nodup)

server-HasRooms : HasRooms 0 server.db
unfolding count_active_rooms is_active_room is_open
server-HasRooms = (omega arith, (tt, tt))

post_rooms_run : (serve_http api post_rooms (request "host token") calls server).0.status ≡ 201
unfolding serve_http require_host host_of_token host_of_claims parse new_numeric_date create_room
    create_request valid_jenjang create_from_pool question_pool list_selectable_questions
    create_selected select_questions composition levels_to_ask bucket take_next pick site_cells
    cells_from shuffled_buckets store_create_room create_room_from insert_room_tx insert_room
    has_pin count_active_rooms is_active_room is_open committed created write_json String-discrete
post_rooms_run = refl

post_rooms-IsCreated_example :
    let (response, after) = serve_http api post_rooms (request "host token") calls server in
    HasRooms 0 after.db × IsCreated api (request "host token") calls response after
post_rooms-IsCreated_example =
    post_rooms-IsCreated api (request "host token") calls server pool-IsPlayable server-HasRooms
      post_rooms_run

login_run : (login api (request "") calls server).0 ≡ write_json 200 (token_body "host token")
unfolding login host_by_email get_host_by_email log_in_loaded log_in password_matches issue_host
    sign new_numeric_date touch_host_login String-discrete
login_run = refl

server_ids :
    (email : String) (row : HostRow)
    → get_host_by_email email server.db.hosts ≡ some row
    → row.id ≢ ""
unfolding get_host_by_email
server_ids email row e =
    if_elim (λ found. found ≡ some row → row.id ≢ "") (same teacher.email email)
      (λ _ f. let found : teacher ≡ row = cc in subst (λ (r : HostRow). r.id ≢ "") found has_id)
      (λ _ f. cc) e

bearer : texts.cut_bearer "host token" ≡ some "host token"
unfolding String-discrete
bearer = refl

early : 0 < new_numeric_date (0 + host_token_ttl)
unfolding new_numeric_date
early = omega arith

login-IsFromHost_example :
    (r : LoginRequest) × (row : HostRow) × (texts.login_body "{}" ≡ some r)
    × (get_host_by_email r.email server.db.hosts ≡ some row)
    × (row.password_hash ≢ "")
    × (api.compare_hash_and_password row.password_hash r.password ≡ true)
    × IsFromHost api (request "host token") calls row.id
login-IsFromHost_example =
    login-IsFromHost api (request "") (request "host token") calls calls server "host token"
      server_ids login_run bearer early
