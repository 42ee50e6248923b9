-- ===== src/Http/Hosting.antt =====
-- api/internal/http/handlers.go, createRoom, results.go, exportResults, and middleware.go, requireHost.
use Prim.Native.String.{◌++◌}
use jejak_inderasakti_be.Shared.{
  ℕ, String, not, List, [], ◌∷◌, Option, none, some, if◌then◌else◌, same, maybe,
}
use jejak_inderasakti_be.Auth.{Role, Claims, parse}
use jejak_inderasakti_be.Game.Selector.{QuestionRef, Selected, selected, failed, select_questions}
use jejak_inderasakti_be.Store.Types.{RoomData, StoreError, Fallible, ok, err}
use jejak_inderasakti_be.Store.Rooms.{NewRoom, create_room as store_create_room}
use jejak_inderasakti_be.Store.Hosts.{room_by_id}
use jejak_inderasakti_be.Store.Questions.{question_pool}
use jejak_inderasakti_be.Store.Database.{Database}
use jejak_inderasakti_be.Store.Results.{ResultRow, room_results}
use jejak_inderasakti_be.Http.Requests.{
  CreateRoomRequest, Response, created_body, csv_body, write_error, write_invalid, write_internal,
  write_json, valid_jenjang, safe_cell,
}
use jejak_inderasakti_be.Http.Api.{Api, Calls, ServerOf, Handler}
use jejak_inderasakti_be.Http.Handlers.{bad_json}

abbrev pub new_room : String → CreateRoomRequest → List String → NewRoom
new_room host_id r ids = record {
  host_id = host_id;
  jenjang = r.jenjang;
  short_session = r.short_session;
  accuracy_mode = r.accuracy_mode;
  question_ids = ids;
}

-- The record of one player in the file: the cells that a player chose are made safe.
unfoldable pub safe_row : ResultRow → ResultRow
safe_row row = record row { nickname = safe_cell row.nickname; school = safe_cell row.school }

unfoldable pub write_results_csv : List ResultRow → List ResultRow
write_results_csv [] = []
write_results_csv (row ∷ rows) = safe_row row ∷ write_results_csv rows

unfoldable pub send_results : RoomData → Fallible (List ResultRow) → Response
send_results room (ok rows) = write_json 200 (csv_body room.pin (write_results_csv rows))
send_results room (err e) = write_internal

-- The second read of the request is that of the results.
unfoldable pub export_loaded : Api → Calls → String → Fallible RoomData → Database → Response
export_loaded api c host_id (ok room) db =
    if same room.host_id host_id
    then send_results room (room_results api.collation api.parse_uuid c.second_fails room.id db)
    else write_error 403 "FORBIDDEN" "this room belongs to another host"
export_loaded api c host_id (err StoreError.not_found) db =
    write_error 404 "ROOM_NOT_FOUND" "room not found"
export_loaded api c host_id (err _) db = write_internal

module _ (api : Api) where
  abbrev pub qr_url : String → String
  qr_url pin = api.public_base_url ++ "/join?pin=" ++ pin

  unfoldable pub created : Fallible RoomData → Response
  created (ok room) = write_json 201 (created_body room.id room.pin (qr_url room.pin))
  created (err StoreError.max_rooms) = write_error 409 "MAX_ROOMS" "5 rooms are already active"
  created (err _) = write_internal

  unfoldable pub create_selected :
      String → CreateRoomRequest → Calls → ServerOf api → Selected → Response × ServerOf api
  create_selected host_id r c s (failed e) = (write_internal, s)
  create_selected host_id r c s (selected ids) =
      let (reply, db) =
        store_create_room api.parse_uuid c.random_pin c.faults c.now (new_room host_id r ids)
          s.db in
      (created reply, record s { db = db })

  unfoldable pub create_from_pool :
      String
      → CreateRoomRequest
      → Calls
      → ServerOf api
      → Fallible (List QuestionRef)
      → Response × ServerOf api
  create_from_pool host_id r c s (err e) = (write_internal, s)
  create_from_pool host_id r c s (ok pool) =
      create_selected host_id r c s (select_questions api.shuffle r.jenjang r.short_session pool)

  unfoldable pub create_request :
      String → CreateRoomRequest → Calls → ServerOf api → Response × ServerOf api
  create_request host_id r c s =
      if not (valid_jenjang r.jenjang)
      then (write_invalid "jenjang must be SD, SMP or SMA", s)
      else if not r.consent_confirmed
      then (write_invalid "consent_confirmed must be true", s)
      else create_from_pool host_id r c s (question_pool c.second_fails s.db)

  -- The first argument is the host of the request's context.
  unfoldable pub create_room : String → Handler api
  create_room host_id req c s =
      maybe (api.texts.create_room_body req.body) ((bad_json, s))
        (λ r. create_request host_id r c s)

  unfoldable pub export_results : String → Handler api
  export_results host_id req c s = (
    export_loaded api c host_id (room_by_id api.parse_uuid c.first_fails req.path_id s.db) s.db,
    s,
  )

  unfoldable pub host_of_claims : Claims → Option String
  host_of_claims claims = elim claims.role [ Role.host ↦ some claims.subject | _ ↦ none ]

  -- The host of a token at a time, none for a token that is not a valid one of a host.
  unfoldable pub host_of_token : String → ℕ → Option String
  host_of_token raw now = maybe (parse api.jwt api.tokens raw now) none host_of_claims

  unfoldable pub require_host : (String → Handler api) → Handler api
  require_host next req c s =
      maybe (api.texts.cut_bearer req.authorization)
        ((write_error 401 "UNAUTHORIZED" "missing bearer token", s))
        (λ raw.
          maybe (host_of_token raw c.now)
            ((write_error 401 "UNAUTHORIZED" "invalid or expired token", s))
            (λ host_id. next host_id req c s))
