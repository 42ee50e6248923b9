-- ===== src/Http/Handlers.antt =====
-- api/internal/http/handlers.go: login, getRoom and joinRoom.
use Prim.Native.String.{◌++◌}
use jejak_inderasakti_be.Shared.{
  ℕ, ◌-◌, String, Bool, true, not, ◌&&◌, some, if◌then◌else◌, same, maybe, ◌⊎◌, inl, inr, pos_part,
}
use jejak_inderasakti_be.Auth.{issue_host, issue_player}
use jejak_inderasakti_be.Ratelimit.{allow}
use jejak_inderasakti_be.Store.Types.{RoomData, Player, StoreError, Fallible, ok, err}
use jejak_inderasakti_be.Store.Rooms.{NewPlayer, max_players_in_room, join_room as store_join_room}
use jejak_inderasakti_be.Store.Hosts.{
  Host, host_by_email, touch_host_login, room_by_pin, player_count,
}
use jejak_inderasakti_be.Http.Requests.{
  JoinRequest, LoginRequest, Request, Response, token_body, player_token_body, room_body,
  write_error, write_invalid, write_internal, write_json, validate_join, client_ip,
}
use jejak_inderasakti_be.Http.Api.{Api, Calls, ServerOf, Handler}

abbrev pub bad_json : Response
bad_json = write_invalid "request body must be valid JSON"

abbrev pub no_room : Response
no_room = write_error 404 "ROOM_NOT_FOUND" "room not found or already ended"

-- handleJoinError: the response to a failed join.
unfoldable pub handle_join_error : StoreError → Response
handle_join_error StoreError.room_full = write_error 409 "ROOM_FULL" "room already has 15 players"
handle_join_error StoreError.nickname_taken =
    write_error 409 "NICKNAME_TAKEN" "nickname is already used in this room"
handle_join_error StoreError.invalid_school = write_invalid "unknown school_id"
handle_join_error StoreError.not_found = no_room
handle_join_error _ = write_internal

abbrev pub no_host : Host
no_host = record { id = ""; email = ""; password_hash = ""; name = "" }

abbrev pub new_player : String → JoinRequest → ℕ → NewPlayer
new_player room_id r avatar = record {
  room_id = room_id;
  nickname = r.nickname;
  jenjang = r.jenjang;
  lang = r.lang;
  school_id = r.school_id;
  avatar = avatar;
}

-- A valid avatar is not negative.
abbrev pub avatar_number : JoinRequest → ℕ
avatar_number r = pos_part r.avatar

unfoldable pub room_or_error : Fallible RoomData → RoomData ⊎ Response
room_or_error (ok room) = inl room
room_or_error (err StoreError.not_found) = inr no_room
room_or_error (err _) = inr write_internal

-- max(0, MaxPlayersInRoom - count)
unfoldable pub room_status : RoomData → Fallible ℕ → Response
room_status room (ok count) =
    write_json 200 (room_body room.status (max_players_in_room - count) room.jenjang)
room_status room (err e) = write_internal

module _ (api : Api) where
  unfoldable pub password_matches : String → String → Bool
  password_matches hash password =
      let known = not (same hash "") in
      let compared = if known then hash else api.dummy_hash in
      known && api.compare_hash_and_password compared password

  unfoldable pub log_in : Host → LoginRequest → Calls → ServerOf api → Response × ServerOf api
  log_in host r c s =
      if password_matches host.password_hash r.password
      then maybe (issue_host api.jwt api.tokens host.id c.now) ((write_internal, s)) (λ token.
        let (failed, db) = touch_host_login api.parse_uuid c.second_fails c.now host.id s.db in
        (
          maybe failed (write_json 200 (token_body token)) (λ _. write_internal),
          record s { db = db },
        ))
      else (write_error 401 "UNAUTHORIZED" "invalid email or password", s)

  unfoldable pub log_in_loaded :
      Fallible Host → LoginRequest → Calls → ServerOf api → Response × ServerOf api
  log_in_loaded (ok host) r c s = log_in host r c s
  log_in_loaded (err StoreError.not_found) r c s = log_in no_host r c s
  log_in_loaded (err _) r c s = (write_internal, s)

  unfoldable pub login : Handler api
  login req c s = maybe (api.texts.login_body req.body) ((bad_json, s)) (λ r.
      let email = api.texts.to_lower (api.texts.trim_space r.email) in
      log_in_loaded (host_by_email c.first_fails email s.db) r c s)

  -- activeRoom, which responds itself where there is no room.
  unfoldable pub active_room : Request → Calls → ServerOf api → RoomData ⊎ Response
  active_room req c s =
      if api.texts.is_pin req.path_pin
      then room_or_error (room_by_pin c.first_fails req.path_pin s.db)
      else inr no_room

  unfoldable pub get_room : Handler api
  get_room req c s = (
    elim (active_room req c s) [
      | inl room ↦ room_status room (player_count api.parse_uuid c.second_fails room.id s.db)
      | inr response ↦ response
    ],
    s,
  )

  -- Where the limiter is there, it counts the attempt of the client.
  unfoldable pub allow_join : Request → Calls → ServerOf api → Bool × ServerOf api
  allow_join req c s = maybe s.join_limiter ((true, s)) (λ limiter.
      let (allowed, l) =
        allow c.reply ("join:" ++ client_ip api.texts api.trust_proxy req) c.now limiter in
      (allowed, record s { join_limiter = some l }))

  -- A player who is stored joins the live room, and gets a token.
  unfoldable pub enter_room : String → Player → Calls → ServerOf api → Response × ServerOf api
  enter_room room_id p c s =
      let (failed, rooms, db) = api.registry.add_player room_id p s.rooms s.db in
      let after = record s { rooms = rooms; db = db } in
      (
        maybe failed
            (maybe (issue_player api.jwt api.tokens room_id p.id c.now) write_internal
              (λ token. write_json 200 (player_token_body token)))
            (λ _. no_room),
        after,
      )

  unfoldable pub joined : String → Calls → ServerOf api → Fallible Player → Response × ServerOf api
  joined room_id c s (ok p) = enter_room room_id p c s
  joined room_id c s (err e) = (handle_join_error e, s)

  unfoldable pub join_active_room :
      JoinRequest → Calls → ServerOf api → RoomData ⊎ Response → Response × ServerOf api
  join_active_room r c s (inr response) = (response, s)
  join_active_room r c s (inl room) =
      let (reply, db) =
        store_join_room api.parse_uuid (c.faults 0) (new_player room.id r (avatar_number r)) s.db in
      joined room.id c (record s { db = db }) reply

  unfoldable pub join_request :
      JoinRequest → Request → Calls → ServerOf api → Response × ServerOf api
  join_request r req c s =
      maybe (validate_join api.texts r) (join_active_room r c s (active_room req c s))
        (λ message. (write_invalid message, s))

  unfoldable pub join_room : Handler api
  join_room req c s =
      let (allowed, after) = allow_join req c s in
      if allowed
      then maybe (api.texts.join_body req.body) ((bad_json, after))
          (λ r. join_request (record r { nickname = api.texts.trim_space r.nickname }) req c after)
      else (write_error 429 "RATE_LIMITED" "too many join attempts, try again in a minute", after)
