-- ===== src/Http/Joining.antt =====
-- Laws of the route POST /api/rooms/{pin}/join (api/internal/http/handlers.go, joinRoom).
use Prim.Native.String.{◌++◌ as ◌+++◌}
use jejak_inderasakti_be.Shared.{
  ◌≡◌, ◌≢◌, ◌⊎◌, refl, sym, subst, ◌∙◌, String, Bool, true, [], ◌∷◌, ◌++◌, Option, some,
  if◌then◌else◌, maybe, if_elim, maybe_elim, arith,
}
use jejak_inderasakti_be.Auth.{issue_player}
use jejak_inderasakti_be.Ratelimit.{allow}
use jejak_inderasakti_be.Store.Types.{RoomData, Player, StoreError, Fallible, ok, err}
use jejak_inderasakti_be.Store.Database.{Database, get_active_room_by_pin}
use jejak_inderasakti_be.Store.Rooms.{player_row}
use jejak_inderasakti_be.Store.Hosts.{room_by_pin, not_found_or}
use jejak_inderasakti_be.Store.Seats.{HasSeats, IsSeated, join_room_lem}
use jejak_inderasakti_be.Store.Refusals.{IsRefusal, join_room-IsRefusal}
use jejak_inderasakti_be.Http.Requests.{
  JoinRequest, Request, Response, player_token_body, write_error, write_invalid, write_internal,
  write_json, validate_join, client_ip,
}
use jejak_inderasakti_be.Http.Api.{Api, Calls, ServerOf}
use jejak_inderasakti_be.Http.Handlers.{
  bad_json, no_room, handle_join_error, new_player, avatar_number, room_or_error, active_room,
  allow_join, enter_room, joined, join_active_room, join_request, join_room,
}
use jejak_inderasakti_be.Http.Validation.{IsValidJoin, validate_join_iff}

-- The request, with its nickname trimmed.
abbrev pub trimmed : Api → JoinRequest → JoinRequest
trimmed api r = record r { nickname = api.texts.trim_space r.nickname }

-- What a valid request to join came to: the PIN is that of an open room, the player has the next row
-- in the table, in that room, and the response is a token of that player for the room.
abbrev pub HasEntered :
    (api : Api) → JoinRequest → Request → Calls → ServerOf api → Response → ServerOf api → Type 0
HasEntered api r req c s response after =
    (room : RoomData) × (room_id : String) × (player_id : String) × (token : String) × IsValidJoin
      api.texts r
    × (get_active_room_by_pin req.path_pin s.db.rooms ≡ some room)
    × (api.parse_uuid room.id ≡ some room_id)
    × (after.db.players
        ≡ s.db.players
          ++ player_row player_id room_id (new_player room.id r (avatar_number r)) ∷ [])
    × (issue_player api.jwt api.tokens room.id player_id c.now ≡ some token)
    × (response ≡ write_json 200 (player_token_body token))

-- A request that is invalid, in conflict with the room, or one too many.
abbrev pub IsRefused : Response → Type 0
IsRefused response = (response.status ≡ 400) ⊎ (response.status ≡ 409) ⊎ (response.status ≡ 429)

module _ (api : Api) (req : Request) (c : Calls) where
  -- What a handler leaves of a server, for a success that is described by `Done`.
  abbrev Leaves :
      ServerOf api → (Response → ServerOf api → Type 0) → Response × ServerOf api → Type 0
  Leaves s Done (response, after) =
      (HasSeats s.db → HasSeats after.db × (response.status ≡ 200 → Done response after))
      × (IsRefused response → after.db ≡ s.db)

  refused-Leaves :
      (s after : ServerOf api) (Done : Response → ServerOf api → Type 0) (response : Response)
      → response.status ≢ 200
      → after.db ≡ s.db
      → Leaves s Done (response, after)
  refused-Leaves s after Done response n e =
      ((λ h. (subst HasSeats (sym e) h, (λ k. absurd (n k)))), (λ _. e))

  failed-Leaves :
      (s after : ServerOf api) (Done : Response → ServerOf api → Type 0) (response : Response)
      → response.status ≢ 200
      → ¬ IsRefused response
      → (HasSeats s.db → HasSeats after.db)
      → Leaves s Done (response, after)
  failed-Leaves s after Done response n m h =
      ((λ k. (h k, (λ e. absurd (n e)))), (λ e. absurd (m e)))

  module _ (r : JoinRequest) (room : RoomData) (s : ServerOf api) where
    abbrev LeavesJoined : Response × ServerOf api → Type 0
    LeavesJoined = Leaves s (HasEntered api r req c s)

    -- The reply to a player who is stored, however the live room takes it.
    entered-Leaves :
        (p : Player) (db : Database) (failed : Option StoreError) (after : ServerOf api)
        → IsValidJoin api.texts r
        → get_active_room_by_pin req.path_pin s.db.rooms ≡ some room
        → after.db.players ≡ db.players
        → (HasSeats s.db
            → HasSeats db
              × IsSeated api.parse_uuid (new_player room.id r (avatar_number r)) s.db (ok p) db)
        → LeavesJoined (
          maybe failed
              (maybe
                (issue_player api.jwt api.tokens room.id p.id c.now)
                write_internal
                (λ token. write_json 200 (player_token_body token)))
              (λ _. no_room),
          after,
        )
    unfolding write_internal write_error write_json
    entered-Leaves p db failed after v f kept h =
        let seats : HasSeats s.db → HasSeats after.db =
          λ k. subst (λ ps. HasSeats (record db { players = ps })) (sym kept) (h k).0 in
        maybe_elim (λ w. LeavesJoined (w, after)) failed
          (λ _.
            maybe_elim (λ w. LeavesJoined (w, after))
              (issue_player api.jwt api.tokens room.id p.id c.now)
              (λ _.
                failed-Leaves s after (HasEntered api r req c s) write_internal (omega arith)
                  (ground arith) seats)
              (λ token issued. (
                (λ k.
                    let (room_id, parsed, open_, added) = (h k).1 in
                    (
                      seats k,
                      (λ _. (room, room_id, p.id, token, v, f, parsed, kept ∙ added, issued, refl)),
                    )),
                (λ e. ground (arith, e)),
              )))
          (λ e _.
            failed-Leaves s after (HasEntered api r req c s) no_room (omega arith) (ground arith)
              seats)

    joined-Leaves :
        (reply : Fallible Player) (db : Database)
        → IsValidJoin api.texts r
        → get_active_room_by_pin req.path_pin s.db.rooms ≡ some room
        → IsRefusal s.db (reply, db)
        → (HasSeats s.db
            → HasSeats db
              × IsSeated api.parse_uuid (new_player room.id r (avatar_number r)) s.db reply db)
        → LeavesJoined (joined api room.id c (record s { db = db }) reply)
    unfolding joined enter_room handle_join_error write_invalid write_internal write_error
    joined-Leaves (ok p) db v f k h =
        let (failed, rooms, changed) = api.registry.add_player room.id p s.rooms db in
        entered-Leaves p db failed (record s { rooms = rooms; db = changed }) v f
          (api.registry.players_kept room.id p s.rooms db) h
    joined-Leaves (err StoreError.not_found) db v f k h =
        failed-Leaves s (record s { db = db }) (HasEntered api r req c s) no_room (omega arith)
          (ground arith) (λ x. (h x).0)
    joined-Leaves (err StoreError.max_rooms) db v f k h =
        failed-Leaves s (record s { db = db }) (HasEntered api r req c s) write_internal
          (omega arith) (ground arith) (λ x. (h x).0)
    joined-Leaves (err StoreError.room_full) db v f k h =
        refused-Leaves s (record s { db = db }) (HasEntered api r req c s) _ (omega arith) k
    joined-Leaves (err StoreError.nickname_taken) db v f k h =
        refused-Leaves s (record s { db = db }) (HasEntered api r req c s) _ (omega arith) k
    joined-Leaves (err StoreError.invalid_school) db v f k h =
        refused-Leaves s (record s { db = db }) (HasEntered api r req c s) _ (omega arith) k
    joined-Leaves (err StoreError.duplicate_answer) db v f k h =
        failed-Leaves s (record s { db = db }) (HasEntered api r req c s) write_internal
          (omega arith) (ground arith) (λ x. (h x).0)
    joined-Leaves (err StoreError.other) db v f k h =
        failed-Leaves s (record s { db = db }) (HasEntered api r req c s) write_internal
          (omega arith) (ground arith) (λ x. (h x).0)

  -- A trimmed request of a client that the limiter lets through.
  join_request-Leaves :
      (r : JoinRequest) (s : ServerOf api)
      → Leaves s (HasEntered api r req c s) (join_request api r req c s)
  unfolding join_request active_room room_by_pin not_found_or room_or_error join_active_room
      write_invalid write_internal write_error
  join_request-Leaves r s =
      let L : Response × ServerOf api → Type 0 = Leaves s (HasEntered api r req c s) in
      maybe_elim L (validate_join api.texts r)
        (λ valid.
          if_elim (λ found. L (join_active_room api r c s found)) (api.texts.is_pin req.path_pin)
            (λ _.
              if_elim (λ found. L (join_active_room api r c s (room_or_error found))) c.first_fails
                (λ _.
                  failed-Leaves s s (HasEntered api r req c s) write_internal (omega arith)
                    (ground arith) (λ h. h))
                (λ _.
                  maybe_elim (λ found. L (join_active_room api r c s (room_or_error found)))
                    (get_active_room_by_pin req.path_pin s.db.rooms)
                    (λ _.
                      failed-Leaves s s (HasEntered api r req c s) no_room (omega arith)
                        (ground arith) (λ h. h))
                    (λ room f.
                      let new = new_player room.id r (avatar_number r) in
                      joined-Leaves r room s _ _ ((validate_join_iff api.texts r).0 valid) f
                        (join_room-IsRefusal api.parse_uuid (c.faults 0) new s.db)
                        (join_room_lem api.parse_uuid new s.db (c.faults 0)))))
            (λ _.
              failed-Leaves s s (HasEntered api r req c s) no_room (omega arith) (ground arith)
                (λ h. h)))
        (λ message _. refused-Leaves s s (HasEntered api r req c s) _ (omega arith) refl)

  -- The success of the route: the body of the request is one that entered the room.
  abbrev Entered : ServerOf api → Response → ServerOf api → Type 0
  Entered s response after =
      (r : JoinRequest) × (api.texts.join_body req.body ≡ some r)
      × HasEntered api (trimmed api r) req c s response after

  counted-Leaves :
      (s : ServerOf api) (allowed : Bool)
      → Leaves s (Entered s) (
          if allowed
          then maybe
              (api.texts.join_body req.body)
              ((bad_json, s))
              (λ r. join_request api (trimmed api r) req c s)
          else (write_error 429 "RATE_LIMITED" "too many join attempts, try again in a minute", s))
  unfolding write_invalid write_error
  counted-Leaves s allowed =
      if_elim (Leaves s (Entered s)) allowed
        (λ _.
          maybe_elim (Leaves s (Entered s)) (api.texts.join_body req.body)
            (λ _. refused-Leaves s s (Entered s) _ (omega arith) refl)
            (λ r e.
              let (kept, refused) = join_request-Leaves (trimmed api r) s in
              ((λ h. let (seats, done) = kept h in (seats, (λ k. (r, e, done k)))), refused)))
        (λ _. refused-Leaves s s (Entered s) _ (omega arith) refl)

  join_room-Leaves : (s : ServerOf api) → Leaves s (Entered s) (join_room api req c s)
  unfolding join_room allow_join
  join_room-Leaves s =
      maybe_elim
        (λ (z : Bool × ServerOf api). Leaves s (Entered s) (
          if z.0
          then maybe (api.texts.join_body req.body) ((bad_json, z.1))
              (λ r. join_request api (trimmed api r) req c z.1)
          else (
            write_error 429 "RATE_LIMITED" "too many join attempts, try again in a minute",
            z.1,
          )))
        s.join_limiter (λ _. counted-Leaves s true)
        (λ limiter _.
          let (allowed, l) =
            allow c.reply ("join:" +++ client_ip api.texts api.trust_proxy req) c.now limiter in
          counted-Leaves (record s { join_limiter = some l }) allowed)

-- However the calls of a request end, the route to join keeps every room to 15 players with distinct
-- nicknames.
pub join_room-HasSeats :
    (api : Api) (req : Request) (c : Calls) (s : ServerOf api)
    → HasSeats s.db
    → HasSeats (join_room api req c s).1.db
join_room-HasSeats api req c s h = ((join_room-Leaves api req c s).0 h).0

-- From tables where every room has at most 15 players with distinct nicknames, the route to join
-- answers 200 only with a token of a player who has just got the next row of the table of players,
-- which is a row of the open room of the PIN, and from a request that the validator's rules allow
-- once its nickname is trimmed.
pub join_room-HasEntered :
    (api : Api) (req : Request) (c : Calls) (s : ServerOf api)
    → HasSeats s.db
    → (join_room api req c s).0.status ≡ 200
    → (r : JoinRequest) × (api.texts.join_body req.body ≡ some r)
      × HasEntered api (trimmed api r) req c s (join_room api req c s).0 (join_room api req c s).1
join_room-HasEntered api req c s h e = ((join_room-Leaves api req c s).0 h).1 e

-- A request to join that is told to be invalid, in conflict with the room, or one too many (400, 409
-- or 429) has changed no table.
pub join_room-IsRefused :
    (api : Api) (req : Request) (c : Calls) (s : ServerOf api)
    → IsRefused (join_room api req c s).0
    → (join_room api req c s).1.db ≡ s.db
join_room-IsRefused api req c s e = (join_room-Leaves api req c s).1 e
