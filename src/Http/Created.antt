-- ===== src/Http/Created.antt =====
-- Laws of the route POST /api/rooms (api/internal/http/handlers.go, createRoom).
use mathlib.Core.List.{Nodup, Perm}
use jejak_inderasakti_be.Shared.{
  not, ◌∙◌, ap, ℕ, ◌≡◌, ◌≢◌, refl, sym, subst, String, true, List, some, if◌then◌else◌, if_elim,
  maybe_elim, arith, length, Distinct,
}
use jejak_inderasakti_be.Game.Selector.{Selected, selected, failed, select_questions}
use jejak_inderasakti_be.Game.Selector.Laws.{select_questions_lem}
use jejak_inderasakti_be.Game.Selector.Buckets.{ids_of}
use jejak_inderasakti_be.Store.Types.{RoomData, StoreError, Fallible, ok, err, Status}
use jejak_inderasakti_be.Store.Database.{Database, get_active_room_by_pin}
use jejak_inderasakti_be.Store.Capacity.{HasRooms, IsFound, create_room_lem}
use jejak_inderasakti_be.Store.Questions.{list_selectable_questions, question_pool}
use jejak_inderasakti_be.Store.Created.{IsGiven, create_room-IsGiven}
use jejak_inderasakti_be.Http.Requests.{
  CreateRoomRequest, Request, Response, created_body, write_error, write_invalid, write_internal,
  write_json, valid_jenjang,
}
use jejak_inderasakti_be.Http.Api.{Api, Calls, ServerOf}
use jejak_inderasakti_be.Http.Hosting.{
  new_room, qr_url, created, create_selected, create_from_pool, create_request, create_room,
}
use jejak_inderasakti_be.Http.Validation.{IsJenjang, valid_jenjang_iff}
use jejak_inderasakti_be.Http.Access.{IsFromHost, require_host_lem}
use jejak_inderasakti_be.Http.Routes.{post_rooms, serve_http}

-- The shuffle only reorders, and the ids of the selectable questions differ.
abbrev pub IsPlayable : (api : Api) → ServerOf api → Type 0
IsPlayable api s =
    ((site level : ℕ) (ids : List String) → Perm ids (api.shuffle site level ids))
    × Nodup (ids_of (list_selectable_questions s.db.questions))

module _ (api : Api) (req : Request) (c : Calls) where
  -- A new room in the lobby, of the host that asked: 15 or 10 distinct questions, as the request says,
  -- and a PIN that finds the room.
  abbrev pub IsNewRoom : String → CreateRoomRequest → Response → ServerOf api → Type 0
  IsNewRoom host_id r response after =
      (room : RoomData) × (r.consent_confirmed ≡ true)
      × IsJenjang r.jenjang
      × (room.status ≡ Status.lobby)
      × (room.jenjang ≡ r.jenjang)
      × (api.parse_uuid host_id ≡ some room.host_id)
      × (length room.question_ids ≡ (if r.short_session then 10 else 15))
      × Distinct room.question_ids
      × (get_active_room_by_pin room.pin after.db.rooms ≡ some room)
      × (response ≡ write_json 201 (created_body room.id room.pin (qr_url api room.pin)))

  -- What creating leaves, for a success that is described by `Done`.
  abbrev Leaves : (Response → ServerOf api → Type 0) → Response × ServerOf api → Type 0
  Leaves Done (response, after) =
      HasRooms c.now after.db × (response.status ≡ 201 → Done response after)

  module _ (host_id : String) (r : CreateRoomRequest) (s : ServerOf api)
      (h : HasRooms c.now s.db) where
    unmade :
        (Done : Response → ServerOf api → Type 0) (response : Response)
        → response.status ≢ 201
        → Leaves Done (response, s)
    unmade Done response n = (h, (λ e. absurd (n e)))

    created-Leaves :
        (ids : List String) (reply : Fallible RoomData) (db : Database)
        → r.consent_confirmed ≡ true
        → valid_jenjang r.jenjang ≡ true
        → length ids ≡ (if r.short_session then 10 else 15)
        → Distinct ids
        → HasRooms c.now db × IsFound reply db
        → IsGiven (new_room host_id r ids) api.parse_uuid reply
        → Leaves (IsNewRoom host_id r) (created api reply, record s { db = db })
    unfolding created write_internal write_error write_json
    created-Leaves ids (ok room) db consent j n d (rooms, found) (host, parsed, (id, pin, e)) = (
      rooms,
      (λ _. (
        room,
        consent,
        (valid_jenjang_iff r.jenjang).0 j,
        ap (λ (x : RoomData). x.status) e,
        ap (λ (x : RoomData). x.jenjang) e,
        cc,
        ap (λ (x : RoomData). length x.question_ids) e ∙ n,
        subst (λ (x : RoomData). Distinct x.question_ids) (sym e) d,
        found,
        refl,
      )),
    )
    created-Leaves ids (err StoreError.max_rooms) db consent j n d (rooms, found) k =
        (rooms, (λ e. ground (arith, e)))
    created-Leaves ids (err _) db consent j n d (rooms, found) k = (rooms, (λ e. ground (arith, e)))

    selected-Leaves :
        (chosen : Selected)
        → IsPlayable api s
        → select_questions api.shuffle r.jenjang r.short_session
            (list_selectable_questions s.db.questions)
          ≡ chosen
        → r.consent_confirmed ≡ true
        → valid_jenjang r.jenjang ≡ true
        → Leaves (IsNewRoom host_id r) (create_selected api host_id r c s chosen)
    unfolding create_selected write_internal write_error write_json
    selected-Leaves (failed e) p z consent j =
        unmade (IsNewRoom host_id r) write_internal (omega arith)
    selected-Leaves (selected ids) p z consent j =
        let (levels, known, count, distinct, drawn) =
          select_questions_lem api.shuffle r.jenjang r.short_session
            (list_selectable_questions s.db.questions) ids p.0 p.1 z in
        created-Leaves ids _ _ consent j count distinct
          (create_room_lem api.parse_uuid c.random_pin c.faults c.now (new_room host_id r ids) s.db
            h)
          (create_room-IsGiven (new_room host_id r ids) api.parse_uuid c.random_pin c.faults c.now
            s.db)

    pooled-Leaves :
        IsPlayable api s
        → r.consent_confirmed ≡ true
        → valid_jenjang r.jenjang ≡ true
        → Leaves
            (IsNewRoom host_id r)
            (create_from_pool api host_id r c s (question_pool c.second_fails s.db))
    unfolding create_from_pool question_pool write_internal write_error write_json
    pooled-Leaves p consent j =
        if_elim (λ pool. Leaves (IsNewRoom host_id r) (create_from_pool api host_id r c s pool))
          c.second_fails (λ _. unmade (IsNewRoom host_id r) write_internal (omega arith))
          (λ _. selected-Leaves _ p refl consent j)

    create_request-Leaves :
        IsPlayable api s → Leaves (IsNewRoom host_id r) (create_request api host_id r c s)
    unfolding create_request write_invalid write_error write_json
    create_request-Leaves p =
        let L : Response × ServerOf api → Type 0 = Leaves (IsNewRoom host_id r) in
        if_elim L (not (valid_jenjang r.jenjang))
          (λ _. unmade (IsNewRoom host_id r) _ (omega arith))
          (λ j.
            if_elim L (not r.consent_confirmed) (λ _. unmade (IsNewRoom host_id r) _ (omega arith))
              (λ consent. pooled-Leaves p (ground (arith, consent)) (ground (arith, j))))

  -- The success of the route: a host's request that made a room.
  abbrev pub IsCreated : Response → ServerOf api → Type 0
  IsCreated response after =
      (host_id : String) × (r : CreateRoomRequest) × IsFromHost api req c host_id
      × (api.texts.create_room_body req.body ≡ some r)
      × IsNewRoom host_id r response after

  post_rooms_lem :
      (s : ServerOf api)
      → IsPlayable api s
      → HasRooms c.now s.db
      → Leaves IsCreated (serve_http api post_rooms req c s)
  unfolding serve_http create_room write_invalid write_error write_json
  post_rooms_lem s p h =
      require_host_lem api req c (Leaves IsCreated) (create_room api) s
        (λ response e. (h, (λ k. ground (arith, e, k))))
        (λ host_id from.
          maybe_elim (Leaves IsCreated) (api.texts.create_room_body req.body)
            (λ _. (h, (λ k. ground (arith, k))))
            (λ r b.
              let (rooms, made) = create_request-Leaves host_id r s h p in
              (rooms, (λ k. (host_id, r, from, b, made k)))))

-- With a shuffle that only reorders, a pool of questions with distinct ids, and tables with at most 5
-- active rooms and distinct PINs, the route to create a room answers 201 only to a host with a valid
-- token and consent, with a room in the lobby that its PIN finds, of that host, and with 15 distinct
-- questions, or 10 for a short session. The limit of 5 rooms and the distinct PINs are kept.
pub post_rooms-IsCreated :
    (api : Api) (req : Request) (c : Calls) (s : ServerOf api)
    → IsPlayable api s
    → HasRooms c.now s.db
    → (serve_http api post_rooms req c s).0.status ≡ 201
    → let (response, after) = serve_http api post_rooms req c s in
      HasRooms c.now after.db × IsCreated api req c response after
post_rooms-IsCreated api req c s p h e =
    let (rooms, made) = post_rooms_lem api req c s p h in (rooms, made e)
