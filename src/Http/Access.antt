-- ===== src/Http/Access.antt =====
-- Laws of the routes of hosts (api/internal/http/middleware.go, requireHost, and results.go, exportResults).
use jejak_inderasakti_be.Shared.{
  Option-cases, ◌≡◌, inl, inr, refl, sym, subst, String, List, Option, none, some, maybe, if_elim,
  maybe_elim, arith, same,
}
use jejak_inderasakti_be.Auth.{host, Claims, parse}
use jejak_inderasakti_be.Store.Types.{RoomData, StoreError, Fallible, ok, err}
use jejak_inderasakti_be.Store.Database.{get_room_by_id}
use jejak_inderasakti_be.Store.Hosts.{room_by_id, not_found_or}
use jejak_inderasakti_be.Store.Results.{ResultRow, room_results}
use jejak_inderasakti_be.Store.Ranked.{AreRoomResults, room_results-AreRoomResults}
use jejak_inderasakti_be.Http.Requests.{
  Request, Response, csv_body, write_error, write_internal, write_json,
}
use jejak_inderasakti_be.Http.Api.{Api, Calls, ServerOf, Handler}
use jejak_inderasakti_be.Http.Hosting.{
  write_results_csv, create_room, send_results, export_loaded, export_results, host_of_claims,
  host_of_token, require_host,
}
use jejak_inderasakti_be.Http.Validation.{AreSafe, write_results_csv-AreSafe}
use jejak_inderasakti_be.Http.Routes.{post_rooms, get_results, serve_http}

module _ (api : Api) (req : Request) (c : Calls) where
  -- The request carries a token that is read as a host's.
  abbrev pub IsFromHost : String → Type 0
  IsFromHost host_id =
      (raw : String) × (claims : Claims) × (api.texts.cut_bearer req.authorization ≡ some raw)
      × (parse api.jwt api.tokens raw c.now ≡ some claims)
      × (claims.role ≡ host)
      × (claims.subject ≡ host_id)

  host_of_claims-host :
      (claims : Claims) (host_id : String)
      → host_of_claims api claims ≡ some host_id
      → (claims.role ≡ host) × (claims.subject ≡ host_id)
  unfolding host_of_claims
  host_of_claims-host claims host_id e = ground (arith, e)

  host_of_token-host :
      (raw host_id : String)
      → api.texts.cut_bearer req.authorization ≡ some raw
      → host_of_token api raw c.now ≡ some host_id
      → IsFromHost host_id
  unfolding host_of_token
  host_of_token-host raw host_id b e = elim (Option-cases (parse api.jwt api.tokens raw c.now)) [
    | inl no_claims ↦ ground (arith, e, no_claims)
    | inr (claims, parsed) ↦
        let read : host_of_claims api claims ≡ some host_id = rw parsed at e in
        let (is_host, subject) = host_of_claims-host claims host_id read in
        (raw, claims, b, parsed, is_host, subject)
  ]

  -- A guarded handler only runs for a host; else the answer is 401 and nothing changes.
  pub require_host_lem :
      (P : Response × ServerOf api → Type 0) (next : String → Handler api) (s : ServerOf api)
      → ((response : Response) → response.status ≡ 401 → P (response, s))
      → ((host_id : String) → IsFromHost host_id → P (next host_id req c s))
      → P (require_host api next req c s)
  unfolding require_host write_error write_json
  require_host_lem P next s h k =
      maybe_elim P (api.texts.cut_bearer req.authorization) (λ _. h _ refl)
        (λ raw b.
          maybe_elim P (host_of_token api raw c.now) (λ _. h _ refl)
            (λ host_id e. k host_id (host_of_token-host raw host_id b e)))

  -- The results of a room, asked for by its host.
  abbrev pub IsExport : ServerOf api → Response → Type 0
  IsExport s response =
      (room : RoomData) × (id : String) × (room_id : String) × (rows : List ResultRow)
      × (lines : List ResultRow) × IsFromHost room.host_id
      × (api.parse_uuid req.path_id ≡ some id)
      × (get_room_by_id id s.db.rooms ≡ some room)
      × (api.parse_uuid room.id ≡ some room_id)
      × AreRoomResults room_id s.db rows
      × AreSafe rows lines
      × (response ≡ write_json 200 (csv_body room.pin lines))

  sent-IsExport :
      (id : String) (s : ServerOf api) (room : RoomData) (results : Fallible (List ResultRow))
      → IsFromHost room.host_id
      → api.parse_uuid req.path_id ≡ some id
      → get_room_by_id id s.db.rooms ≡ some room
      → room_results api.collation api.parse_uuid c.second_fails room.id s.db ≡ results
      → (send_results room results).status ≡ 200
      → IsExport s (send_results room results)
  unfolding send_results write_internal write_error write_json
  sent-IsExport id s room (err x) h p g w e = ground (arith, e)
  sent-IsExport id s room (ok rows) h p g w e =
      let (room_id, parsed, results) =
        room_results-AreRoomResults api.collation api.parse_uuid c.second_fails room.id s.db rows
          w in
      (
        room,
        id,
        room_id,
        rows,
        write_results_csv rows,
        h,
        p,
        g,
        parsed,
        results,
        write_results_csv-AreSafe rows,
        refl,
      )

  exported-IsExport :
      (host_id id : String) (s : ServerOf api) (found : Option RoomData)
      → IsFromHost host_id
      → api.parse_uuid req.path_id ≡ some id
      → get_room_by_id id s.db.rooms ≡ found
      → let response =
          export_loaded api c host_id (maybe found (err StoreError.not_found) ok) s.db in
        response.status ≡ 200 → IsExport s response
  unfolding export_loaded write_error write_json
  exported-IsExport host_id id s none h p g e = ground (arith, e)
  exported-IsExport host_id id s (some room) h p g status =
      if_elim (λ response. response.status ≡ 200 → IsExport s response) (same room.host_id host_id)
        (λ own e.
          sent-IsExport id s room _ (subst IsFromHost (sym (ground (arith, own))) h) p g refl e)
        (λ _ e. ground (arith, e)) status

  export_results-IsExport :
      (host_id : String) (s : ServerOf api)
      → IsFromHost host_id
      → let (response, after) = export_results api host_id req c s in
        (after ≡ s) × (response.status ≡ 200 → IsExport s response)
  unfolding export_results room_by_id not_found_or export_loaded write_internal write_error
      write_json
  export_results-IsExport host_id s h =
      let P : Fallible RoomData → Type 0 = λ found.
        let response = export_loaded api c host_id found s.db in
        response.status ≡ 200 → IsExport s response in
      (
        refl,
        maybe_elim P (api.parse_uuid req.path_id) (λ _ e. ground (arith, e))
            (λ id p.
              if_elim P c.first_fails (λ _ e. ground (arith, e))
                (λ _. exported-IsExport host_id id s _ h p refl)),
      )

  get_results_lem :
      (s : ServerOf api)
      → let (response, after) = serve_http api get_results req c s in
        (after ≡ s) × (response.status ≡ 200 → IsExport s response)
  unfolding serve_http
  get_results_lem s =
      require_host_lem
        (λ (response, after). (after ≡ s) × (response.status ≡ 200 → IsExport s response))
        (export_results api) s (λ response e. (refl, (λ k. ground (arith, e, k))))
        (λ host_id h. export_results-IsExport host_id s h)

-- The route of a room's results answers 200 only to a request with the token of the host of that
-- room, and changes nothing. The file has one line for each row of the room, with the columns of that
-- row and its rank: one more than the number of the room's rows that have more points, as many points
-- and more correct answers, or as many of both and less time. The lines stand by rank, and each
-- nickname and school is the stored text, after a quote or not, that is empty or starts with none of
-- = + - @, tab and carriage return.
pub get_results-IsExport :
    (api : Api) (req : Request) (c : Calls) (s : ServerOf api)
    → (serve_http api get_results req c s).0.status ≡ 200
    → IsExport api req c s (serve_http api get_results req c s).0
      × ((serve_http api get_results req c s).1 ≡ s)
get_results-IsExport api req c s e =
    let (same_server, exported) = get_results_lem api req c s in (exported e, same_server)

-- Without the token of a host, the routes that create a room and export results answer 401, and
-- change nothing.
pub require_host-IsFromHost :
    (api : Api) (req : Request) (c : Calls) (s : ServerOf api)
    → ((host_id : String) → ¬ IsFromHost api req c host_id)
    → let (refused, after) = serve_http api post_rooms req c s in
      let (unexported, later) = serve_http api get_results req c s in
      (refused.status ≡ 401) × (after ≡ s) × (unexported.status ≡ 401) × (later ≡ s)
unfolding serve_http
require_host-IsFromHost api req c s n =
    let P : Response × ServerOf api → Type 0 = λ (w, z). (w.status ≡ 401) × (z ≡ s) in
    let (a, b) =
      require_host_lem api req c P (create_room api) s (λ w e. (e, refl))
        (λ host_id h. absurd (n host_id h)) in
    let (d, e) =
      require_host_lem api req c P (export_results api) s (λ w e. (e, refl))
        (λ host_id h. absurd (n host_id h)) in
    (a, b, d, e)
