-- ===== src/Http/Routes.antt =====
-- api/internal/http/api.go: the routes of NewRouter whose handlers are modelled.
use jejak_inderasakti_be.Http.Api.{Api, Handler}
use jejak_inderasakti_be.Http.Handlers.{login, get_room, join_room}
use jejak_inderasakti_be.Http.Hosting.{create_room, export_results, require_host}

-- A method and path, as the router matches them.
pub data Route : Type 0 where
  -- POST /api/auth/login
  post_login : Route
  -- POST /api/rooms
  post_rooms : Route
  -- GET /api/rooms/{pin}
  get_rooms : Route
  -- POST /api/rooms/{pin}/join
  post_join : Route
  -- GET /api/rooms/{id}/results.csv
  get_results : Route

-- The handler that the router registers for a route.
unfoldable pub serve_http : (api : Api) → Route → Handler api
serve_http api post_login = login api
serve_http api post_rooms = require_host api (create_room api)
serve_http api get_rooms = get_room api
serve_http api post_join = join_room api
serve_http api get_results = require_host api (export_results api)
