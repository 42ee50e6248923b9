-- ===== src/Http/Api.antt =====
-- api/internal/http/api.go: what the REST handlers use.
use jejak_inderasakti_be.Shared.{ℕ, String, Bool, List, Option, ◌≡◌}
use jejak_inderasakti_be.Auth.{Jwt, Tokens}
use jejak_inderasakti_be.Ratelimit.{Limiter}
use jejak_inderasakti_be.Store.Types.{Player, StoreError}
use jejak_inderasakti_be.Store.Database.{Database}
use jejak_inderasakti_be.Store.Rooms.{Faults}
use jejak_inderasakti_be.Http.Requests.{Texts, Request, Response}

-- The interface RoomRegistry. Adding a player to a live room can mark a room as ended in the tables,
-- but leaves the players there alone.
pub record RoomRegistry : Type 1 where
  pub Rooms : Type 0
  pub add_player : String → Player → Rooms → Database → Option StoreError × Rooms × Database
  pub players_kept :
      (room_id : String) (p : Player) (rooms : Rooms) (db : Database)
      → (add_player room_id p rooms db).2.players ≡ db.players

-- Deps, with what the handlers call besides: uuid.Parse, the comparison of bcrypt, the shuffle of
-- math/rand, and the collation of the database.
pub record Api : Type 1 where
  pub registry : RoomRegistry
  pub texts : Texts
  pub jwt : Jwt
  pub tokens : Tokens
  pub parse_uuid : String → Option String
  pub compare_hash_and_password : String → String → Bool
  pub dummy_hash : String
  pub shuffle : ℕ → ℕ → List String → List String
  pub collation : String → String → Bool
  pub public_base_url : String
  pub trust_proxy : Bool

-- What a request changes. There is no join limiter where the option is none.
pub record Server (Rooms : Type 0) : Type 0 where
  pub rooms : Rooms
  pub db : Database
  pub join_limiter : Option Limiter

-- How the calls of one request end: the time, which reads and writes of the database fail, the PINs
-- and transactions, and the reply of Redis.
pub record Calls : Type 0 where
  pub now : ℕ
  pub first_fails : Bool
  pub second_fails : Bool
  pub faults : ℕ → Faults
  pub random_pin : ℕ → Option String
  pub reply : Option ℕ

abbrev pub ServerOf : Api → Type 0
ServerOf api = Server api.registry.Rooms

-- A handler answers a request and leaves the server changed.
abbrev pub Handler : Api → Type 0
Handler api = Request → Calls → ServerOf api → Response × ServerOf api
