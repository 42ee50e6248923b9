-- ===== src/Http/Live.antt =====
-- The registry of api/internal/game/registry.go as the RoomRegistry of api/internal/http/api.go.
use jejak_inderasakti_be.Shared.{◌≡◌, refl, ap, String, Option, maybe_elim, inl, inr}
use jejak_inderasakti_be.Store.Types.{Player, Fallible, ok, err}
use jejak_inderasakti_be.Store.Database.{Database}
use jejak_inderasakti_be.Store.Questions.{QuestionJson}
use jejak_inderasakti_be.Game.Registry.{
  Pointer, Start, Registry, LoadFaults, lookup, load, get, add_player,
}
use jejak_inderasakti_be.Game.Registry.Loading.{IsLoaded, load-IsLoaded}
use jejak_inderasakti_be.Http.Api.{RoomRegistry}

module _ (parse : String → Option String) (json : QuestionJson) (f : LoadFaults) where
  players-load :
      (room_id : String) (db : Database) (z : Fallible Start × Database)
      → IsLoaded parse json f room_id db z
      → z.1.players ≡ db.players
  players-load room_id db (ok s, after) h = ap (λ (x : Database). x.players) h.1
  players-load room_id db (err e, after) h = elim h [
    | inl kept ↦ ap (λ (x : Database). x.players) kept
    | inr (data_, parsed, found, running, expired, rooms_ended, ended) ↦
        ap (λ (x : Database). x.players) ended
  ]

  players-get :
      (room_id : String) (g : Registry) (db : Database)
      → (get parse json f room_id g db).2.players ≡ db.players
  unfolding get
  players-get room_id g db =
      maybe_elim (λ (z : Fallible Pointer × Registry × Database). z.2.players ≡ db.players)
        (lookup room_id g)
        (λ _.
          players-load room_id db (load parse json f room_id db)
            (load-IsLoaded parse json f room_id db))
        (λ _ _. refl)

  pub players-add_player :
      (room_id : String) (p : Player) (g : Registry) (db : Database)
      → (add_player parse json f room_id p g db).2.players ≡ db.players
  unfolding add_player
  players-add_player room_id p g db = players-get room_id g db

  abbrev pub live_rooms : RoomRegistry
  live_rooms = record {
    Rooms = Registry;
    add_player = add_player parse json f;
    players_kept = players-add_player;
  }
