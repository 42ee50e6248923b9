-- ===== src/Game/Registry.antt =====
-- api/internal/game/registry.go: the live rooms, loaded on first use.
pub mod Keys
pub mod Laws
pub mod Loading
use jejak_inderasakti_be.Shared.{
  ℕ, suc, ◌+◌, ◌-◌, String, Bool, true, false, ◌&&◌, List, [], ◌∷◌, Option, none, some, leb,
  if◌then◌else◌, same, maybe, ◌==◌,
}
use jejak_inderasakti_be.Store.Types.{
  RoomData, Player, Question, StoreError, not_found, Fallible, ok, err, Status,
}
use jejak_inderasakti_be.Store.Database.{Database}
use jejak_inderasakti_be.Store.Hosts.{room_by_id}
use jejak_inderasakti_be.Store.Marks.{mark_room_ended}
use jejak_inderasakti_be.Store.Progress.{players_of_room}
use jejak_inderasakti_be.Store.Questions.{QuestionJson, questions_by_ids}
use jejak_inderasakti_be.Game.Session.{max_room_duration}
use jejak_inderasakti_be.Game.State.{is_running, is_ended}

-- The address of a room.
abbrev pub Pointer : Type 0
Pointer = ℕ

-- What newRoom is called with.
pub record Start : Type 0 where
  pub data_ : RoomData
  pub players : List Player
  pub questions : List Question

-- `rooms` is the map. `started` are the rooms that newRoom has made, the latest first, and `next` is
-- the address of the next one. `sent` are the players that AddPlayer has passed on, the latest first.
pub record Registry : Type 0 where
  pub rooms : List (String × Pointer)
  pub started : List (Pointer × Start)
  pub next : Pointer
  pub sent : List (Pointer × Player)

unfoldable pub find_pointer : String → List (String × Pointer) → Option Pointer
find_pointer id [] = none
find_pointer id ((key, ptr) ∷ rooms) = if same key id then some ptr else find_pointer id rooms

unfoldable pub remove_pointer : String → List (String × Pointer) → List (String × Pointer)
remove_pointer id [] = []
remove_pointer id ((key, ptr) ∷ rooms) =
    let rest = remove_pointer id rooms in if same key id then rest else (key, ptr) ∷ rest

unfoldable pub lookup : String → Registry → Option Pointer
lookup room_id g = find_pointer room_id g.rooms

-- newRoom, with the map that holds it.
unfoldable pub start_room : Start → Registry → Registry
start_room s g = record g {
  rooms = (s.data_.id, g.next) ∷ g.rooms;
  started = (g.next, s) ∷ g.started;
  next = suc g.next;
}

-- A room that another caller has spawned in the meantime is taken.
unfoldable pub spawn : Start → Registry → Pointer × Registry
spawn s g = maybe (lookup s.data_.id g) ((g.next, start_room s g)) (λ existing. (existing, g))

-- The room of an id leaves the map only by its own pointer. The id of a room is that of its `data_`.
unfoldable pub forget : String → Pointer → Registry → Registry
forget id ptr g =
    maybe (lookup id g) g
      (λ held. if held == ptr then record g { rooms = remove_pointer id g.rooms } else g)

-- Which reads and writes of the store fail while a room is loaded, and the time.
pub record LoadFaults : Type 0 where
  pub room_fails : Bool
  pub mark_fails : Bool
  pub players_fail : Bool
  pub questions_fail : Bool
  pub now : ℕ

-- time.Since(data.StartedAt) >= MaxRoomDuration
unfoldable pub is_expired : ℕ → RoomData → Bool
is_expired now data_ = leb max_room_duration (now - data_.started_at)

unfoldable pub start_of : RoomData → List Player → Fallible (List Question) → Fallible Start
start_of data_ players (err e) = err e
start_of data_ players (ok questions) =
    ok (record { data_ = data_; players = players; questions = questions })

module _ (parse : String → Option String) (json : QuestionJson) (f : LoadFaults) where
  -- A running room whose time is over is marked as ended.
  unfoldable pub expire : String → Database → Fallible Start × Database
  expire room_id db =
      let (failed, db') = mark_room_ended parse f.mark_fails room_id db in
      (err (maybe failed not_found (λ e. e)), db')

  unfoldable pub load_questions : RoomData → Database → Fallible (List Player) → Fallible Start
  load_questions data_ db (err e) = err e
  load_questions data_ db (ok players) =
      start_of data_ players (questions_by_ids json f.questions_fail data_.question_ids db)

  unfoldable pub load_open : String → RoomData → Database → Fallible Start × Database
  load_open room_id data_ db =
      if is_ended data_.status
      then (err not_found, db)
      else if is_running data_.status && is_expired f.now data_
      then expire room_id db
      else (load_questions data_ db (players_of_room parse f.players_fail room_id db), db)

  unfoldable pub load_found : String → Database → Fallible RoomData → Fallible Start × Database
  load_found room_id db (err e) = (err e, db)
  load_found room_id db (ok data_) = load_open room_id data_ db

  -- What Get does for a room that is not live, up to its start.
  unfoldable pub load : String → Database → Fallible Start × Database
  load room_id db = load_found room_id db (room_by_id parse f.room_fails room_id db)

  unfoldable pub spawn_loaded : Fallible Start → Registry → Fallible Pointer × Registry
  spawn_loaded (err e) g = (err e, g)
  spawn_loaded (ok s) g = let (ptr, g') = spawn s g in (ok ptr, g')

  -- Get, where no other caller comes between.
  unfoldable pub get : String → Registry → Database → Fallible Pointer × Registry × Database
  get room_id g db =
      maybe (lookup room_id g)
        (let (loaded, db') = load room_id db in
          let (reply, g') = spawn_loaded loaded g in (reply, g', db'))
        (λ ptr. (ok ptr, g, db))

  unfoldable pub pass_on : Player → Fallible Pointer → Registry → Option StoreError × Registry
  pass_on p (err e) g = (some e, g)
  pass_on p (ok ptr) g = (none, record g { sent = (ptr, p) ∷ g.sent })

  unfoldable pub add_player :
      String → Player → Registry → Database → Option StoreError × Registry × Database
  add_player room_id p g db =
      let (reply, g', db') = get room_id g db in
      let (failed, g'') = pass_on p reply g' in (failed, g'', db')
