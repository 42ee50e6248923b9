-- ===== src/Game/Registry/Loading.antt =====
-- What Get loads for a room that is not live (api/internal/game/registry.go).
use jejak_inderasakti_be.Shared.{
  ◌+◌, ◌*◌, ◌≤◌, ◌<◌, ◌≡◌, ◌≢◌, ◌⊎◌, inl, inr, refl, String, String-discrete, true, false, ◌&&◌,
  List, [], ◌∷◌, Option, some, same, if_elim, maybe_elim, arith, subst, sym, ap, ◌∙◌,
}
use jejak_inderasakti_be.Store.Types.{
  RoomData, Status, Player, Question, StoreError, Fallible, ok, err,
}
use jejak_inderasakti_be.Store.Database.{
  is_open, RoomRow, Database, get_room_by_id, mark_ended_rows,
}
use jejak_inderasakti_be.Store.Hosts.{room_by_id, not_found_or}
use jejak_inderasakti_be.Store.Marks.{mark_room_ended}
use jejak_inderasakti_be.Store.Progress.{players_of_room}
use jejak_inderasakti_be.Store.Reloaded.{IsRoster, players_of_room-IsRoster}
use jejak_inderasakti_be.Store.Questions.{QuestionJson, questions_by_ids}
use jejak_inderasakti_be.Store.Loaded.{AreLoaded, questions_by_ids-AreLoaded}
use jejak_inderasakti_be.Game.Scoring.{second}
use jejak_inderasakti_be.Game.State.{is_running, is_ended}
use jejak_inderasakti_be.Game.Registry.{
  Start, LoadFaults, is_expired, start_of, expire, load_questions, load_open, load_found, load,
}

-- The rooms of an id have ended, and no other row has changed.
abbrev pub AreEnded : String → List RoomRow → List RoomRow → Type 0
AreEnded id [] [] = Unit
AreEnded id (row ∷ rows) (row' ∷ rows') =
    (((row.room.id ≡ id) × (row' ≡ record row { room = record row.room { status = Status.ended } }))
      ⊎ ((row.room.id ≢ id) × (row' ≡ row)))
    × AreEnded id rows rows'
AreEnded id _ _ = ⊥

not_open :
    (row : RoomRow)
    → is_open row.room.status ≡ false
    → row ≡ record row { room = record row.room { status = Status.ended } }
unfolding is_open
not_open row e =
    ap (λ status. record row { room = record row.room { status = status } })
      (over row.room.status e)
  where
    over : (s : Status) → is_open s ≡ false → s ≡ Status.ended
    over Status.lobby e = cc
    over Status.running e = cc
    over Status.ended e = refl

mark_ended_rows-AreEnded :
    (id : String) (rows : List RoomRow) → AreEnded id rows (mark_ended_rows id rows)
unfolding mark_ended_rows
mark_ended_rows-AreEnded id [] = tt
mark_ended_rows-AreEnded id (row ∷ rows) =
    let rest = mark_ended_rows-AreEnded id rows in
    if_elim (AreEnded id (row ∷ rows)) (same row.room.id id && is_open row.room.status)
      (λ own. (inl (ground (arith, own), refl), rest))
      (λ n. elim (String-discrete row.room.id id) [
        | no foreign ↦ (inr (foreign, refl), rest)
        | yes own ↦ (inl (own, not_open row (ground (arith, n, own))), rest)
      ])

get_room_by_id-id :
    (id : String) (rows : List RoomRow) (room : RoomData)
    → get_room_by_id id rows ≡ some room
    → room.id ≡ id
unfolding get_room_by_id
get_room_by_id-id id [] room e = cc
get_room_by_id-id id (row ∷ rows) room e =
    if_elim (λ z. z ≡ some room → room.id ≡ id) (same row.room.id id)
      (λ own f.
        let found : row.room ≡ room = cc in
        subst (λ (z : RoomData). z.id ≡ id) found (ground (arith, own)))
      (λ _ f. get_room_by_id-id id rows room f) e

module _ (parse : String → Option String) (json : QuestionJson) (f : LoadFaults) (room_id : String)
    (db : Database) where
  -- The room is in the lobby, or runs and its 12 minutes are not over.
  abbrev pub HasTime : RoomData → Type 0
  HasTime data_ =
      (data_.status ≡ Status.lobby)
      ⊎ ((data_.status ≡ Status.running) × (f.now < data_.started_at + 720 * second))

  -- What a room starts with: the stored room, which still has time, one player for each of its rows,
  -- and its questions in their order.
  abbrev pub IsStart : Start → Type 0
  IsStart s =
      (parse room_id ≡ some s.data_.id)
      × (get_room_by_id s.data_.id db.rooms ≡ some s.data_)
      × HasTime s.data_
      × IsRoster s.data_.id db s.players
      × AreLoaded json db.questions s.data_.question_ids s.questions

  -- The only change of a load: a running room whose 12 minutes are over has ended.
  abbrev pub IsExpiry : Database → Type 0
  IsExpiry after =
      (data_ : RoomData) × (parse room_id ≡ some data_.id)
      × (get_room_by_id data_.id db.rooms ≡ some data_)
      × (data_.status ≡ Status.running)
      × (data_.started_at + 720 * second ≤ f.now)
      × AreEnded data_.id db.rooms after.rooms
      × (after ≡ record db { rooms = after.rooms })

  -- A success changes nothing, and a failure at most ends a room whose time is over.
  abbrev pub IsLoaded : Fallible Start × Database → Type 0
  IsLoaded (ok s, after) = IsStart s × (after ≡ db)
  IsLoaded (err e, after) = (after ≡ db) ⊎ IsExpiry after

  running_lem : (status : Status) → is_running status ≡ true → status ≡ Status.running
  running_lem Status.lobby e = cc
  running_lem Status.running e = refl
  running_lem Status.ended e = cc

  HasTime_lem :
      (data_ : RoomData)
      → is_ended data_.status ≡ false
      → (is_running data_.status && is_expired f.now data_) ≡ false
      → HasTime data_
  unfolding is_expired
  HasTime_lem data_ open_ time = of_status data_.status refl
    where
      of_status : (status : Status) → data_.status ≡ status → HasTime data_
      of_status Status.lobby e = inl e
      of_status Status.running e = inr (e, ground (arith, time, e))
      of_status Status.ended e = ground (arith, open_, e)

  expire-IsLoaded :
      (data_ : RoomData)
      → parse room_id ≡ some data_.id
      → get_room_by_id data_.id db.rooms ≡ some data_
      → is_running data_.status ≡ true
      → is_expired f.now data_ ≡ true
      → IsLoaded (expire parse json f room_id db)
  unfolding expire mark_room_ended is_expired
  expire-IsLoaded data_ e found running expired =
      let P : Option StoreError × Database → Type 0 = λ z. (z.1 ≡ db) ⊎ IsExpiry z.1 in
      maybe_elim P (parse room_id) (λ _. inl refl)
        (λ id p.
          if_elim P f.mark_fails (λ _. inl refl)
            (λ _.
              let own : id ≡ data_.id = cc in
              inr (
                data_,
                e,
                found,
                running_lem data_.status running,
                ground (arith, expired),
                subst (λ z. AreEnded z db.rooms (mark_ended_rows id db.rooms)) own
                    (mark_ended_rows-AreEnded id db.rooms),
                refl,
              )))

  load_questions-IsLoaded :
      (data_ : RoomData) (players : Fallible (List Player))
      → parse room_id ≡ some data_.id
      → get_room_by_id data_.id db.rooms ≡ some data_
      → HasTime data_
      → players_of_room parse f.players_fail room_id db ≡ players
      → IsLoaded (load_questions parse json f data_ db players, db)
  unfolding load_questions start_of
  load_questions-IsLoaded data_ (err e) p found time there = inl refl
  load_questions-IsLoaded data_ (ok players) p found time there = loaded _ refl
    where
      loaded :
          (questions : Fallible (List Question))
          → questions_by_ids json f.questions_fail data_.question_ids db ≡ questions
          → IsLoaded (start_of data_ players questions, db)
      loaded (err e) q = inl refl
      loaded (ok questions) q = (
        (
          p,
          found,
          time,
          players_of_room-IsRoster parse f.players_fail room_id data_.id db players p there,
          questions_by_ids-AreLoaded json f.questions_fail data_.question_ids db questions q,
        ),
        refl,
      )

  load_open-IsLoaded :
      (data_ : RoomData)
      → parse room_id ≡ some data_.id
      → get_room_by_id data_.id db.rooms ≡ some data_
      → IsLoaded (load_open parse json f room_id data_ db)
  unfolding load_open
  load_open-IsLoaded data_ p found =
      if_elim IsLoaded (is_ended data_.status) (λ _. inl refl)
        (λ open_.
          if_elim IsLoaded (is_running data_.status && is_expired f.now data_)
            (λ over. expire-IsLoaded data_ p found (ground (arith, over)) (ground (arith, over)))
            (λ time. load_questions-IsLoaded data_ _ p found (HasTime_lem data_ open_ time) refl))

  -- A room that is not live is loaded only from the tables, as it is stored there: one in the lobby,
  -- or a running one whose 12 minutes are not over, with one player for each row of the room, as the
  -- row says and in the order of the table, and with its questions in their order. A failed load
  -- changes the tables only to end a running room whose time is over.
  pub load-IsLoaded : IsLoaded (load parse json f room_id db)
  unfolding load room_by_id not_found_or load_found
  load-IsLoaded =
      let P : Fallible RoomData → Type 0 =
        λ found. IsLoaded (load_found parse json f room_id db found) in
      maybe_elim P (parse room_id) (λ _. inl refl)
        (λ id p.
          if_elim P f.room_fails (λ _. inl refl)
            (λ _.
              maybe_elim P (get_room_by_id id db.rooms) (λ _. inl refl)
                (λ data_ found.
                  let own = get_room_by_id-id id db.rooms data_ found in
                  load_open-IsLoaded data_ (p ∙ ap some (sym own))
                    (subst (λ z. get_room_by_id z db.rooms ≡ some data_) (sym own) found))))
