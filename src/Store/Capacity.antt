-- ===== src/Store/Capacity.antt =====
-- Laws of creating rooms (api/internal/store/store.go, CreateRoom).
use jejak_inderasakti_be.Shared.{
  ℕ, zero, suc, ◌≤◌, ◌<◌, ◌≡◌, refl, subst, String, true, List, [], ◌∷◌, ◌++◌, Option, none, some,
  leb, maybe, if_elim, maybe_elim, arith, Bool-cases, inl, inr,
}
use jejak_inderasakti_be.Store.Types.{RoomData, Fallible, ok, err}
use jejak_inderasakti_be.Store.Database.{
  Database, RoomRow, is_open, count_active_rooms, insert_room, has_pin, get_active_room_by_pin,
}
use jejak_inderasakti_be.Store.Rooms.{
  NewRoom, Commit, Faults, commits, loses, commits_unheard, committed, max_active_rooms,
  new_room_data, insert_room_tx, create_room_from, create_room,
}
use jejak_inderasakti_be.Store.Rows.{
  PinsDiffer, count_active_rooms-append, has_pin-PinsDiffer, get_active_room_by_pin-append,
}

-- No more than 5 rooms are active at `now`, and no two rooms have the same PIN.
abbrev pub HasRooms : ℕ → Database → Type 0
HasRooms now db = (count_active_rooms now db.rooms ≤ max_active_rooms) × PinsDiffer db.rooms

-- A room that is said to be created is found by its PIN.
abbrev pub IsFound : Fallible RoomData → Database → Type 0
IsFound (ok room) db = get_active_room_by_pin room.pin db.rooms ≡ some room
IsFound (err e) db = Unit

module _ (now : ℕ) where
  -- What one transaction leaves: the limits, and a reply that is right.
  abbrev AfterTry : Option (Fallible RoomData) × Database → Type 0
  AfterTry (reply, after) = HasRooms now after × maybe reply Unit (λ r. IsFound r after)

  abbrev AfterCreate : Fallible RoomData × Database → Type 0
  AfterCreate (reply, after) = HasRooms now after × IsFound reply after

  committed-AfterCreate :
      (c : Commit) (room : RoomData) (before after : Database)
      → HasRooms now before
      → AfterCreate (ok room, after)
      → AfterCreate (committed c room before after)
  unfolding committed
  committed-AfterCreate commits room before after h k = k
  committed-AfterCreate loses room before after h k = (h, tt)
  committed-AfterCreate commits_unheard room before after h k = (k.0, tt)

  -- A row that is inserted while fewer than 5 rooms are active.
  inserted-AfterCreate :
      (room : RoomData) (db : Database) (rows : List RoomRow)
      → is_open room.status ≡ true
      → HasRooms now db
      → count_active_rooms now db.rooms < max_active_rooms
      → insert_room (record { room = room; created_at = now }) db.rooms ≡ some rows
      → AfterCreate (ok room, record db { rooms = rows })
  unfolding insert_room
  inserted-AfterCreate room db rows o h space e = elim (Bool-cases (has_pin room.pin db.rooms)) [
    | inl taken ↦ ground (arith, e, taken)
    | inr free ↦
        let row : RoomRow = record { room = room; created_at = now } in
        let added : db.rooms ++ (row ∷ []) ≡ rows = ground (arith, e, free) in
        (
          (
            subst (λ z. count_active_rooms now z ≤ max_active_rooms) added
                (omega (arith, count_active_rooms-append now db.rooms row, space)),
            subst PinsDiffer added (has_pin-PinsDiffer row db.rooms free h.1),
          ),
          subst (λ z. get_active_room_by_pin room.pin z ≡ some room) added
              (get_active_room_by_pin-append db.rooms row free o),
        )
  ]

  insert_room_tx_lem :
      (f : Faults) (room : RoomData) (db : Database)
      → is_open room.status ≡ true
      → HasRooms now db
      → AfterTry (insert_room_tx f now room db)
  unfolding insert_room_tx
  insert_room_tx_lem f room db o h =
      if_elim AfterTry f.begin_fails (λ _. (h, tt))
        (λ _.
          if_elim AfterTry f.lock_fails (λ _. (h, tt))
            (λ _.
              if_elim AfterTry f.count_fails (λ _. (h, tt))
                (λ _.
                  if_elim AfterTry (leb max_active_rooms (count_active_rooms now db.rooms))
                    (λ _. (h, tt))
                    (λ space.
                      if_elim AfterTry f.insert_fails (λ _. (h, tt))
                        (λ _.
                          maybe_elim AfterTry
                            (insert_room (record { room = room; created_at = now }) db.rooms)
                            (λ _. (h, tt))
                            (λ rows e.
                              committed-AfterCreate f.commit room db (record db { rooms = rows }) h
                                (inserted-AfterCreate room db rows o h (ground arith) e)))))))

  next_try :
      (z : Option (Fallible RoomData) × Database) (again : Database → Fallible RoomData × Database)
      → ((after : Database) → HasRooms now after → AfterCreate (again after))
      → AfterTry z
      → AfterCreate (maybe z.0 (again z.1) (λ r. (r, z.1)))
  next_try (none, after) again h k = h after k.0
  next_try (some r, after) again h k = k

  create_room_from_lem :
      (left i : ℕ) (random_pin : ℕ → Option String) (faults : ℕ → Faults) (host_id : String)
      (new : NewRoom) (db : Database)
      → HasRooms now db
      → AfterCreate (create_room_from left i random_pin faults now host_id new db)
  unfolding create_room_from is_open
  create_room_from_lem zero i random_pin faults host_id new db h = (h, tt)
  create_room_from_lem (suc left) i random_pin faults host_id new db h =
      maybe_elim AfterCreate (random_pin i) (λ _. (h, tt))
        (λ pin _.
          next_try
            (insert_room_tx (faults i) now (new_room_data (faults i).new_id host_id pin new) db)
            (λ after. create_room_from left (suc i) random_pin faults now host_id new after)
            (λ after. create_room_from_lem left (suc i) random_pin faults host_id new after)
            (insert_room_tx_lem (faults i) (new_room_data (faults i).new_id host_id pin new) db refl
              h))

-- Creating a room keeps to the limit of 5 active rooms and to distinct PINs, whichever calls of the
-- database fail, and a room that the caller is given is found by its PIN.
pub create_room_lem :
    (parse : String → Option String) (random_pin : ℕ → Option String) (faults : ℕ → Faults)
    (now : ℕ) (new : NewRoom) (db : Database)
    → HasRooms now db
    → let (reply, after) = create_room parse random_pin faults now new db in
      HasRooms now after × IsFound reply after
unfolding create_room
create_room_lem parse random_pin faults now new db h =
    maybe_elim (AfterCreate now) (parse new.host_id) (λ _. (h, tt))
      (λ host_id _. create_room_from_lem now _ zero random_pin faults host_id new db h)
