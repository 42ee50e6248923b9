-- ===== src/Store/Created.antt =====
-- What a created room is (api/internal/store/store.go, CreateRoom).
use jejak_inderasakti_be.Shared.{
  none, ℕ, zero, suc, ◌≡◌, refl, String, Option, some, leb, maybe, if_elim, maybe_elim,
}
use jejak_inderasakti_be.Store.Types.{RoomData, Fallible, ok, err}
use jejak_inderasakti_be.Store.Database.{Database, count_active_rooms, insert_room}
use jejak_inderasakti_be.Store.Rooms.{
  pin_attempts, NewRoom, Commit, Faults, commits, loses, commits_unheard, committed,
  max_active_rooms, new_room_data, insert_room_tx, create_room_from, create_room,
}

module _ (new : NewRoom) where
  -- A room that is given out is the one that was asked for, in the lobby, with an id and a PIN.
  abbrev pub IsAsked : String → Fallible RoomData → Type 0
  IsAsked host_id (ok room) =
      (id : String) × (pin : String) × (room ≡ new_room_data id host_id pin new)
  IsAsked host_id (err e) = Unit

  module _ (host_id : String) where
    abbrev IsAskedTry : Option (Fallible RoomData) × Database → Type 0
    IsAskedTry (reply, after) = maybe reply Unit (IsAsked host_id)

    committed-IsAsked :
        (commit : Commit) (id pin : String) (before after : Database)
        → IsAsked host_id (committed commit (new_room_data id host_id pin new) before after).0
    unfolding committed
    committed-IsAsked commits id pin before after = (id, pin, refl)
    committed-IsAsked loses id pin before after = tt
    committed-IsAsked commits_unheard id pin before after = tt

    insert_room_tx-IsAsked :
        (f : Faults) (now : ℕ) (id pin : String) (db : Database)
        → IsAskedTry (insert_room_tx f now (new_room_data id host_id pin new) db)
    unfolding insert_room_tx
    insert_room_tx-IsAsked f now id pin db =
        if_elim IsAskedTry f.begin_fails (λ _. tt)
          (λ _.
            if_elim IsAskedTry f.lock_fails (λ _. tt)
              (λ _.
                if_elim IsAskedTry f.count_fails (λ _. tt)
                  (λ _.
                    if_elim IsAskedTry (leb max_active_rooms (count_active_rooms now db.rooms))
                      (λ _. tt)
                      (λ _.
                        if_elim IsAskedTry f.insert_fails (λ _. tt)
                          (λ _.
                            maybe_elim IsAskedTry
                              (insert_room
                                (record {
                                  room = new_room_data id host_id pin new;
                                  created_at = now;
                                })
                                db.rooms)
                              (λ _. tt) (λ rows _. committed-IsAsked f.commit id pin db _))))))

    next_try-IsAsked :
        (z : Option (Fallible RoomData) × Database)
        (again : Database → Fallible RoomData × Database)
        → ((after : Database) → IsAsked host_id (again after).0)
        → IsAskedTry z
        → IsAsked host_id (maybe z.0 (again z.1) (λ r. (r, z.1))).0
    next_try-IsAsked (none, after) again h k = h after
    next_try-IsAsked (some reply, after) again h k = k

    create_room_from-IsAsked :
        (left i : ℕ) (random_pin : ℕ → Option String) (faults : ℕ → Faults) (now : ℕ)
        (db : Database)
        → IsAsked host_id (create_room_from left i random_pin faults now host_id new db).0
    unfolding create_room_from
    create_room_from-IsAsked zero i random_pin faults now db = tt
    create_room_from-IsAsked (suc left) i random_pin faults now db =
        maybe_elim (λ (z : Fallible RoomData × Database). IsAsked host_id z.0) (random_pin i)
          (λ _. tt)
          (λ pin _.
            next_try-IsAsked
              (insert_room_tx (faults i) now (new_room_data (faults i).new_id host_id pin new) db)
              (λ after. create_room_from left (suc i) random_pin faults now host_id new after)
              (λ after. create_room_from-IsAsked left (suc i) random_pin faults now after)
              (insert_room_tx-IsAsked (faults i) now (faults i).new_id pin db))

  -- The host of the room is the one who asked.
  abbrev pub IsGiven : (String → Option String) → Fallible RoomData → Type 0
  IsGiven parse (ok room) =
      (host_id : String) × (parse new.host_id ≡ some host_id) × IsAsked host_id (ok room)
  IsGiven parse (err e) = Unit

  given :
      (parse : String → Option String) (host_id : String) (reply : Fallible RoomData)
      → parse new.host_id ≡ some host_id
      → IsAsked host_id reply
      → IsGiven parse reply
  given parse host_id (ok room) p k = (host_id, p, k)
  given parse host_id (err e) p k = tt

  pub create_room-IsGiven :
      (parse : String → Option String) (random_pin : ℕ → Option String) (faults : ℕ → Faults)
      (now : ℕ) (db : Database)
      → IsGiven parse (create_room parse random_pin faults now new db).0
  unfolding create_room
  create_room-IsGiven parse random_pin faults now db =
      maybe_elim (λ (z : Fallible RoomData × Database). IsGiven parse z.0) (parse new.host_id)
        (λ _. tt)
        (λ host_id p.
          given parse host_id _ p
            (create_room_from-IsAsked host_id pin_attempts zero random_pin faults now db))
