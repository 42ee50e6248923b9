-- ===== src/Store/Refusals.antt =====
-- What a refused join leaves (api/internal/store/store.go, JoinRoom).
use jejak_inderasakti_be.Shared.{◌≡◌, refl, String, Option, leb, if_elim, maybe_elim}
use jejak_inderasakti_be.Store.Types.{Player, StoreError, Fallible, ok, err}
use jejak_inderasakti_be.Store.Database.{
  Database, lock_room_for_join, count_room_players, insert_player_row,
}
use jejak_inderasakti_be.Store.Rooms.{
  NewPlayer, Commit, Faults, commits, loses, commits_unheard, committed, max_players_in_room,
  player_row, new_player_info, insert_player, join_room, school_name,
}

-- A failure that the caller can tell apart from a failure of the database changes no table.
abbrev pub IsRefusal : Database → Fallible Player × Database → Type 0
IsRefusal db (ok p, after) = Unit
IsRefusal db (err StoreError.other, after) = Unit
IsRefusal db (err _, after) = after ≡ db

committed-IsRefusal :
    (c : Commit) (p : Player) (db after : Database) → IsRefusal db (committed c p db after)
unfolding committed
committed-IsRefusal commits p db after = tt
committed-IsRefusal loses p db after = tt
committed-IsRefusal commits_unheard p db after = tt

insert_player-IsRefusal :
    (f : Faults) (room_id : String) (new : NewPlayer) (db : Database)
    → IsRefusal db (insert_player f room_id new db)
unfolding insert_player
insert_player-IsRefusal f room_id new db =
    maybe_elim (IsRefusal db) (school_name f.school_fails new.school_id db.schools) (λ _. refl)
      (λ school _.
        if_elim (IsRefusal db) f.insert_fails (λ _. tt)
          (λ _.
            maybe_elim (IsRefusal db)
              (insert_player_row (player_row f.new_id room_id new) db.players) (λ _. refl)
              (λ rows _. committed-IsRefusal f.commit (new_player_info f.new_id school new) db _)))

pub join_room-IsRefusal :
    (parse : String → Option String) (f : Faults) (new : NewPlayer) (db : Database)
    → IsRefusal db (join_room parse f new db)
unfolding join_room
join_room-IsRefusal parse f new db =
    maybe_elim (IsRefusal db) (parse new.room_id) (λ _. refl)
      (λ room_id _.
        if_elim (IsRefusal db) f.begin_fails (λ _. tt)
          (λ _.
            if_elim (IsRefusal db) f.lock_fails (λ _. tt)
              (λ _.
                if_elim (IsRefusal db) (lock_room_for_join room_id db.rooms)
                  (λ _.
                    if_elim (IsRefusal db) f.count_fails (λ _. tt)
                      (λ _.
                        if_elim (IsRefusal db)
                          (leb max_players_in_room (count_room_players room_id db.players))
                          (λ _. refl) (λ _. insert_player-IsRefusal f room_id new db)))
                  (λ _. refl))))
