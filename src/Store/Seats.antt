-- ===== src/Store/Seats.antt =====
-- Laws of joining rooms (api/internal/store/store.go, JoinRoom).
use jejak_inderasakti_be.Shared.{
  ◌≤◌, ◌<◌, ◌≡◌, sym, subst, String, true, List, [], ◌∷◌, ◌++◌, Option, some, leb, if_elim,
  maybe_elim, arith, Bool-cases, inl, inr,
}
use jejak_inderasakti_be.Store.Types.{Player, StoreError, Fallible, ok, err}
use jejak_inderasakti_be.Store.Database.{
  Database, PlayerRow, lock_room_for_join, count_room_players, has_nickname, insert_player_row,
}
use jejak_inderasakti_be.Store.Rooms.{
  NewPlayer, Commit, Faults, commits, loses, commits_unheard, committed, max_players_in_room,
  player_row, new_player_info, insert_player, join_room, school_name,
}
use jejak_inderasakti_be.Store.Rows.{
  SeatsDiffer, count_room_players-append, has_nickname-SeatsDiffer,
}

-- No room has more than 15 players, and no two of a room have the same nickname.
abbrev pub HasSeats : Database → Type 0
HasSeats db =
    ((room_id : String) → count_room_players room_id db.players ≤ max_players_in_room)
    × SeatsDiffer db.players

-- A player that is said to have joined an open room has the next seat in it, and one is told that the
-- room is full only if it has 15 players.
abbrev pub IsSeated :
    (String → Option String) → NewPlayer → Database → Fallible Player → Database → Type 0
IsSeated parse new db (ok p) after =
    (room_id : String) × (parse new.room_id ≡ some room_id)
    × (lock_room_for_join room_id db.rooms ≡ true)
    × (after.players ≡ db.players ++ (player_row p.id room_id new ∷ []))
IsSeated parse new db (err StoreError.room_full) after =
    (room_id : String) × (parse new.room_id ≡ some room_id)
    × (max_players_in_room ≤ count_room_players room_id db.players)
IsSeated parse new db (err _) after = Unit

module _ (parse : String → Option String) (new : NewPlayer) (db : Database) where
  abbrev AfterJoin : Fallible Player × Database → Type 0
  AfterJoin (reply, after) = HasSeats after × IsSeated parse new db reply after

  committed-AfterJoin :
      (c : Commit) (p : Player) (after : Database)
      → HasSeats db
      → AfterJoin (ok p, after)
      → AfterJoin (committed c p db after)
  unfolding committed
  committed-AfterJoin commits p after h k = k
  committed-AfterJoin loses p after h k = (h, tt)
  committed-AfterJoin commits_unheard p after h k = (k.0, tt)

  -- A row that is inserted while the room has fewer than 15 players.
  inserted-HasSeats :
      (row : PlayerRow) (rows : List PlayerRow)
      → HasSeats db
      → count_room_players row.room_id db.players < max_players_in_room
      → insert_player_row row db.players ≡ some rows
      → HasSeats (record db { players = rows }) × (rows ≡ db.players ++ (row ∷ []))
  unfolding insert_player_row
  inserted-HasSeats row rows h space e =
      elim (Bool-cases (has_nickname row.room_id row.nickname db.players)) [
        | inl taken ↦ ground (arith, e, taken)
        | inr free ↦
            let added : db.players ++ (row ∷ []) ≡ rows = ground (arith, e, free) in
            (
              (
                (λ id.
                    subst (λ z. count_room_players id z ≤ max_players_in_room) added
                      (ground (arith, count_room_players-append id db.players row, h.0 id, space))),
                subst SeatsDiffer added (has_nickname-SeatsDiffer row db.players free h.1),
              ),
              sym added,
            )
      ]

  insert_player_lem :
      (f : Faults) (room_id : String)
      → parse new.room_id ≡ some room_id
      → lock_room_for_join room_id db.rooms ≡ true
      → HasSeats db
      → count_room_players room_id db.players < max_players_in_room
      → AfterJoin (insert_player f room_id new db)
  unfolding insert_player
  insert_player_lem f room_id e l h space =
      maybe_elim AfterJoin (school_name f.school_fails new.school_id db.schools) (λ _. (h, tt))
        (λ school _.
          if_elim AfterJoin f.insert_fails (λ _. (h, tt))
            (λ _.
              maybe_elim AfterJoin (insert_player_row (player_row f.new_id room_id new) db.players)
                (λ _. (h, tt))
                (λ rows i.
                  let (seats, added) =
                    inserted-HasSeats (player_row f.new_id room_id new) rows h space i in
                  committed-AfterJoin f.commit (new_player_info f.new_id school new)
                    (record db { players = rows }) h (seats, (room_id, e, l, added)))))

  -- Joining keeps every room to 15 players and to distinct nicknames, whichever calls of the database
  -- fail. A player who is given out has the next seat of an open room, and one is told that the room
  -- is full only if it has 15 players.
  pub join_room_lem :
      (f : Faults)
      → HasSeats db
      → let (reply, after) = join_room parse f new db in
        HasSeats after × IsSeated parse new db reply after
  unfolding join_room
  join_room_lem f h =
      maybe_elim AfterJoin (parse new.room_id) (λ _. (h, tt))
        (λ room_id e.
          if_elim AfterJoin f.begin_fails (λ _. (h, tt))
            (λ _.
              if_elim AfterJoin f.lock_fails (λ _. (h, tt))
                (λ _.
                  if_elim AfterJoin (lock_room_for_join room_id db.rooms)
                    (λ l.
                      if_elim AfterJoin f.count_fails (λ _. (h, tt))
                        (λ _.
                          if_elim AfterJoin
                            (leb max_players_in_room (count_room_players room_id db.players))
                            (λ full. (h, (room_id, e, ground arith)))
                            (λ space. insert_player_lem f room_id e l h (ground arith))))
                    (λ _. (h, tt)))))
