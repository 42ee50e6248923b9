-- ===== src/Store/Rows.antt =====
-- Laws of new rows in the tables.
use jejak_inderasakti_be.Shared.{
  ℕ, suc, ◌+◌, ◌≤◌, ◌≡◌, ◌≢◌, String, true, false, List, [], ◌∷◌, ◌++◌, some, if◌then◌else◌, same,
  arith, All, Distinct, map,
}
use jejak_inderasakti_be.Store.Database.{
  RoomRow, PlayerRow, is_open, count_active_rooms, has_pin, count_room_players, has_nickname,
  get_active_room_by_pin,
}

-- Each row differs from every later one.
abbrev pub PinsDiffer : List RoomRow → Type 0
PinsDiffer rows = Distinct (map (λ row. row.room.pin) rows)

abbrev pub SeatsDiffer : List PlayerRow → Type 0
SeatsDiffer [] = Unit
SeatsDiffer (row ∷ rows) =
    All (λ other. row.room_id ≡ other.room_id → row.nickname ≢ other.nickname) rows
    × SeatsDiffer rows

pub count_active_rooms-append :
    (now : ℕ) (rows : List RoomRow) (row : RoomRow)
    → count_active_rooms now (rows ++ (row ∷ [])) ≤ suc (count_active_rooms now rows)
unfolding count_active_rooms
count_active_rooms-append now [] row = ground arith
count_active_rooms-append now (r ∷ rows) row =
    ground (arith, count_active_rooms-append now rows row)

-- A new row's PIN is no other's.
pub has_pin-PinsDiffer :
    (row : RoomRow) (rows : List RoomRow)
    → has_pin row.room.pin rows ≡ false
    → PinsDiffer rows
    → PinsDiffer (rows ++ (row ∷ []))
unfolding has_pin
has_pin-PinsDiffer row [] h d = (tt, tt)
has_pin-PinsDiffer row (r ∷ rows) h d =
    (differs rows (ground arith) d.0, has_pin-PinsDiffer row rows (ground arith) d.1)
  where
    differs :
        (rs : List RoomRow)
        → r.room.pin ≢ row.room.pin
        → All (λ t. r.room.pin ≢ t) (map (λ x. x.room.pin) rs)
        → All (λ t. r.room.pin ≢ t) (map (λ x. x.room.pin) (rs ++ (row ∷ [])))
    differs [] n a = (n, tt)
    differs (x ∷ rs) n a = (a.0, differs rs n a.1)

pub count_room_players-append :
    (id : String) (rows : List PlayerRow) (row : PlayerRow)
    → count_room_players id (rows ++ (row ∷ []))
      ≡ count_room_players id rows + (if same row.room_id id then 1 else 0)
unfolding count_room_players
count_room_players-append id [] row = ground arith
count_room_players-append id (r ∷ rows) row = ground (arith, count_room_players-append id rows row)

pub has_nickname-SeatsDiffer :
    (row : PlayerRow) (rows : List PlayerRow)
    → has_nickname row.room_id row.nickname rows ≡ false
    → SeatsDiffer rows
    → SeatsDiffer (rows ++ (row ∷ []))
unfolding has_nickname
has_nickname-SeatsDiffer row [] h d = (tt, tt)
has_nickname-SeatsDiffer row (r ∷ rows) h d =
    (differs rows (λ e f. ground arith) d.0, has_nickname-SeatsDiffer row rows (ground arith) d.1)
  where
    differs :
        (rs : List PlayerRow)
        → (r.room_id ≡ row.room_id → r.nickname ≢ row.nickname)
        → All (λ other. r.room_id ≡ other.room_id → r.nickname ≢ other.nickname) rs
        → All (λ other. r.room_id ≡ other.room_id → r.nickname ≢ other.nickname) (rs ++ (row ∷ []))
    differs [] n a = (n, tt)
    differs (x ∷ rs) n a = (a.0, differs rs n a.1)

pub get_active_room_by_pin-append :
    (rows : List RoomRow) (row : RoomRow)
    → has_pin row.room.pin rows ≡ false
    → is_open row.room.status ≡ true
    → get_active_room_by_pin row.room.pin (rows ++ (row ∷ [])) ≡ some row.room
unfolding has_pin get_active_room_by_pin
get_active_room_by_pin-append [] row h o = ground arith
get_active_room_by_pin-append (r ∷ rows) row h o =
    ground (arith, get_active_room_by_pin-append rows row)
