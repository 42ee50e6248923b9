-- ===== src/Store/Hosts.antt =====
-- api/internal/store/store.go, HostByEmail, TouchHostLogin, CreateHost, RoomByPIN, RoomByID and
-- PlayerCount, with the statements of api/internal/store/queries/hosts.sql.go.
use jejak_inderasakti_be.Shared.{
  ℕ, String, Bool, List, [], ◌∷◌, Option, none, some, if◌then◌else◌, same, maybe,
}
use jejak_inderasakti_be.Store.Types.{RoomData, StoreError, not_found, other, Fallible, ok, err}
use jejak_inderasakti_be.Store.Database.{
  Database, HostRow, get_active_room_by_pin, get_room_by_id, count_room_players,
}

pub record Host : Type 0 where
  pub id : String
  pub email : String
  pub password_hash : String
  pub name : String

-- WHERE email = $1
unfoldable pub get_host_by_email : String → List HostRow → Option HostRow
get_host_by_email email [] = none
get_host_by_email email (row ∷ rows) =
    if same row.email email then some row else get_host_by_email email rows

-- SET last_login_at = NOW() WHERE id = $1
unfoldable pub touch_rows : ℕ → String → List HostRow → List HostRow
touch_rows now id [] = []
touch_rows now id (row ∷ rows) =
    let rest = touch_rows now id rows in
    if same row.id id then record row { last_login_at = some now } ∷ rest else row ∷ rest

-- ON CONFLICT (email) DO UPDATE; `id` is the id of a new row.
unfoldable pub upsert_rows : String → String → String → String → List HostRow → List HostRow
upsert_rows id email name password_hash [] =
    record {
      id = id;
      email = email;
      password_hash = password_hash;
      name = name;
      last_login_at = none;
    }
    ∷ []
upsert_rows id email name password_hash (row ∷ rows) =
    let rest = upsert_rows id email name password_hash rows in
    if same row.email email
    then record row { password_hash = password_hash; name = name } ∷ rows
    else row ∷ rest

-- A row, unless the database fails or has none.
unfoldable pub not_found_or : {A : Type 0} → Bool → Option A → Fallible A
not_found_or fails found = if fails then err other else maybe found (err not_found) ok

abbrev pub host_of : HostRow → Host
host_of row = record {
  id = row.id;
  email = row.email;
  password_hash = row.password_hash;
  name = row.name;
}

unfoldable pub host_by_email : Bool → String → Database → Fallible Host
host_by_email fails email db =
    if fails
    then err other
    else maybe (get_host_by_email email db.hosts) (err not_found) (λ row. ok (host_of row))

unfoldable pub touch_host_login :
    (String → Option String) → Bool → ℕ → String → Database → Option StoreError × Database
touch_host_login parse fails now host_id db = maybe (parse host_id) ((some other, db)) (λ id.
    if fails then (some other, db) else (none, record db { hosts = touch_rows now id db.hosts }))

unfoldable pub create_host :
    Bool → String → String → String → String → Database → Option StoreError × Database
create_host fails new_id email name password_hash db =
    if fails
    then (some other, db)
    else (none, record db { hosts = upsert_rows new_id email name password_hash db.hosts })

unfoldable pub room_by_pin : Bool → String → Database → Fallible RoomData
room_by_pin fails pin db = not_found_or fails (get_active_room_by_pin pin db.rooms)

unfoldable pub room_by_id : (String → Option String) → Bool → String → Database → Fallible RoomData
room_by_id parse fails room_id db =
    maybe (parse room_id) (err not_found) (λ id. not_found_or fails (get_room_by_id id db.rooms))

unfoldable pub player_count : (String → Option String) → Bool → String → Database → Fallible ℕ
player_count parse fails room_id db =
    maybe (parse room_id) (err not_found)
      (λ id. if fails then err other else ok (count_room_players id db.players))
