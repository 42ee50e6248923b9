-- ===== src/Store/Reloaded.antt =====
-- What PlayersOfRoom returns (api/internal/store/store.go), in terms of the table.
use jejak_inderasakti_be.Shared.{
  maybe-some, ap, ◌∙◌, Option-cases, ℕ, ℤ, pos, ◌≡◌, ◌⊎◌, inl, inr, refl, String, Bool, true, false,
  List, [], ◌∷◌, Option, none, some, maybe, same, if◌then◌else◌, if_elim, arith, subst, sym,
  Selection, done, keep, skip,
}
use jejak_inderasakti_be.Store.Types.{StoreError, Player, ok, err}
use jejak_inderasakti_be.Store.Database.{Database, PlayerRow, get_school_name}
use jejak_inderasakti_be.Store.Progress.{
  list_room_players, joined_school, player_of_row, players_of_rows, players_of_room,
}

-- The name of a school, empty without one.
abbrev pub IsSchoolOf : List (ℕ × String) → Option ℤ → String → Type 0
IsSchoolOf schools none name = name ≡ ""
IsSchoolOf schools (some id) name =
    (get_school_name id schools ≡ some name) ⊎ ((get_school_name id schools ≡ none) × (name ≡ ""))

-- A player has finished who has a time of it.
abbrev pub IsFinishedAt : Option ℕ → Bool → Type 0
IsFinishedAt none finished = finished ≡ false
IsFinishedAt (some t) finished = finished ≡ true

-- A player as it stands in a row.
abbrev pub IsPlayerOf : List (ℕ × String) → PlayerRow → Player → Type 0
IsPlayerOf schools row p =
    (p.id ≡ row.id)
    × (p.nickname ≡ row.nickname)
    × IsSchoolOf schools row.school_id p.school
    × (p.lang ≡ row.lang)
    × (p.avatar ≡ row.avatar)
    × (p.score ≡ row.score)
    × (p.correct_count ≡ row.correct_count)
    × (p.total_ms ≡ pos row.total_ms)
    × (p.current_index ≡ row.current_index)
    × (p.streak ≡ row.streak)
    × IsFinishedAt row.finished_at p.finished

abbrev pub ArePlayersOf : List (ℕ × String) → List PlayerRow → List Player → Type 0
ArePlayersOf schools [] [] = Unit
ArePlayersOf schools (row ∷ rows) (p ∷ ps) = IsPlayerOf schools row p × ArePlayersOf schools rows ps
ArePlayersOf schools _ _ = ⊥

-- One player for each row of the room, in the order of the table.
abbrev pub IsRoster : String → Database → List Player → Type 0
IsRoster room_id db ps =
    (rows : List PlayerRow) × Selection (λ row. row.room_id ≡ room_id) db.players rows
    × ArePlayersOf db.schools rows ps

pub list_room_players-Selection :
    (room_id : String) (rows : List PlayerRow)
    → Selection (λ row. row.room_id ≡ room_id) rows (list_room_players room_id rows)
unfolding list_room_players
list_room_players-Selection room_id [] = done
list_room_players-Selection room_id (row ∷ rows) =
    let P : PlayerRow → Type 0 = λ r. r.room_id ≡ room_id in
    let rest = list_room_players-Selection room_id rows in
    if_elim (Selection P (row ∷ rows)) (same row.room_id room_id)
      (λ own. keep (ground (arith, own)) rest) (λ n. skip (λ e. ground (arith, n, e)) rest)

pub joined_school-IsSchoolOf :
    (schools : List (ℕ × String)) (id : Option ℤ) → IsSchoolOf schools id (joined_school id schools)
unfolding joined_school
joined_school-IsSchoolOf schools none = refl
joined_school-IsSchoolOf schools (some id) = elim (Option-cases (get_school_name id schools)) [
  | inl e ↦ inr (e, rw e refl)
  | inr (name, e) ↦ inl (e ∙ ap some (sym (maybe-some "" (λ n. n) e)))
]

finished-IsFinishedAt : (t : Option ℕ) → IsFinishedAt t (maybe t false (λ _. true))
finished-IsFinishedAt none = refl
finished-IsFinishedAt (some t) = refl

players_of_rows-ArePlayersOf :
    (schools : List (ℕ × String)) (rows : List PlayerRow)
    → ArePlayersOf schools rows (players_of_rows schools rows)
unfolding players_of_rows player_of_row
players_of_rows-ArePlayersOf schools [] = tt
players_of_rows-ArePlayersOf schools (row ∷ rows) = (
  (
    refl,
    refl,
    joined_school-IsSchoolOf schools row.school_id,
    refl,
    refl,
    refl,
    refl,
    refl,
    refl,
    refl,
    finished-IsFinishedAt row.finished_at,
  ),
  players_of_rows-ArePlayersOf schools rows,
)

pub players_of_room-IsRoster :
    (parse : String → Option String) (fails : Bool) (room_id id : String) (db : Database)
    (ps : List Player)
    → parse room_id ≡ some id
    → players_of_room parse fails room_id db ≡ ok ps
    → IsRoster id db ps
unfolding players_of_room
players_of_room-IsRoster parse fails room_id id db ps p e =
    let roster : List Player = players_of_rows db.schools (list_room_players id db.players) in
    let found : (if fails then err StoreError.other else ok roster) ≡ ok ps = rw p at e in
    if_elim (λ z. z ≡ ok ps → IsRoster id db ps) fails (λ _ f. cc)
      (λ _ f.
        let whole : roster ≡ ps = cc in
        subst (IsRoster id db) whole (
          list_room_players id db.players,
          list_room_players-Selection id db.players,
          players_of_rows-ArePlayersOf db.schools (list_room_players id db.players),
        ))
      found
