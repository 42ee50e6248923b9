-- ===== src/Store/Results.antt =====
-- api/internal/store/results.go, RoomResults, with GetRoomLeaderboard of
-- api/internal/store/queries/results.sql.go: the results of a room.
use jejak_inderasakti_be.Shared.{
  ℕ, suc, String, Bool, ◌&&◌, ◌||◌, List, [], ◌∷◌, Option, ltb, ◌==◌, if◌then◌else◌, maybe,
}
use jejak_inderasakti_be.Store.Types.{Fallible, ok, err, not_found, other}
use jejak_inderasakti_be.Store.Database.{Database, PlayerRow}
use jejak_inderasakti_be.Store.Progress.{list_room_players, joined_school}

pub record ResultRow : Type 0 where
  pub rank : ℕ
  pub nickname : String
  pub school : String
  pub jenjang : String
  pub score : ℕ
  pub correct_count : ℕ
  pub total_ms : ℕ

-- Whether the first comes strictly earlier: ORDER BY score DESC, correct_count DESC, total_ms ASC
unfoldable pub outranks : PlayerRow → PlayerRow → Bool
outranks a b =
    ltb b.score a.score
    || a.score == b.score
      && (ltb b.correct_count a.correct_count
          || a.correct_count == b.correct_count && ltb a.total_ms b.total_ms)

unfoldable pub count_outranking : PlayerRow → List PlayerRow → ℕ
count_outranking row [] = 0
count_outranking row (peer ∷ rows) =
    let rest = count_outranking row rows in if outranks peer row then suc rest else rest

-- RANK() is one more than the number of the rows that come strictly earlier.
unfoldable pub ranked_row : List (ℕ × String) → List PlayerRow → PlayerRow → ResultRow
ranked_row schools all row = record {
  rank = suc (count_outranking row all);
  nickname = row.nickname;
  school = joined_school row.school_id schools;
  jenjang = row.jenjang;
  score = row.score;
  correct_count = row.correct_count;
  total_ms = row.total_ms;
}

unfoldable pub ranked_rows : List (ℕ × String) → List PlayerRow → List PlayerRow → List ResultRow
ranked_rows schools all [] = []
ranked_rows schools all (row ∷ rows) = ranked_row schools all row ∷ ranked_rows schools all rows

-- ORDER BY rank, nickname, where `before` is the collation of the database.
module _ (before : String → String → Bool) where
  unfoldable pub comes_before : ResultRow → ResultRow → Bool
  comes_before a b = ltb a.rank b.rank || a.rank == b.rank && before a.nickname b.nickname

  unfoldable pub insert_result : ResultRow → List ResultRow → List ResultRow
  insert_result r [] = r ∷ []
  insert_result r (x ∷ xs) =
      let rest = insert_result r xs in if comes_before r x then r ∷ x ∷ xs else x ∷ rest

  unfoldable pub sort_results : List ResultRow → List ResultRow
  sort_results [] = []
  sort_results (r ∷ rs) = insert_result r (sort_results rs)

  unfoldable pub get_room_leaderboard : String → Database → List ResultRow
  get_room_leaderboard room_id db =
      let rows = list_room_players room_id db.players in
      sort_results (ranked_rows db.schools rows rows)

  -- `fails` is an error of the database.
  unfoldable pub room_results :
      (String → Option String) → Bool → String → Database → Fallible (List ResultRow)
  room_results parse fails room_id db =
      maybe (parse room_id) (err not_found)
        (λ id. if fails then err other else ok (get_room_leaderboard id db))
