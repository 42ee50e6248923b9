-- ===== src/Store/Ranked.antt =====
-- What RoomResults returns (api/internal/store/results.go), in terms of the table.
use mathlib.Core.List.{Perm}
use mathlib.Core.List.Perm
use jejak_inderasakti_be.Shared.{
  ℕ, suc, ◌<◌, ◌≤◌, ◌≡◌, ◌⊎◌, refl, String, Bool, true, false, List, [], ◌∷◌, Option, some, if_elim,
  maybe_elim, arith, subst, ap, length, All, All-imp, Selection, done, keep, skip,
}
use jejak_inderasakti_be.Store.Types.{Fallible, ok}
use jejak_inderasakti_be.Store.Database.{Database, PlayerRow}
use jejak_inderasakti_be.Store.Progress.{list_room_players}
use jejak_inderasakti_be.Store.Reloaded.{
  IsSchoolOf, joined_school-IsSchoolOf, list_room_players-Selection,
}
use jejak_inderasakti_be.Store.Results.{
  ResultRow, outranks, count_outranking, ranked_row, ranked_rows, comes_before, insert_result,
  sort_results, get_room_leaderboard, room_results,
}

-- More points; with as many, more correct answers; with as many of both, less time.
abbrev pub IsAhead : PlayerRow → PlayerRow → Type 0
IsAhead a b =
    (b.score < a.score)
    ⊎ ((a.score ≡ b.score)
        × ((b.correct_count < a.correct_count)
            ⊎ ((a.correct_count ≡ b.correct_count) × (a.total_ms < b.total_ms))))

-- One more than the number of the rows ahead of a row.
abbrev pub IsRankOf : List PlayerRow → PlayerRow → ℕ → Type 0
IsRankOf all row rank =
    (ahead : List PlayerRow) × Selection (λ peer. IsAhead peer row) all ahead
    × (rank ≡ suc (length ahead))

-- The result of the player of a row, among all rows of the room.
abbrev pub IsResultOf : List (ℕ × String) → List PlayerRow → PlayerRow → ResultRow → Type 0
IsResultOf schools all row r =
    IsRankOf all row r.rank
    × (r.nickname ≡ row.nickname)
    × IsSchoolOf schools row.school_id r.school
    × (r.jenjang ≡ row.jenjang)
    × (r.score ≡ row.score)
    × (r.correct_count ≡ row.correct_count)
    × (r.total_ms ≡ row.total_ms)

abbrev pub AreResultsOf :
    List (ℕ × String) → List PlayerRow → List PlayerRow → List ResultRow → Type 0
AreResultsOf schools all [] [] = Unit
AreResultsOf schools all (row ∷ rows) (r ∷ rs) =
    IsResultOf schools all row r × AreResultsOf schools all rows rs
AreResultsOf schools all _ _ = ⊥

-- No rank stands after a greater one.
abbrev pub AreByRank : List ResultRow → Type 0
AreByRank [] = Unit
AreByRank (r ∷ rs) = All (λ x. r.rank ≤ x.rank) rs × AreByRank rs

-- One result for each row of the room, by rank.
abbrev pub AreRoomResults : String → Database → List ResultRow → Type 0
AreRoomResults room_id db rs =
    (rows : List PlayerRow) × (unsorted : List ResultRow) × Selection (λ row. row.room_id ≡ room_id)
      db.players rows
    × AreResultsOf db.schools rows rows unsorted
    × Perm unsorted rs
    × AreByRank rs

outranks-IsAhead : (a b : PlayerRow) → outranks a b ≡ true → IsAhead a b
unfolding outranks
outranks-IsAhead a b e = ground (arith, e)

IsAhead-outranks : (a b : PlayerRow) → outranks a b ≡ false → ¬ IsAhead a b
unfolding outranks
IsAhead-outranks a b e h = ground (arith, e, h)

count_outranking-IsRankOf :
    (row : PlayerRow) (all : List PlayerRow) → IsRankOf all row (suc (count_outranking row all))
unfolding count_outranking
count_outranking-IsRankOf row [] = ([], done, refl)
count_outranking-IsRankOf row (peer ∷ rows) =
    let (ahead, chosen, e) = count_outranking-IsRankOf row rows in
    if_elim (λ z. IsRankOf (peer ∷ rows) row (suc z)) (outranks peer row)
      (λ h. (peer ∷ ahead, keep (outranks-IsAhead peer row h) chosen, ap suc e))
      (λ h. (ahead, skip (IsAhead-outranks peer row h) chosen, e))

ranked_rows-AreResultsOf :
    (schools : List (ℕ × String)) (all rows : List PlayerRow)
    → AreResultsOf schools all rows (ranked_rows schools all rows)
unfolding ranked_rows ranked_row
ranked_rows-AreResultsOf schools all [] = tt
ranked_rows-AreResultsOf schools all (row ∷ rows) = (
  (
    count_outranking-IsRankOf row all,
    refl,
    joined_school-IsSchoolOf schools row.school_id,
    refl,
    refl,
    refl,
    refl,
  ),
  ranked_rows-AreResultsOf schools all rows,
)

module _ (before : String → String → Bool) where
  insert_result-perm :
      (r : ResultRow) (rs : List ResultRow) → Perm (r ∷ rs) (insert_result before r rs)
  unfolding insert_result
  insert_result-perm r [] = Perm.refl (r ∷ [])
  insert_result-perm r (x ∷ xs) =
      if_elim (Perm (r ∷ x ∷ xs)) (comes_before before r x) (λ _. Perm.refl (r ∷ x ∷ xs))
        (λ _. Perm.trans (Perm.swap x r xs) (Perm.cons x (insert_result-perm r xs)))

  sort_results-perm : (rs : List ResultRow) → Perm rs (sort_results before rs)
  unfolding sort_results
  sort_results-perm [] = Perm.refl []
  sort_results-perm (r ∷ rs) =
      Perm.trans (Perm.cons r (sort_results-perm rs))
        (insert_result-perm r (sort_results before rs))

  All-insert_result :
      (P : ResultRow → Type 0) (r : ResultRow) (rs : List ResultRow)
      → P r
      → All P rs
      → All P (insert_result before r rs)
  unfolding insert_result
  All-insert_result P r [] p h = (p, tt)
  All-insert_result P r (x ∷ xs) p h =
      if_elim (All P) (comes_before before r x) (λ _. (p, h))
        (λ _. (h.0, All-insert_result P r xs p h.1))

  insert_result-AreByRank :
      (r : ResultRow) (rs : List ResultRow) → AreByRank rs → AreByRank (insert_result before r rs)
  unfolding insert_result comes_before
  insert_result-AreByRank r [] h = (tt, tt)
  insert_result-AreByRank r (x ∷ xs) (least, h) =
      if_elim AreByRank (comes_before before r x)
        (λ e.
          let le : r.rank ≤ x.rank = ground (arith, e) in
          ((le, All-imp _ _ xs (λ y m. omega (arith, le, m)) least), (least, h)))
        (λ e.
          let le : x.rank ≤ r.rank = ground (arith, e) in
          (All-insert_result (λ y. x.rank ≤ y.rank) r xs le least, insert_result-AreByRank r xs h))

  sort_results-AreByRank : (rs : List ResultRow) → AreByRank (sort_results before rs)
  unfolding sort_results
  sort_results-AreByRank [] = tt
  sort_results-AreByRank (r ∷ rs) =
      insert_result-AreByRank r (sort_results before rs) (sort_results-AreByRank rs)

  get_room_leaderboard-AreRoomResults :
      (room_id : String) (db : Database)
      → AreRoomResults room_id db (get_room_leaderboard before room_id db)
  unfolding get_room_leaderboard
  get_room_leaderboard-AreRoomResults room_id db =
      let rows = list_room_players room_id db.players in
      let unsorted = ranked_rows db.schools rows rows in
      (
        rows,
        unsorted,
        list_room_players-Selection room_id db.players,
        ranked_rows-AreResultsOf db.schools rows rows,
        sort_results-perm unsorted,
        sort_results-AreByRank unsorted,
      )

  pub room_results-AreRoomResults :
      (parse : String → Option String) (fails : Bool) (room_id : String) (db : Database)
      (rs : List ResultRow)
      → room_results before parse fails room_id db ≡ ok rs
      → (id : String) × (parse room_id ≡ some id) × AreRoomResults id db rs
  unfolding room_results
  room_results-AreRoomResults parse fails room_id db rs =
      let P : Fallible (List ResultRow) → Type 0 =
        λ z. z ≡ ok rs → (id : String) × (parse room_id ≡ some id) × AreRoomResults id db rs in
      maybe_elim P (parse room_id) (λ _ e. cc)
        (λ id p.
          if_elim P fails (λ _ e. cc)
            (λ _ e.
              let whole : get_room_leaderboard before id db ≡ rs = cc in
              (
                id,
                p,
                subst (AreRoomResults id db) whole (get_room_leaderboard-AreRoomResults id db),
              )))
