-- ===== src/Store/Restored.antt =====
-- Laws of stored results, and of players that are read again (SaveResult and PlayersOfRoom).
use jejak_inderasakti_be.Shared.{
  ◌⊎◌, ℕ, ◌≡◌, ◌≢◌, refl, subst, ap, ◌∙◌, ℤ, pos, negsuc, String, true, false, not, ◌||◌, List, [],
  ◌∷◌, ◌++◌, Option, none, some, if◌then◌else◌, same, if_elim, maybe_elim, arith, inl, inr,
}
use jejak_inderasakti_be.Store.Types.{Result, StoreError}
use jejak_inderasakti_be.Store.Database.{Database, PlayerRow, AnswerRow}
use jejak_inderasakti_be.Store.Rooms.{Commit, commits, loses, commits_unheard, committed}
use jejak_inderasakti_be.Store.Progress.{
  error_of, has_answer, has_player_row, insert_answer, with_progress, update_rows,
  update_player_progress, SaveFaults, answer_params, save_progress, save_answer, save_result,
}

-- The row of a player.
abbrev pub find_row : String → List PlayerRow → Option PlayerRow
find_row id [] = none
find_row id (row ∷ rows) = if same row.id id then some row else find_row id rows

find_row-update_rows :
    (id : String) (f : PlayerRow → PlayerRow) (rows : List PlayerRow) (row : PlayerRow)
    → ((x : PlayerRow) → (f x).id ≡ x.id)
    → find_row id rows ≡ some row
    → find_row id (update_rows id f rows) ≡ some (f row)
unfolding update_rows
find_row-update_rows id f [] row k h = cc
find_row-update_rows id f (x ∷ rows) row k h =
    ground (arith, k x, find_row-update_rows id f rows row k)

find_row_ne :
    (id k : String) (f : PlayerRow → PlayerRow) (rows : List PlayerRow)
    → ((x : PlayerRow) → (f x).id ≡ x.id)
    → k ≢ id
    → find_row k (update_rows id f rows) ≡ find_row k rows
unfolding update_rows
find_row_ne id k f [] e n = refl
find_row_ne id k f (x ∷ rows) e n = ground (arith, e x, find_row_ne id k f rows e n)

has_answer-append :
    (row : AnswerRow) (rows : List AnswerRow)
    → has_answer row.player_id row.question_id (rows ++ row ∷ []) ≡ true
unfolding has_answer
has_answer-append row [] = ground arith
has_answer-append row (x ∷ rows) = ground (arith, has_answer-append row rows)

module _ (f : SaveFaults) (id : String) (r : Result) (db : Database) where
  -- The result is stored whole: the answer is new, the player's totals are those of the result, and
  -- no other player's are touched.
  abbrev pub IsStored : Database → Type 0
  IsStored after =
      (has_answer id r.question_id db.answers ≡ false)
      × (has_answer id r.question_id after.answers ≡ true)
      × ((row : PlayerRow)
          → find_row id db.players ≡ some row
          → (total_ms : ℕ) × (r.total_ms ≡ pos total_ms)
            × (find_row id after.players ≡ some (with_progress f.now r total_ms row)))
      × ((k : String) → k ≢ id → find_row k after.players ≡ find_row k db.players)

  -- What each reply says of the tables: stored whole, or not at all, or a commit whose error hides
  -- that the result is stored; a duplicate is an answer that is there already.
  abbrev pub IsAtomic : Option StoreError × Database → Type 0
  IsAtomic (none, after) = IsStored after
  IsAtomic (some StoreError.duplicate_answer, after) =
      (after ≡ db) × (has_answer id r.question_id db.answers ≡ true)
  IsAtomic (some _, after) = (after ≡ db) ⊎ IsStored after

  updated :
      (n : ℤ) (rows : List PlayerRow)
      → r.total_ms ≡ n
      → has_player_row id db.players ≡ true
      → update_player_progress f.now id r n db.players ≡ some rows
      → (total_ms : ℕ) × (r.total_ms ≡ pos total_ms)
        × (rows ≡ update_rows id (with_progress f.now r total_ms) db.players)
  unfolding update_player_progress
  updated (pos n) rows e p h = (n, e, ground arith)
  updated (negsuc n) rows e p h = ground arith

  inserted :
      (answers : List AnswerRow)
      → has_answer id r.question_id db.answers ≡ false
      → insert_answer (answer_params id r) db.answers ≡ some answers
      → has_answer id r.question_id answers ≡ true
  unfolding insert_answer answer_params
  inserted answers new e =
      let added : db.answers ++ answer_params id r ∷ [] ≡ answers = ground (arith, e, new) in
      subst (λ z. has_answer id r.question_id z ≡ true) added
        (has_answer-append (answer_params id r) db.answers)

  stored :
      (answers : List AnswerRow) (players : List PlayerRow)
      → has_answer id r.question_id db.answers ≡ false
      → has_player_row id db.players ≡ true
      → insert_answer (answer_params id r) db.answers ≡ some answers
      → update_player_progress f.now id r r.total_ms db.players ≡ some players
      → IsStored (record db { players = players; answers = answers })
  unfolding with_progress
  stored answers players new there e u =
      let (total_ms, t, same_rows) = updated r.total_ms players refl there u in
      (
        new,
        inserted answers new e,
        (λ row h. (
          total_ms,
          t,
          ap (find_row id) same_rows
              ∙ find_row-update_rows id (with_progress f.now r total_ms) db.players row (λ x. refl)
                  h,
        )),
        (λ k n.
            ap (find_row k) same_rows
            ∙ find_row_ne id k (with_progress f.now r total_ms) db.players (λ x. refl) n),
      )

  committed-IsAtomic :
      (c : Commit) (after : Database)
      → IsStored after
      → IsAtomic (error_of (committed c tt db after))
  unfolding committed error_of
  committed-IsAtomic commits after h = h
  committed-IsAtomic loses after h = inl refl
  committed-IsAtomic commits_unheard after h = inr h

  save_progress-IsAtomic :
      (answers : List AnswerRow)
      → has_answer id r.question_id db.answers ≡ false
      → has_player_row id db.players ≡ true
      → insert_answer (answer_params id r) db.answers ≡ some answers
      → IsAtomic (save_progress f id r answers db)
  unfolding save_progress
  save_progress-IsAtomic answers new there e =
      if_elim IsAtomic f.update_fails (λ _. inl refl)
        (λ _.
          maybe_elim IsAtomic (update_player_progress f.now id r r.total_ms db.players)
            (λ _. inl refl)
            (λ players u.
              committed-IsAtomic f.commit (record db { players = players; answers = answers })
                (stored answers players new there e u)))

  taken_lem :
      insert_answer (answer_params id r) db.answers ≡ none
      → has_answer id r.question_id db.answers ≡ true
  unfolding insert_answer answer_params
  taken_lem e = ground arith

  new_lem :
      (answers : List AnswerRow)
      → insert_answer (answer_params id r) db.answers ≡ some answers
      → has_answer id r.question_id db.answers ≡ false
  unfolding insert_answer answer_params
  new_lem answers e = ground arith

  save_answer-IsAtomic : IsAtomic (save_answer f id r db)
  unfolding save_answer
  save_answer-IsAtomic =
      if_elim IsAtomic (f.insert_fails || not (has_player_row id db.players)) (λ _. inl refl)
        (λ there.
          maybe_elim IsAtomic (insert_answer (answer_params id r) db.answers)
            (λ taken. (refl, taken_lem taken))
            (λ answers e. save_progress-IsAtomic answers (new_lem answers e) (ground arith) e))

-- Storing a result is all or nothing, whichever calls fail: without an error the answer is new and
-- the player's row has the totals of the result, with no other row changed; a duplicate answer changes
-- nothing and is there already; any other error leaves the tables, or hides that all is stored.
pub save_result_lem :
    (parse : String → Option String) (f : SaveFaults) (id : String) (r : Result) (db : Database)
    → parse r.player_id ≡ some id
    → IsAtomic f id r db (save_result parse f r db)
unfolding save_result
save_result_lem parse f id r db e = rw e (
    if_elim (IsAtomic f id r db) f.begin_fails (λ _. inl refl)
      (λ _. save_answer-IsAtomic f id r db))

-- What is stored without an error.
pub stored_lem :
    (f : SaveFaults) (id : String) (r : Result) (db : Database) (z : Option StoreError × Database)
    → IsAtomic f id r db z
    → z.0 ≡ none
    → IsStored f id r db z.1
stored_lem f id r db (none, after) h e = h
stored_lem f id r db (some x, after) h e = cc
