-- ===== src/Game/Effects/Restored.antt =====
-- A player that is read again from the store (SaveResult and PlayersOfRoom of api/internal/store, and
-- addPlayer of api/internal/game/room.go).
use jejak_inderasakti_be.Shared.{
  ℕ, ◌≤◌, ◌≡◌, refl, ap, ℤ, pos, pos_part, String, Bool, List, Option, none, some, length, arith,
  min,
}
use jejak_inderasakti_be.Store.Types.{Question}
use jejak_inderasakti_be.Store.Database.{Database, PlayerRow}
use jejak_inderasakti_be.Store.Rooms.{to_int16, to_int32}
use jejak_inderasakti_be.Store.Progress.{SaveFaults, save_result, with_progress, player_of_row}
use jejak_inderasakti_be.Store.Restored.{find_row, stored_lem, save_result_lem}
use jejak_inderasakti_be.Game.State.{PlayerState, ActiveQuestion}
use jejak_inderasakti_be.Game.Play.Options.{Outcome}
use jejak_inderasakti_be.Game.Play.Resolve.{advance, result_of}
use jejak_inderasakti_be.Game.Room.{state_of}
use jejak_inderasakti_be.Game.Invariant.Defs.{IsSound}

-- The totals of a player.
abbrev pub Totals : Type 0
Totals = ℕ × ℕ × ℤ × ℕ × ℕ

abbrev pub totals : PlayerState → Totals
totals p = (p.score, p.correct, p.total_ms, p.streak, p.resolved)

-- The columns are wide enough for a session of at most 15 questions.
restored_totals :
    (qs : List Question) (schools : List (ℕ × String)) (now : ℕ) (p next : PlayerState)
    (a : ActiveQuestion) (out : Outcome) (finished : Bool) (total_ms : ℕ) (row : PlayerRow)
    → length qs ≤ 15
    → IsSound qs next
    → next.total_ms ≡ pos total_ms
    → totals (
        state_of (
          player_of_row schools (with_progress now (result_of p a out next finished) total_ms row)))
      ≡ totals next
unfolding state_of player_of_row with_progress result_of to_int16 to_int32
restored_totals qs schools now p next a out finished total_ms row l s e =
    let score_fits : min next.score 2147483647 ≡ next.score = omega arith in
    let correct_fits : min next.correct 32767 ≡ next.correct = omega arith in
    let streak_fits : min next.streak 32767 ≡ next.streak = omega arith in
    let index_fits : min next.resolved 32767 ≡ next.resolved = omega arith in
    let time : pos_part next.total_ms ≡ total_ms = ap pos_part e in
    let time_fits : min total_ms 2147483647 ≡ total_ms = omega arith in
    rw (score_fits, correct_fits, streak_fits, index_fits, time_fits, e) refl

-- A player of a session of at most 15 questions whose resolved question is stored without an error
-- has the same score, correct answers, time, streak and next question when it is read again.
pub restored_lem :
    (parse : String → Option String) (f : SaveFaults) (db : Database) (qs : List Question)
    (p : PlayerState) (a : ActiveQuestion) (out : Outcome) (finished : Bool) (row : PlayerRow)
    (id : String)
    → parse p.info.id ≡ some id
    → find_row id db.players ≡ some row
    → length qs ≤ 15
    → IsSound qs (advance p out)
    → (save_result parse f (result_of p a out (advance p out) finished) db).0 ≡ none
    → (again : PlayerRow) × (find_row id
          (save_result parse f (result_of p a out (advance p out) finished) db).1.players
        ≡ some again)
      × (totals (state_of (player_of_row db.schools again)) ≡ totals (advance p out))
unfolding result_of
restored_lem parse f db qs p a out finished row id e h l s ok =
    let (total_ms, t, again) =
      (stored_lem f id (result_of p a out (advance p out) finished) db _
          (save_result_lem parse f id (result_of p a out (advance p out) finished) db e) ok).2
        row h in
    (
      with_progress f.now (result_of p a out (advance p out) finished) total_ms row,
      again,
      restored_totals qs db.schools f.now p (advance p out) a out finished total_ms row l s t,
    )
