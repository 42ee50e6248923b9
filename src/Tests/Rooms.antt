-- ===== src/Tests/Rooms.antt =====
-- A room at concrete inputs.
use mathlib.Core.List.{Perm}
use jejak_inderasakti_be.Shared.{
  length, ◌≤◌, ℕ, ◌+◌, ◌≡◌, inl, refl, true, false, List, [], ◌∷◌, map, pos, String, none, some,
  String-discrete, tenths, All, arith, ◌+ℤ◌,
}
use jejak_inderasakti_be.Rank.{Standing, order}
use jejak_inderasakti_be.Rank.Order.{IsRanked, with_value}
use jejak_inderasakti_be.Game.State.{find, deadline}
use jejak_inderasakti_be.Game.Board.{standings, standing_of}
use jejak_inderasakti_be.Game.Session.{all_finished}
use jejak_inderasakti_be.Game.Play.Options.{
  is_correct, timeout_outcome, answered_outcome, has_option,
}
use jejak_inderasakti_be.Game.Play.Resolve.{resolve}
use jejak_inderasakti_be.Game.Play.Handlers.{answer, invalid_option}
use jejak_inderasakti_be.Game.Room.{handle, loop, joins, starts, asks_next, answers, ends}
use jejak_inderasakti_be.Game.Invariant.Defs.{core, IsSound, IsValid, IsGood, IsDetached, SameCore}
use jejak_inderasakti_be.Game.Invariant.Connections.{IsNew}
use jejak_inderasakti_be.Game.Invariant.Events.{handle-IsGood, loop-IsDetached}
use jejak_inderasakti_be.Game.Effects.Resolved.{progress_of, resolve_lem}
use jejak_inderasakti_be.Game.Effects.Answers.{
  IsAnswering, answer_once, answer_in_time, answer_late,
}
use jejak_inderasakti_be.Game.Effects.Standings.{IsFit, standings_lem}
use jejak_inderasakti_be.Game.Protocol.Moves.{Refines}
use jejak_inderasakti_be.Game.Protocol.Events.{handle-Refines, loop-Refines, stage}
use jejak_inderasakti_be.Tests.Sample.{quiet, shown, ani, running_room, lobby_room, newcomer}

ani-IsSound : IsSound running_room.questions ani
ani-IsSound = record {
  within = omega arith;
  correct_le = omega arith;
  streak_le = omega arith;
  score_le = omega arith;
  time_le = omega arith;
  next = (refl, omega arith);
}

running_room-IsGood : IsGood running_room
unfolding all_finished
running_room-IsGood = (
  record {
    asked = omega arith;
    keyed = refl;
    distinct = (tt, tt);
    sound = (ani-IsSound, tt);
    quiet = λ e. cc;
    fresh = λ e. cc;
  },
  refl,
)

lobby_room-IsGood : IsGood lobby_room
lobby_room-IsGood = (
  record {
    asked = omega arith;
    keyed = refl;
    distinct = tt;
    sound = tt;
    quiet = λ e. cc;
    fresh = λ e. tt;
  },
  refl,
)

newcomer-IsNew : (id : String) → IsNew (newcomer id)
newcomer-IsNew id = record {
  no_score = refl;
  no_correct = refl;
  no_time = refl;
  no_index = refl;
  no_streak = refl;
}

handle-IsGood_example : IsGood (handle quiet (joins (newcomer "budi")) running_room)
handle-IsGood_example =
    handle-IsGood quiet (joins (newcomer "budi")) running_room refl (newcomer-IsNew "budi")
      running_room-IsGood

loop-IsDetached_example :
    let es = joins (newcomer "ani") ∷ starts ∷ asks_next "ani" ∷ ends ∷ [] in
    IsDetached (core (loop quiet es lobby_room)) × IsValid (core (loop quiet es lobby_room))
loop-IsDetached_example =
    loop-IsDetached quiet (joins (newcomer "ani") ∷ starts ∷ asks_next "ani" ∷ ends ∷ []) lobby_room
      (newcomer-IsNew "ani", (tt, (tt, (tt, tt)))) lobby_room-IsGood refl

ani_present : find "ani" running_room.players ≡ some ani
unfolding find String-discrete
ani_present = refl

ani-IsAnswering : IsAnswering running_room ani shown
ani-IsAnswering = record { running = refl; present = ani_present; shown = refl }

valid_option : invalid_option shown (some "opt-a") ≡ false
unfolding invalid_option has_option String-discrete
valid_option = refl

resolve_lem_example : (resolve quiet ani shown (timeout_outcome shown) false running_room).0 ≡ true
resolve_lem_example =
    ((resolve_lem quiet ani shown (timeout_outcome shown) false running_room ani_present).0 refl).0

answer_once_example :
    let first = answer quiet "ani" "M1-01" (some "opt-a") running_room in
    SameCore first (answer quiet "ani" "M1-01" (some "opt-b") first)
answer_once_example =
    answer_once quiet running_room ani shown (some "opt-a") (some "opt-b") "M1-01" ani-IsAnswering
      valid_option refl

answer_in_time_example :
    let out = answered_outcome quiet running_room ani shown "opt-a" 110000000000 in
    progress_of "ani" (answer quiet "ani" "M1-01" (some "opt-a") running_room)
    ≡ some (record ani {
      sink = none;
      active = none;
      score = 0 + out.points;
      total_ms = pos 0 +ℤ out.spent_ms;
      resolved = 1;
      streak = 1;
      correct = 1;
    })
unfolding has_option is_correct String-discrete
answer_in_time_example =
    answer_in_time quiet running_room ani shown "opt-a" ani-IsAnswering refl
      (unfold deadline in omega arith) refl

answer_late_example :
    progress_of "ani" (answer quiet "ani" "M1-01" none running_room)
    ≡ some (record ani {
      sink = none;
      active = none;
      total_ms = pos 0 +ℤ pos 15000;
      resolved = 1;
      streak = 0;
    })
unfolding invalid_option
answer_late_example =
    answer_late quiet running_room ani shown none ani-IsAnswering refl (inl refl) refl

standings_lem_example :
    (standings running_room ≡ map standing_of running_room.players)
    × All IsFit (standings running_room)
    × ((ys : List Standing) × (order tenths (standings running_room) ≡ map (λ s. s.player_id) ys)
        × Perm (standings running_room) ys
        × IsRanked ys
        × ((n : ℕ) → with_value n ys ≡ with_value n (standings running_room)))
standings_lem_example = standings_lem running_room running_room-IsGood.0 (omega arith) tenths

handle-Refines_example :
    Refines running_room (handle quiet (answers "ani" "M1-01" (some "opt-a")) running_room)
handle-Refines_example =
    handle-Refines quiet (answers "ani" "M1-01" (some "opt-a")) running_room refl tt
      running_room-IsGood

loop-Refines_example :
    let es = joins (newcomer "ani") ∷ starts ∷ asks_next "ani" ∷ ends ∷ [] in
    Refines lobby_room (loop quiet es lobby_room)
    × (0 ≤ stage (loop quiet es lobby_room).status)
    × (2 ≡ length (loop quiet es lobby_room).questions)
loop-Refines_example =
    loop-Refines quiet (joins (newcomer "ani") ∷ starts ∷ asks_next "ani" ∷ ends ∷ []) lobby_room
      (newcomer-IsNew "ani", (tt, (tt, (tt, tt)))) lobby_room-IsGood refl
