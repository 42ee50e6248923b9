-- ===== src/Game/Invariant/Progress.antt =====
-- An outcome is bounded, and a player who advances by it stays sound.
use jejak_inderasakti_be.Shared.{
  subst, get_elem?, ℕ, ◌*◌, ◌≤◌, ◌<◌, ◌≡◌, String, List, Option, none, some, if_elim, ltb, pos_part,
  pos_part-add, pos_part-quot, pos_part-min_ℕ, length, arith, sub_ℕ, min_ℕ, Float64,
}
use jejak_inderasakti_be.Store.Types.{Question}
use jejak_inderasakti_be.Game.Scoring.{ScoreInput, score, millisecond}
use jejak_inderasakti_be.Game.Scoring.Laws.{score_bounds, base_points_cases}
use jejak_inderasakti_be.Game.State.{PlayerState, Room, Deps, ActiveQuestion, deadline}
use jejak_inderasakti_be.Game.Play.Options.{Outcome, timeout_outcome, answered_outcome, outcome_at}
use jejak_inderasakti_be.Game.Play.Resolve.{advance}
use jejak_inderasakti_be.Game.Invariant.Defs.{IsSound, IsNext, max_points, max_question_ms}

-- The points and the time of one outcome.
pub record IsBounded (out : Outcome) : Type 0 where
  pub points_le : out.points ≤ max_points
  pub spent_le : pos_part out.spent_ms ≤ max_question_ms

pub score-le : (f : Float64) (i : ScoreInput) → score f i ≤ max_points
score-le f i = omega (arith, (score_bounds f i).0, base_points_cases i.level)

pub timeout_outcome-IsBounded :
    (a : ActiveQuestion) → a.limit ≤ max_question_ms * millisecond → IsBounded (timeout_outcome a)
unfolding timeout_outcome
timeout_outcome-IsBounded a h = record { points_le = omega arith; spent_le = omega arith }

answered_outcome-IsBounded :
    (d : Deps) (r : Room d.World) (p : PlayerState) (a : ActiveQuestion) (chosen : String) (now : ℕ)
    → a.limit ≤ max_question_ms * millisecond
    → IsBounded (answered_outcome d r p a chosen now)
unfolding answered_outcome
answered_outcome-IsBounded d r p a chosen now h = record {
  points_le = score-le d.float _;
  spent_le = omega (
    arith,
    pos_part-quot (min_ℕ (sub_ℕ now a.served_at) a.limit) millisecond,
    pos_part-min_ℕ (sub_ℕ now a.served_at) a.limit,
  );
}

pub outcome_at-IsBounded :
    (d : Deps) (r : Room d.World) (p : PlayerState) (a : ActiveQuestion) (chosen : Option String)
    (now : ℕ)
    → a.limit ≤ max_question_ms * millisecond
    → IsBounded (outcome_at d r p a chosen now)
unfolding outcome_at
outcome_at-IsBounded d r p a none now h = timeout_outcome-IsBounded a h
outcome_at-IsBounded d r p a (some chosen) now h =
    if_elim IsBounded (ltb (deadline a) now) (λ _. timeout_outcome-IsBounded a h)
      (λ _. answered_outcome-IsBounded d r p a chosen now h)

module _ (qs : List Question) (p : PlayerState) (out : Outcome) where
  -- A player with an active question that advances by a bounded outcome stays sound.
  pub advance-IsSound :
      IsSound qs p → p.resolved < length qs → IsBounded out → IsSound qs (advance p out)
  unfolding advance
  advance-IsSound s l b = record {
    within = omega arith;
    correct_le = ground arith;
    streak_le = ground arith;
    score_le = omega arith;
    time_le = omega (arith, pos_part-add p.total_ms out.spent_ms);
    next = tt;
  }

pub active-lt :
    (qs : List Question) (p : PlayerState) (a : ActiveQuestion)
    → IsSound qs p
    → p.active ≡ some a
    → (get_elem? qs p.resolved ≡ some a.question) × (a.limit ≤ max_question_ms * millisecond)
active-lt qs p a s e = subst (IsNext qs p.resolved) e s.next
