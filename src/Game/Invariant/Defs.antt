-- ===== src/Game/Invariant/Defs.antt =====
-- The invariants of a room, stated of the fields that carry its progress.
use jejak_inderasakti_be.Shared.{
  ◌<◌, sym, subst, ℕ, ◌*◌, ◌≤◌, ◌≡◌, String, Bool, true, false, ◌&&◌, not, List, Option, none, some,
  All, Distinct, get_elem?, length, pos_part,
}
use jejak_inderasakti_be.Store.Types.{Status, Question}
use jejak_inderasakti_be.Game.Scoring.{millisecond}
use jejak_inderasakti_be.Game.State.{
  is_lobby, PlayerState, Room, ActiveQuestion, Sink, is_running, is_ended,
}
use jejak_inderasakti_be.Game.Session.{all_finished, is_empty}
use jejak_inderasakti_be.Game.Players.Keys.{keys}

-- The largest score and time of one question.
abbrev pub max_points : ℕ
max_points = 1250

abbrev pub max_question_ms : ℕ
max_question_ms = 31250

-- The active question is the next one of the room, under a timer of at most 31.25 s.
abbrev pub IsNext : List Question → ℕ → Option ActiveQuestion → Type 0
IsNext qs i none = Unit
IsNext qs i (some a) =
    (get_elem? qs i ≡ some a.question) × (a.limit ≤ max_question_ms * millisecond)

-- The totals of a player fit the number of questions that it has resolved.
pub record IsSound (qs : List Question) (p : PlayerState) : Type 0 where
  pub within : p.resolved ≤ length qs
  pub correct_le : p.correct ≤ p.resolved
  pub streak_le : p.streak ≤ p.correct
  pub score_le : p.score ≤ max_points * p.resolved
  pub time_le : pos_part p.total_ms ≤ max_question_ms * p.resolved
  pub next : IsNext qs p.resolved p.active

-- The fields of a room that the invariants speak of.
pub record Core : Type 0 where
  pub questions : List Question
  pub status : Status
  pub players : List PlayerState
  pub order : List String
  pub host : Option Sink

abbrev pub core : {W : Type 0} → Room W → Core
core r = record {
  questions = r.questions;
  status = r.status;
  players = r.players;
  order = r.order;
  host = r.host;
}

-- The core of `r` is that of `z`.
abbrev pub SameCore : {W : Type 0} → Room W → Room W → Type 0
SameCore r z = core z ≡ core r

abbrev pub SameCoreOf : {A W : Type 0} → Room W → A × Room W → Type 0
SameCoreOf r z = core z.1 ≡ core r

-- No connection is attached.
abbrev pub IsDetached : Core → Type 0
IsDetached c = (c.host ≡ none) × All (λ p. p.sink ≡ none) c.players

-- The room has questions; the order lists the keys of the players, each once, and every player is sound; nothing is attached
-- to a room that has ended; nobody has played in a room that has not started.
pub record IsValid (c : Core) : Type 0 where
  pub asked : 0 < length c.questions
  pub keyed : keys c.players ≡ c.order
  pub distinct : Distinct c.order
  pub sound : All (IsSound c.questions) c.players
  pub quiet : is_ended c.status ≡ true → IsDetached c
  pub fresh : is_lobby c.status ≡ true → All (λ p. p.resolved ≡ 0) c.players

-- All players are finished, and the session still runs.
abbrev pub is_overdue : Core → Bool
is_overdue c =
    is_running c.status && not (is_empty c.players) && all_finished (length c.questions) c.players

abbrev pub IsLive : Core → Type 0
IsLive c = is_overdue c ≡ false

-- What every event keeps.
abbrev pub IsGood : {W : Type 0} → Room W → Type 0
IsGood r = IsValid (core r) × IsLive (core r)

-- A core that is the same is as good.
pub same-IsGood : {b c : Core} → c ≡ b → IsValid b × IsLive b → IsValid c × IsLive c
same-IsGood e g = (subst IsValid (sym e) g.0, subst IsLive (sym e) g.1)
