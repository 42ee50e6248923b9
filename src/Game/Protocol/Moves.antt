-- ===== src/Game/Protocol/Moves.antt =====
-- The operations of a room that a session sees, one by one.
use jejak_inderasakti_be.Shared.{
  get_elem?_lt, ltb, ℕ, ◌≤◌, ◌<◌, ◌≡◌, ◌≢◌, inl, refl, sym, subst, ap, ◌∙◌, String, Bool, true,
  false, map, Option, none, some, if_elim, maybe_elim, length, leb, arith, Float64,
}
use jejak_inderasakti_be.Store.Types.{Status, Fallible, ok, err, StoreError}
use jejak_inderasakti_be.Game.Scoring.{ScoreInput, score}
use jejak_inderasakti_be.Game.Scoring.Laws.{score_bounds}
use jejak_inderasakti_be.Game.State.{
  PlayerState, Room, Deps, ActiveQuestion, find, set_player, is_running, is_lobby, is_ended,
  deadline,
}
use jejak_inderasakti_be.Game.Session.{
  close_all, drop_sink, end_session, end_if_all_finished, start_session, started,
}
use jejak_inderasakti_be.Game.Board.{broadcast}
use jejak_inderasakti_be.Game.Play.Options.{Outcome, outcome_at, timeout_outcome, answered_outcome}
use jejak_inderasakti_be.Game.Play.Resolve.{
  advance, resolve, resolve_with, settle, is_right, settle_expired, settle_active,
}
use jejak_inderasakti_be.Game.Players.Find.{find-All}
use jejak_inderasakti_be.Game.Invariant.Defs.{IsValid, core, IsSound, is_overdue, max_points}
use jejak_inderasakti_be.Game.Invariant.Frames.{reject_failed_save-core}
use jejak_inderasakti_be.Game.Invariant.Progress.{active-lt, score-le}
use jejak_inderasakti_be.Game.Invariant.Resolve.{marked, marked-core}
use jejak_inderasakti_be.Game.Protocol.{
  set_entry, Session, Step, Steps, here, next, view, entry_of, IsProgress,
}
use jejak_inderasakti_be.Game.Protocol.Entries.{entries-map, entries-find, entries-put}

pub Steps-trans : {s t u : Session} → Steps s t → Steps t u → Steps s u
Steps-trans {s} {t} h (here e) = subst (Steps s) (sym e) h
Steps-trans h (next k st) = next (Steps-trans h k) st

pub one_step : {s t : Session} → Step s t → Steps s t
one_step st = next (here refl) st

-- What a session sees of the change from one room to another.
abbrev pub Refines : {W : Type 0} → Room W → Room W → Type 0
Refines r z = Steps (view (core r)) (view (core z))

running_lem : (s : Status) → is_running s ≡ true → s ≡ Status.running
running_lem Status.lobby e = cc
running_lem Status.running e = refl
running_lem Status.ended e = cc

lobby_lem : (s : Status) → is_lobby s ≡ true → s ≡ Status.lobby
lobby_lem Status.lobby e = refl
lobby_lem Status.running e = cc
lobby_lem Status.ended e = cc

pub not_ended : (s : Status) → is_ended s ≡ false → s ≢ Status.ended
not_ended Status.lobby e = cc
not_ended Status.running e = cc
not_ended Status.ended e = cc

-- An outcome that is not right earns nothing, and any outcome at most 1250.
abbrev pub IsEarned : Outcome → Type 0
IsEarned out = (is_right out.correct ≡ false → out.points ≡ 0) × (out.points ≤ max_points)

pub timeout_outcome-IsEarned : (a : ActiveQuestion) → IsEarned (timeout_outcome a)
unfolding timeout_outcome
timeout_outcome-IsEarned a = ((λ _. refl), omega arith)

score_wrong : (f : Float64) (i : ScoreInput) → i.correct ≡ false → score f i ≡ 0
score_wrong f i e = (score_bounds f i).2 (inl e)

answered_outcome-IsEarned :
    (d : Deps) (r : Room d.World) (p : PlayerState) (a : ActiveQuestion) (chosen : String) (now : ℕ)
    → IsEarned (answered_outcome d r p a chosen now)
unfolding answered_outcome is_right
answered_outcome-IsEarned d r p a chosen now =
    ((λ wrong. score_wrong d.float _ wrong), score-le d.float _)

pub outcome_at-IsEarned :
    (d : Deps) (r : Room d.World) (p : PlayerState) (a : ActiveQuestion) (chosen : Option String)
    (now : ℕ)
    → IsEarned (outcome_at d r p a chosen now)
unfolding outcome_at
outcome_at-IsEarned d r p a none now = timeout_outcome-IsEarned a
outcome_at-IsEarned d r p a (some chosen) now =
    if_elim IsEarned (ltb (deadline a) now) {x = timeout_outcome a}
      {y = answered_outcome d r p a chosen now} (λ _. timeout_outcome-IsEarned a)
      (λ _. answered_outcome-IsEarned d r p a chosen now)

advance-IsProgress :
    (p : PlayerState) (out : Outcome)
    → IsEarned out
    → IsProgress (entry_of p) (entry_of (advance p out))
unfolding advance
advance-IsProgress p out h = (refl, refl, ground (arith, h.0, h.1))

module _ (d : Deps) where
  open d use {World}

  pub end_session-Refines : (r : Room World) → Refines r (end_session d r)
  unfolding end_session broadcast close_all
  end_session-Refines r =
      if_elim (Refines r) (is_ended r.status) (λ _. here refl)
        (λ e. one_step (
          Step.finish (not_ended r.status e) (
            ap (λ es. record { total = length r.questions; status = Status.ended; entries = es })
              (entries-map drop_sink r.players (λ p. refl)))))

  pub end_if_all_finished-Refines : (r : Room World) → Refines r (end_if_all_finished d r)
  unfolding end_if_all_finished
  end_if_all_finished-Refines r =
      if_elim (Refines r) (is_overdue (core r)) (λ _. end_session-Refines r) (λ _. here refl)

  started-Refines :
      (a : Fallible Bool) (r : Room World) → is_lobby r.status ≡ true → Refines r (started d a r)
  unfolding started broadcast
  started-Refines (ok true) r e = one_step (Step.start (lobby_lem r.status e) refl)
  started-Refines (ok false) r e = here refl
  started-Refines (err x) r e = here refl

  pub start_session-Refines : (r : Room World) → Refines r (start_session d r)
  unfolding start_session
  start_session-Refines r =
      if_elim (Refines r) (is_lobby r.status)
        (λ e.
          started-Refines (d.mark_room_started r.id r.world).0
            (record r { world = (d.mark_room_started r.id r.world).1 }) e)
        (λ _. here refl)

  module _ (p : PlayerState) (a : ActiveQuestion) (out : Outcome) (announce : Bool) where
    -- The player moves on, and the session may end.
    settle-Refines :
        (r : Room World)
        → is_running r.status ≡ true
        → find p.info.id r.players ≡ some p
        → p.resolved < length r.questions
        → IsEarned out
        → Refines r (
            settle d
              (advance p out)
              a
              out
              announce
              (leb (length r.questions) (advance p out).resolved)
              r)
    unfolding settle
    settle-Refines r run f l h =
        if_elim (Refines r) (leb (length r.questions) (advance p out).resolved)
          (λ _. Steps-trans moved (end_if_all_finished-Refines _)) (λ _. moved)
      where
        set : view (core (set_player (advance p out) r)) ≡ record (view (core r)) {
          entries = set_entry (entry_of (advance p out)) (map entry_of r.players);
        }
        set =
            ap (λ es. record { total = length r.questions; status = r.status; entries = es })
              (entries-put (advance p out) r.players)

        moved : Refines r (
            marked d
              (advance p out)
              a
              out
              announce
              (leb (length r.questions) (advance p out).resolved)
              r)
        moved = one_step (
            Step.resolve (entry_of p) (entry_of (advance p out)) (running_lem r.status run)
              (entries-find p.info.id r.players p f) l (advance-IsProgress p out h)
              (ap view (marked-core d (advance p out) a out announce _ r) ∙ set))

    resolve_with-Refines :
        (e : Option StoreError) (r : Room World)
        → is_running r.status ≡ true
        → find p.info.id r.players ≡ some p
        → p.resolved < length r.questions
        → IsEarned out
        → Refines r (resolve_with d e p a out announce r).1
    unfolding resolve_with
    resolve_with-Refines (some x) r run f l h = here (ap view (reject_failed_save-core p x r))
    resolve_with-Refines none r run f l h = settle-Refines r run f l h

    pub resolve-Refines :
        (r : Room World)
        → is_running r.status ≡ true
        → find p.info.id r.players ≡ some p
        → p.resolved < length r.questions
        → IsEarned out
        → Refines r (resolve d p a out announce r).1
    unfolding resolve
    resolve-Refines r run f l h = resolve_with-Refines _ (record r { world = _ }) run f l h

  -- A player of a valid room with a question has one left.
  pub asked_lt :
      (p : PlayerState) (a : ActiveQuestion) (r : Room World)
      → find p.info.id r.players ≡ some p
      → p.active ≡ some a
      → IsValid (core r)
      → p.resolved < length r.questions
  asked_lt p a r f e v =
      get_elem?_lt r.questions p.resolved a.question
        (active-lt r.questions p a (find-All (IsSound r.questions) p.info.id r.players p f v.sound)
          e).0

  pub settle_expired-Refines :
      (p : PlayerState) (r : Room World)
      → find p.info.id r.players ≡ some p
      → IsValid (core r)
      → Refines r (settle_expired d p r).1
  unfolding settle_expired settle_active
  settle_expired-Refines p r f v =
      maybe_elim (λ (z : Bool × Room World). Refines r z.1) p.active (λ _. here refl)
        (λ a e.
          if_elim (λ (z : Bool × Room World). Refines r z.1) (is_running r.status)
            (λ run.
              if_elim (λ (z : Bool × Room World). Refines r z.1)
                (ltb (d.clock r.world).0 (deadline a)) (λ _. here refl)
                (λ _.
                  resolve-Refines p a (timeout_outcome a) false
                    (record r { world = (d.clock r.world).1 }) run f (asked_lt p a r f e v)
                    (timeout_outcome-IsEarned a)))
            (λ _. here refl))
