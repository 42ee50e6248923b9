-- ===== src/Game/Effects/Answers.antt =====
-- The effect of an answer: once, in time, and with a valid option.
use jejak_inderasakti_be.Shared.{
  if_false, same_refl, if_true, maybe-some, ℕ, suc, ◌+◌, ◌/◌, ◌≤◌, ◌<◌, ◌≡◌, refl, sym, subst, ap,
  ◌∙◌, ◌⊎◌, String, true, false, Option, none, some, if_elim, maybe_elim, ltb, arith, pos, ◌+ℤ◌,
  if◌then◌else◌,
}
use native.Mathlib.Nat.{add-zero}
use jejak_inderasakti_be.Game.Scoring.{millisecond}
use jejak_inderasakti_be.Game.State.{
  PlayerState, Room, Deps, ActiveQuestion, deadline, find, is_running,
}
use jejak_inderasakti_be.Game.Play.Options.{
  Outcome, outcome_at, outcome_of, timeout_outcome, answered_outcome, has_option, is_correct,
}
use jejak_inderasakti_be.Game.Play.Resolve.{advance, resolve, is_right}
use jejak_inderasakti_be.Game.Play.Handlers.{
  answer, answer_of, answer_running, answer_active, invalid_option,
}
use jejak_inderasakti_be.Game.Invariant.Defs.{SameCore}
use jejak_inderasakti_be.Game.Invariant.Frames.{reject-core, reject_unserved_answer-core}
use jejak_inderasakti_be.Game.Effects.Resolved.{progress, progress_of, saved, resolve_lem}

-- A player is shown a question, and answers it in a running room.
pub record IsAnswering {W : Type 0} (r : Room W) (p : PlayerState) (a : ActiveQuestion)
    : Type 0 where
  pub running : is_running r.status ≡ true
  pub present : find p.info.id r.players ≡ some p
  pub shown : p.active ≡ some a

module _ (d : Deps) where
  open d use {World}

  -- The room after an answer that passes the guards is that of its outcome.
  pub answer-resolve :
      (r : Room World) (p : PlayerState) (a : ActiveQuestion) (chosen : Option String)
      → IsAnswering r p a
      → invalid_option a chosen ≡ false
      → answer d p.info.id a.question.id chosen r
        ≡ (resolve d p a
            (outcome_at d r p a chosen (d.clock r.world).0)
            true
            (record r { world = (d.clock r.world).1 })).1
  unfolding answer answer_of answer_running answer_active outcome_of
  answer-resolve r p a chosen h v =
      maybe-some r (λ q. answer_of d q a.question.id chosen r) h.present
      ∙ if_true (answer_running d p p.active a.question.id chosen r) _ h.running
      ∙ ap (λ o. answer_running d p o a.question.id chosen r) h.shown
      ∙ if_true (answer_active d p a chosen r) _ (same_refl a.question.id)
      ∙ if_false _ _ v

  idle :
      (id : String) (r : Room World) {x : PlayerState}
      → progress_of id r ≡ some x
      → x.active ≡ none
      → (p : PlayerState) → find id r.players ≡ some p
      → p.active ≡ none
  idle id r h e p f = ground arith

  -- An answer of a player with no active question changes no progress.
  pub idle_answer :
      (id question_id : String) (chosen : Option String) (r : Room World)
      → ((p : PlayerState) → find id r.players ≡ some p → p.active ≡ none)
      → SameCore r (answer d id question_id chosen r)
  unfolding answer answer_of
  idle_answer id question_id chosen r h =
      maybe_elim (SameCore r) (find id r.players) (λ _. refl)
        (λ p f.
          if_elim (SameCore r) (is_running r.status) (λ _. inactive p (h p f))
            (λ _. reject-core p _ _ _ r))
    where
      inactive :
          (p : PlayerState)
          → p.active ≡ none
          → SameCore r (answer_running d p p.active question_id chosen r)
      inactive p e =
          subst (λ o. SameCore r (answer_running d p o question_id chosen r)) (sym e)
            (unfold answer_running in reject_unserved_answer-core p question_id r)

  answer-saved :
      (r : Room World) (p : PlayerState) (a : ActiveQuestion) (chosen : Option String)
      (out : Outcome)
      → IsAnswering r p a
      → invalid_option a chosen ≡ false
      → outcome_at d r p a chosen (d.clock r.world).0 ≡ out
      → saved d p a out (record r { world = (d.clock r.world).1 }) ≡ none
      → progress_of p.info.id (answer d p.info.id a.question.id chosen r)
        ≡ some (progress (advance p out))
  answer-saved r p a chosen out h v o e =
      ap (progress_of p.info.id) (
        answer-resolve r p a chosen h v
        ∙ ap (λ z. (resolve d p a z true (record r { world = (d.clock r.world).1 })).1) o)
      ∙ ((resolve_lem d p a out true (record r { world = (d.clock r.world).1 }) h.present).0 e).1

  outcome_late :
      (r : Room World) (p : PlayerState) (a : ActiveQuestion) (chosen : Option String) (now : ℕ)
      → (chosen ≡ none) ⊎ (deadline a < now)
      → outcome_at d r p a chosen now ≡ timeout_outcome a
  unfolding outcome_at
  outcome_late r p a none now t = refl
  outcome_late r p a (some option) now t = if_true {b = ltb (deadline a) now} _ _ (ground arith)

  -- Answering a question again changes nothing: if the store keeps the result of an answer to the
  -- shown question, any second answer of that player leaves the status, the players and the order
  -- as the first one left them.
  pub answer_once :
      (r : Room World) (p : PlayerState) (a : ActiveQuestion) (chosen again : Option String)
      (question_id : String)
      → IsAnswering r p a
      → invalid_option a chosen ≡ false
      → saved d p a
          (outcome_at d r p a chosen (d.clock r.world).0)
          (record r { world = (d.clock r.world).1 })
        ≡ none
      → let first = answer d p.info.id a.question.id chosen r in
        SameCore first (answer d p.info.id question_id again first)
  answer_once r p a chosen again question_id h v e =
      idle_answer p.info.id question_id again (answer d p.info.id a.question.id chosen r) (
        idle p.info.id (answer d p.info.id a.question.id chosen r)
          (ap (progress_of p.info.id) (answer-resolve r p a chosen h v)
            ∙ ((resolve_lem d p a (outcome_at d r p a chosen (d.clock r.world).0) true
                  (record r { world = (d.clock r.world).1 }) h.present).0
                e).1)
          (unfold advance in refl))

  -- A stored answer in time that picks an option of the shown question adds its points to the score
  -- and its time to the total, lengthens the streak if the option is the correct one and ends it
  -- otherwise, and resolves the question.
  pub answer_in_time :
      (r : Room World) (p : PlayerState) (a : ActiveQuestion) (option : String)
      → IsAnswering r p a
      → has_option a.options option ≡ true
      → (d.clock r.world).0 ≤ deadline a
      → let out = answered_outcome d r p a option (d.clock r.world).0 in
        saved d p a out (record r { world = (d.clock r.world).1 }) ≡ none
        → progress_of p.info.id (answer d p.info.id a.question.id (some option) r)
          ≡ some (record p {
            sink = none;
            active = none;
            score = p.score + out.points;
            total_ms = p.total_ms +ℤ out.spent_ms;
            resolved = suc p.resolved;
            streak = if is_correct a.options option then suc p.streak else 0;
            correct = if is_correct a.options option then suc p.correct else p.correct;
          })
  unfolding outcome_at invalid_option
  answer_in_time r p a option h v t e =
      answer-saved r p a (some option) (answered_outcome d r p a option (d.clock r.world).0) h
        (if_true _ _ v) (if_false {b = ltb (deadline a) (d.clock r.world).0} _ _ (ground arith)) e
      ∙ unfold advance is_right answered_outcome in refl

  -- A stored answer past the deadline, or without an option, earns nothing: it resolves the question,
  -- ends the streak, and counts the whole time limit.
  pub answer_late :
      (r : Room World) (p : PlayerState) (a : ActiveQuestion) (chosen : Option String)
      → IsAnswering r p a
      → invalid_option a chosen ≡ false
      → (chosen ≡ none) ⊎ (deadline a < (d.clock r.world).0)
      → saved d p a (timeout_outcome a) (record r { world = (d.clock r.world).1 }) ≡ none
      → progress_of p.info.id (answer d p.info.id a.question.id chosen r)
        ≡ some (record p {
          sink = none;
          active = none;
          total_ms = p.total_ms +ℤ pos (a.limit / millisecond);
          resolved = suc p.resolved;
          streak = 0;
        })
  answer_late r p a chosen h v t e =
      answer-saved r p a chosen (timeout_outcome a) h v
        (outcome_late r p a chosen (d.clock r.world).0 t) e
      ∙ unfold advance is_right timeout_outcome in ap (λ n. some (unscored n)) (add-zero p.score)
    where
      unscored : ℕ → PlayerState
      unscored n = record p {
        sink = none;
        active = none;
        score = n;
        total_ms = p.total_ms +ℤ pos (a.limit / millisecond);
        resolved = suc p.resolved;
        streak = 0;
      }
