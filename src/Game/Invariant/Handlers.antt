-- ===== src/Game/Invariant/Handlers.antt =====
-- The invariants through the commands of a player.
use jejak_inderasakti_be.Shared.{
  ◌*◌, get_elem?_lt, ◌≤◌, ◌<◌, ◌≡◌, refl, String, Bool, true, Option, none, some, if_elim,
  maybe_elim, leb, length, arith, get_elem?, same,
}
use jejak_inderasakti_be.Store.Types.{Question}
use jejak_inderasakti_be.Game.Scoring.{millisecond, question_limit}
use jejak_inderasakti_be.Game.Scoring.Laws.{question_limit_bounds}
use jejak_inderasakti_be.Game.State.{
  PlayerState, Room, Deps, ActiveQuestion, find, put, set_player, is_running,
}
use jejak_inderasakti_be.Game.Play.Options.{outcome_of, shuffled_options, outcome_at}
use jejak_inderasakti_be.Game.Play.Resolve.{settle_expired}
use jejak_inderasakti_be.Game.Play.Handlers.{
  serve_question, serve, next_if_left, next_after_settling, next_question_of, next_question,
  answer_active, answer_running, answer_of, answer, invalid_option,
}
use jejak_inderasakti_be.Game.Players.Find.{find-All, find_self, find-put_self, find-unfinished}
use jejak_inderasakti_be.Game.Invariant.Defs.{
  max_question_ms, core, IsSound, IsLive, IsGood, same-IsGood,
}
use jejak_inderasakti_be.Game.Invariant.Frames.{
  reject-core, reject_unserved_answer-core, send_question-core,
}
use jejak_inderasakti_be.Game.Invariant.Progress.{outcome_at-IsBounded, active-lt}
use jejak_inderasakti_be.Game.Invariant.Resolve.{
  set_player-IsValid, resolve-Keeps, settle_expired-Keeps, Keeps,
}

module _ (d : Deps) where
  open d use {World}

  -- A player that is left with a question to resolve keeps a running room live.
  set_player-IsLive :
      (p q : PlayerState) (r : Room World)
      → find p.info.id r.players ≡ some q
      → p.resolved < length r.questions
      → IsLive (core (set_player p r))
  set_player-IsLive p q r f l = ground (
    arith,
    find-unfinished (length r.questions) p.info.id (put p r.players) p
        (find-put_self p q r.players f) l,
  )

  serve_question-IsGood :
      (p : PlayerState) (question : Question) (r : Room World)
      → is_running r.status ≡ true
      → find p.info.id r.players ≡ some p
      → get_elem? r.questions p.resolved ≡ some question
      → IsGood r
      → IsGood (serve_question d p question r)
  unfolding serve_question
  serve_question-IsGood p question r run f e g = same-IsGood (send_question-core _ _ _ _) (
    set_player-IsValid _ r run sound g.0,
    set_player-IsLive _ p r f (get_elem?_lt r.questions p.resolved question e),
  )
    where
      before : IsSound r.questions p
      before = find-All (IsSound r.questions) p.info.id r.players p f g.0.sound

      served : ActiveQuestion
      served = record {
        question = question;
        options = (shuffled_options d question r.world).0;
        served_at = (d.clock (shuffled_options d question r.world).1).0;
        limit = question_limit question.level r.jenjang;
      }

      sound : IsSound r.questions (record p { active = some served })
      sound = record {
        within = before.within;
        correct_le = before.correct_le;
        streak_le = before.streak_le;
        score_le = before.score_le;
        time_le = before.time_le;
        next = (e, (question_limit_bounds question.level r.jenjang).0);
      }

  serve-IsGood :
      (p : PlayerState) (r : Room World)
      → is_running r.status ≡ true
      → find p.info.id r.players ≡ some p
      → IsGood r
      → IsGood (serve d p r)
  unfolding serve
  serve-IsGood p r run f g =
      maybe_elim (IsGood {W = World}) (get_elem? r.questions p.resolved) (λ _. g)
        (λ q e. serve_question-IsGood p q r run f e g)

  next_if_left-IsGood :
      (p : PlayerState) (r : Room World)
      → is_running r.status ≡ true
      → find p.info.id r.players ≡ some p
      → IsGood r
      → IsGood (next_if_left d p r)
  unfolding next_if_left
  next_if_left-IsGood p r run f g =
      if_elim (IsGood {W = World}) (leb (length r.questions) p.resolved)
        (λ _. same-IsGood (reject-core p _ _ _ r) g) (λ _. serve-IsGood p r run f g)

  next_after_settling-IsGood :
      (id : String) (settled : Bool × Room World)
      → Keeps d settled
      → IsGood (next_after_settling d id settled)
  unfolding next_after_settling
  next_after_settling-IsGood id (free, r) g =
      maybe_elim (IsGood {W = World}) (find id r.players) (λ _. g)
        (λ p e.
          if_elim (IsGood {W = World}) free
            (λ _.
              if_elim (IsGood {W = World}) (is_running r.status)
                (λ run. next_if_left-IsGood p r run (find_self id r.players p e) g) (λ _. g))
            (λ _. same-IsGood (reject-core p _ _ _ r) g))

  pub next_question-IsGood :
      (id : String) (r : Room World) → IsGood r → IsGood (next_question d id r)
  unfolding next_question next_question_of
  next_question-IsGood id r g =
      maybe_elim (IsGood {W = World}) (find id r.players) (λ _. g)
        (λ p e.
          if_elim (IsGood {W = World}) (is_running r.status)
            (λ run.
              next_after_settling-IsGood p.info.id (settle_expired d p r)
                (settle_expired-Keeps d p r (find_self id r.players p e) g.0 g.1))
            (λ _. same-IsGood (reject-core p _ _ _ r) g))

  answer_active-IsGood :
      (p : PlayerState) (a : ActiveQuestion) (chosen : Option String) (r : Room World)
      → is_running r.status ≡ true
      → find p.info.id r.players ≡ some p
      → p.active ≡ some a
      → IsGood r
      → IsGood (answer_active d p a chosen r)
  unfolding answer_active outcome_of
  answer_active-IsGood p a chosen r run f e g =
      if_elim (IsGood {W = World}) (invalid_option a chosen)
        (λ _. same-IsGood (reject-core p _ _ _ r) g)
        (λ _.
          resolve-Keeps d p a (outcome_at d r p a chosen (d.clock r.world).0) true
            (record r { world = (d.clock r.world).1 }) run f e
            (outcome_at-IsBounded d r p a chosen (d.clock r.world).0 limited) g.0 g.1)
    where
      limited : a.limit ≤ max_question_ms * millisecond
      limited =
          (active-lt r.questions p a
            (find-All (IsSound r.questions) p.info.id r.players p f g.0.sound) e).1

  answer_running-IsGood :
      (p : PlayerState) (active : Option ActiveQuestion) (question_id : String)
      (chosen : Option String) (r : Room World)
      → is_running r.status ≡ true
      → find p.info.id r.players ≡ some p
      → p.active ≡ active
      → IsGood r
      → IsGood (answer_running d p active question_id chosen r)
  unfolding answer_running
  answer_running-IsGood p none question_id chosen r run f e g =
      same-IsGood (reject_unserved_answer-core p question_id r) g
  answer_running-IsGood p (some a) question_id chosen r run f e g =
      if_elim (IsGood {W = World}) (same a.question.id question_id)
        (λ _. answer_active-IsGood p a chosen r run f e g)
        (λ _. same-IsGood (reject_unserved_answer-core p question_id r) g)

  pub answer-IsGood :
      (id question_id : String) (chosen : Option String) (r : Room World)
      → IsGood r
      → IsGood (answer d id question_id chosen r)
  unfolding answer answer_of
  answer-IsGood id question_id chosen r g =
      maybe_elim (IsGood {W = World}) (find id r.players) (λ _. g)
        (λ p e.
          if_elim (IsGood {W = World}) (is_running r.status)
            (λ run.
              answer_running-IsGood p p.active question_id chosen r run (find_self id r.players p e)
                refl g)
            (λ _. same-IsGood (reject-core p _ _ _ r) g))
