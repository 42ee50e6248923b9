-- ===== src/Game/Invariant/Frames.antt =====
-- The operations that leave the core of a room alone.
use jejak_inderasakti_be.Shared.{
  if_elim, maybe_elim, ℕ, ◌≡◌, refl, String, Bool, true, List, [], ◌∷◌, Option,
}
use jejak_inderasakti_be.Store.Types.{Fallible, ok, err, Question, StoreError, duplicate_answer}
use jejak_inderasakti_be.Rank.{Standing}
use jejak_inderasakti_be.Game.State.{
  PlayerState, Room, Deps, Message, ActiveQuestion, send_to, reject, error_message,
}
use jejak_inderasakti_be.Game.Board.{
  save_standings, save_standing, restore_board, forget_standing, accept_order, ranked_ids,
  send_leaderboard, mark_leaderboard_dirty, broadcast, standing_of, standings, covers_all_players,
  update_due,
}
use jejak_inderasakti_be.Game.Play.Options.{Outcome, outcome_of}
use jejak_inderasakti_be.Game.Play.Resolve.{send_question, send_result, reject_failed_save}
use jejak_inderasakti_be.Game.Play.Handlers.{reject_unserved_answer, was_resolved}
use jejak_inderasakti_be.Game.Invariant.Defs.{core, SameCore, SameCoreOf}

module _ {W : Type 0} where
  pub send_to-core : (p : PlayerState) (m : Message) (r : Room W) → core (send_to p m r) ≡ core r
  unfolding send_to
  send_to-core p m r = maybe_elim (SameCore r) p.sink (λ _. refl) (λ s _. refl)

  pub reject-core :
      (p : PlayerState) (ref code message : String) (r : Room W)
      → core (reject p ref code message r) ≡ core r
  unfolding reject
  reject-core p ref code message r = send_to-core p (error_message code message ref) r

  pub send_question-core :
      (p : PlayerState) (a : ActiveQuestion) (now : ℕ) (r : Room W)
      → core (send_question p a now r) ≡ core r
  unfolding send_question
  send_question-core p a now r = send_to-core p _ r

  pub send_result-core :
      (p : PlayerState) (q : Question) (out : Outcome) (finished : Bool) (r : Room W)
      → core (send_result p q out finished r) ≡ core r
  unfolding send_result
  send_result-core p q out finished r = send_to-core p _ r

  pub reject_failed_save-core :
      (p : PlayerState) (e : StoreError) (r : Room W) → core (reject_failed_save p e r) ≡ core r
  unfolding reject_failed_save
  reject_failed_save-core p duplicate_answer r = reject-core p _ _ _ r
  reject_failed_save-core p _ r = reject-core p _ _ _ r

  pub reject_unserved_answer-core :
      (p : PlayerState) (question_id : String) (r : Room W)
      → core (reject_unserved_answer p question_id r) ≡ core r
  unfolding reject_unserved_answer
  reject_unserved_answer-core p question_id r =
      if_elim (SameCore r) (was_resolved r p question_id) (λ _. reject-core p _ _ _ r)
        (λ _. reject-core p _ _ _ r)

module _ (d : Deps) where
  open d use {World}

  pub save_standings-core :
      (ss : List Standing) (r : Room World) → core (save_standings d ss r) ≡ core r
  unfolding save_standings
  save_standings-core ss r = if_elim (SameCore r) d.has_board (λ _. refl) (λ _. refl)

  pub save_standing-core : (p : PlayerState) (r : Room World) → core (save_standing d p r) ≡ core r
  unfolding save_standing
  save_standing-core p r = save_standings-core (standing_of p ∷ []) r

  pub restore_board-core : (r : Room World) → core (restore_board d r) ≡ core r
  unfolding restore_board
  restore_board-core r = save_standings-core (standings r) r

  pub forget_standing-core : (id : String) (r : Room World) → core (forget_standing d id r) ≡ core r
  unfolding forget_standing
  forget_standing-core id r = if_elim (SameCore r) d.has_board (λ _. refl) (λ _. refl)

  pub accept_order-core :
      (a : Fallible (List String)) (r : Room World) → core (accept_order d a r).1 ≡ core r
  unfolding accept_order
  accept_order-core (ok ids) r =
      if_elim (SameCoreOf r) (covers_all_players r ids) (λ _. refl)
        (λ _. save_standings-core (standings r) r)
  accept_order-core (err e) r = save_standings-core (standings r) r

  pub ranked_ids-core : (r : Room World) → core (ranked_ids d r).1 ≡ core r
  unfolding ranked_ids
  ranked_ids-core r =
      if_elim (SameCoreOf r) d.has_board
        (λ _.
          accept_order-core (d.board_order r.id r.world).0
            (record r { world = (d.board_order r.id r.world).1 }))
        (λ _. refl)

  pub send_leaderboard-core : (r : Room World) → core (send_leaderboard d r) ≡ core r
  unfolding send_leaderboard broadcast
  send_leaderboard-core r = ranked_ids-core r

  pub mark_leaderboard_dirty-core : (r : Room World) → core (mark_leaderboard_dirty d r) ≡ core r
  unfolding mark_leaderboard_dirty
  mark_leaderboard_dirty-core r =
      if_elim (SameCore r) r.lb_waiting (λ _. refl)
        (λ _.
          if_elim (SameCore r) (update_due d r.lb_last (d.wall_clock r.world).0)
            (λ _.
              send_leaderboard-core
                (record r { lb_dirty = true; world = (d.wall_clock r.world).1 }))
            (λ _. refl))

  pub outcome_of-core :
      (r : Room World) (p : PlayerState) (a : ActiveQuestion) (chosen : Option String)
      → core (outcome_of d r p a chosen).1 ≡ core r
  unfolding outcome_of
  outcome_of-core r p a chosen = refl
