-- ===== src/Game/Protocol/Handlers.antt =====
-- The handlers of a room as steps of a session.
use jejak_inderasakti_be.Shared.{
  ◌≡◌, refl, ap, ◌∙◌, String, Bool, true, false, not, ◌&&◌, List, [], ◌∷◌, ◌++◌, map, Option, none,
  some, if_elim, maybe_elim, length, leb, same, get_elem?,
}
use jejak_inderasakti_be.Store.Types.{Player, StoreError}
use jejak_inderasakti_be.Game.State.{
  PlayerState, Room, Deps, Sink, ActiveQuestion, find, set_player, is_running, is_ended,
}
use jejak_inderasakti_be.Game.Play.Options.{outcome_of, outcome_at}
use jejak_inderasakti_be.Game.Play.Resolve.{settle_expired}
use jejak_inderasakti_be.Game.Play.Handlers.{
  invalid_option, serve_question, serve, next_if_left, next_after_settling, next_question_of,
  next_question, answer_active, answer_running, answer_of, answer,
}
use jejak_inderasakti_be.Game.Room.{
  RoomError, state_of, forget_sink, add_player, add_player_and_notify, attach_host, detach,
  attach_settled, unplug, attach_player, kick_deleted, kick, leaderboard_timer,
}
use jejak_inderasakti_be.Game.Players.Find.{find_self, find-put_self}
use jejak_inderasakti_be.Game.Invariant.Defs.{core, IsGood}
use jejak_inderasakti_be.Game.Invariant.Frames.{
  reject-core, reject_unserved_answer-core, send_question-core, send_leaderboard-core,
}
use jejak_inderasakti_be.Game.Invariant.Connections.{
  IsNew, notify_host-core, resume_active-core, removed-core, plug-IsGood,
}
use jejak_inderasakti_be.Game.Protocol.{Step, here, view, entry_of, new_entry}
use jejak_inderasakti_be.Game.Protocol.Entries.{
  entries-map, entries-find, entries-delete, entries-append, entries-none, entries-put_same,
}
use jejak_inderasakti_be.Game.Protocol.Moves.{
  Refines, Steps-trans, one_step, end_if_all_finished-Refines, resolve-Refines,
  settle_expired-Refines, asked_lt, not_ended, outcome_at-IsEarned,
}

-- The view of other players in a room that is otherwise the same.
pub with_players :
    {W : Type 0} (r : Room W) (ps : List PlayerState)
    → map entry_of ps ≡ map entry_of r.players
    → view (core (record r { players = ps })) ≡ view (core r)
with_players r ps e =
    ap (λ es. record { total = length r.questions; status = r.status; entries = es }) e

state_of-new : (p : Player) → IsNew p → entry_of (state_of p) ≡ new_entry p.id
unfolding state_of
state_of-new p n = cc

module _ {W : Type 0} where
  plug-view :
      (p q : PlayerState) (r : Room W)
      → find q.info.id r.players ≡ some p
      → entry_of q ≡ entry_of p
      → view (core (set_player q r)) ≡ view (core r)
  plug-view p q r f e = with_players r _ (entries-put_same p q r.players f e)

  pub detach-Refines : (s : Sink) (r : Room W) → Refines r (detach s r)
  unfolding detach
  detach-Refines s r = here (with_players r _ (entries-map (forget_sink s) r.players (λ p. refl)))

  pub attach_host-Refines :
      (host_id : String) (s : Sink) (r : Room W) → Refines r (attach_host host_id s r).1
  unfolding attach_host
  attach_host-Refines host_id s r =
      if_elim (λ (z : Option RoomError × Room W). Refines r z.1) (same host_id r.host_id)
        (λ _. here refl) (λ _. here refl)

  add_player-Refines :
      (p : Player) (r : Room W) → is_ended r.status ≡ false → IsNew p → Refines r (add_player p r)
  unfolding add_player
  add_player-Refines p r o n =
      maybe_elim (Refines r) (find p.id r.players)
        (λ e. one_step (
          Step.join p.id (not_ended r.status o) (entries-none p.id r.players e) (
            ap (λ es. record { total = length r.questions; status = r.status; entries = es })
              (entries-append r.players (state_of p ∷ [])
                ∙ ap (λ x. map entry_of r.players ++ x ∷ []) (state_of-new p n)))))
        (λ _ _. here refl)

  pub add_player_and_notify-Refines :
      (p : Player) (r : Room W)
      → is_ended r.status ≡ false
      → IsNew p
      → Refines r (add_player_and_notify p r)
  unfolding add_player_and_notify
  add_player_and_notify-Refines p r o n =
      Steps-trans (add_player-Refines p r o n)
        (here (ap view (notify_host-core _ (add_player p r).host (add_player p r))))

module _ (d : Deps) where
  open d use {World}

  attach_settled-Refines :
      (id : String) (s : Sink) (r : Room World) → Refines r (attach_settled d id s r)
  unfolding attach_settled
  attach_settled-Refines id s r =
      maybe_elim (Refines r) (find id r.players) (λ _. here refl)
        (λ p f.
          if_elim (Refines r) (is_ended r.status) (λ _. here refl)
            (λ _. here (
              ap view (resume_active-core d _ _)
              ∙ plug-view p (record p { sink = some s }) r (find_self id r.players p f) refl)))

  attach_found-Refines :
      (id : String) (s : Sink) (p : PlayerState) (r : Room World)
      → find p.info.id r.players ≡ some p
      → IsGood r
      → Refines r
          (attach_settled d id s (settle_expired d (record p { sink = none }) (unplug d p r)).1)
  unfolding unplug
  attach_found-Refines id s p r f g =
      Steps-trans
        (Steps-trans (here (plug-view p (record p { sink = none }) r f refl)) (
          settle_expired-Refines d (record p { sink = none }) _
            (find-put_self (record p { sink = none }) p r.players f)
            (plug-IsGood p none r f (λ _. refl) g).0))
        (attach_settled-Refines id s _)

  pub attach_player-Refines :
      (id : String) (s : Sink) (r : Room World) → IsGood r → Refines r (attach_player d id s r).1
  unfolding attach_player
  attach_player-Refines id s r g =
      maybe_elim (λ (z : Option RoomError × Room World). Refines r z.1) (find id r.players)
        (λ _. here refl) (λ p f. attach_found-Refines id s p r (find_self id r.players p f) g)

  kick_deleted-Refines :
      (p : PlayerState) (e : Option StoreError) (r : Room World)
      → is_ended r.status ≡ false
      → find p.info.id r.players ≡ some p
      → Refines r (kick_deleted d p e r)
  unfolding kick_deleted
  kick_deleted-Refines p (some e) r o f = here refl
  kick_deleted-Refines p none r o f =
      Steps-trans
        (one_step (
          Step.leave (entry_of p) (not_ended r.status o) (entries-find p.info.id r.players p f) (
            ap view (removed-core d p r)
            ∙ ap (λ es. record { total = length r.questions; status = r.status; entries = es })
                (entries-delete p.info.id r.players))))
        (end_if_all_finished-Refines d _)

  pub kick-Refines :
      (id : String) (r : Room World) → is_ended r.status ≡ false → Refines r (kick d id r)
  unfolding kick
  kick-Refines id r o =
      maybe_elim (Refines r) (find id r.players) (λ _. here refl)
        (λ p f. kick_deleted-Refines p _ (record r { world = _ }) o (find_self id r.players p f))

  pub leaderboard_timer-Refines : (r : Room World) → Refines r (leaderboard_timer d r)
  unfolding leaderboard_timer
  leaderboard_timer-Refines r =
      if_elim (Refines r) (r.lb_dirty && not (is_ended r.status))
        (λ _. here (ap view (send_leaderboard-core d (record r { lb_waiting = false }))))
        (λ _. here refl)

  serve-Refines :
      (p : PlayerState) (r : Room World)
      → find p.info.id r.players ≡ some p
      → Refines r (serve d p r)
  unfolding serve serve_question
  serve-Refines p r f =
      maybe_elim (Refines r) (get_elem? r.questions p.resolved) (λ _. here refl)
        (λ q e. here (ap view (send_question-core _ _ _ _) ∙ plug-view p _ r f refl))

  next_if_left-Refines :
      (p : PlayerState) (r : Room World)
      → find p.info.id r.players ≡ some p
      → Refines r (next_if_left d p r)
  unfolding next_if_left
  next_if_left-Refines p r f =
      if_elim (Refines r) (leb (length r.questions) p.resolved)
        (λ _. here (ap view (reject-core p _ _ _ r))) (λ _. serve-Refines p r f)

  next_after_settling-Refines :
      (id : String) (settled : Bool × Room World)
      → Refines settled.1 (next_after_settling d id settled)
  unfolding next_after_settling
  next_after_settling-Refines id (free, r) =
      maybe_elim (Refines r) (find id r.players) (λ _. here refl)
        (λ p e.
          if_elim (Refines r) free
            (λ _.
              if_elim (Refines r) (is_running r.status)
                (λ _. next_if_left-Refines p r (find_self id r.players p e)) (λ _. here refl))
            (λ _. here (ap view (reject-core p _ _ _ r))))

  pub next_question-Refines :
      (id : String) (r : Room World) → IsGood r → Refines r (next_question d id r)
  unfolding next_question next_question_of
  next_question-Refines id r g =
      maybe_elim (Refines r) (find id r.players) (λ _. here refl)
        (λ p e.
          if_elim (Refines r) (is_running r.status)
            (λ _.
              Steps-trans (settle_expired-Refines d p r (find_self id r.players p e) g.0)
                (next_after_settling-Refines p.info.id (settle_expired d p r)))
            (λ _. here (ap view (reject-core p _ _ _ r))))

  answer_active-Refines :
      (p : PlayerState) (a : ActiveQuestion) (chosen : Option String) (r : Room World)
      → is_running r.status ≡ true
      → find p.info.id r.players ≡ some p
      → p.active ≡ some a
      → IsGood r
      → Refines r (answer_active d p a chosen r)
  unfolding answer_active outcome_of
  answer_active-Refines p a chosen r run f e g =
      if_elim (Refines r) (invalid_option a chosen) (λ _. here (ap view (reject-core p _ _ _ r)))
        (λ _.
          resolve-Refines d p a (outcome_at d r p a chosen (d.clock r.world).0) true
            (record r { world = (d.clock r.world).1 }) run f (asked_lt d p a r f e g.0)
            (outcome_at-IsEarned d r p a chosen (d.clock r.world).0))

  answer_running-Refines :
      (p : PlayerState) (active : Option ActiveQuestion) (question_id : String)
      (chosen : Option String) (r : Room World)
      → is_running r.status ≡ true
      → find p.info.id r.players ≡ some p
      → p.active ≡ active
      → IsGood r
      → Refines r (answer_running d p active question_id chosen r)
  unfolding answer_running
  answer_running-Refines p none question_id chosen r run f e g =
      here (ap view (reject_unserved_answer-core p question_id r))
  answer_running-Refines p (some a) question_id chosen r run f e g =
      if_elim (Refines r) (same a.question.id question_id)
        (λ _. answer_active-Refines p a chosen r run f e g)
        (λ _. here (ap view (reject_unserved_answer-core p question_id r)))

  pub answer-Refines :
      (id question_id : String) (chosen : Option String) (r : Room World)
      → IsGood r
      → Refines r (answer d id question_id chosen r)
  unfolding answer answer_of
  answer-Refines id question_id chosen r g =
      maybe_elim (Refines r) (find id r.players) (λ _. here refl)
        (λ p e.
          if_elim (Refines r) (is_running r.status)
            (λ run.
              answer_running-Refines p p.active question_id chosen r run
                (find_self id r.players p e) refl g)
            (λ _. here (ap view (reject-core p _ _ _ r))))
