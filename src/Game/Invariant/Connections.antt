-- ===== src/Game/Invariant/Connections.antt =====
-- The invariants through arrivals, departures and connections.
use jejak_inderasakti_be.Shared.{
  same, ◌≡◌, refl, sym, subst, ap, ◌∙◌, String, true, false, not, ◌&&◌, map, Option, none, some,
  if_elim, maybe_elim, length, arith, if◌then◌else◌, pos,
}
use jejak_inderasakti_be.Store.Types.{Player, StoreError}
use jejak_inderasakti_be.Game.State.{
  Message, PlayerState, Room, Deps, Sink, find, delete, remove_id, set_player, is_running, is_ended,
}
use jejak_inderasakti_be.Game.Board.{mark_leaderboard_dirty, forget_standing}
use jejak_inderasakti_be.Game.Play.Resolve.{settle_expired}
use jejak_inderasakti_be.Game.Room.{
  RoomError, state_of, holds, forget_sink, add_player, notify_host, add_player_and_notify,
  attach_host, detach, resume_active, attach_settled, unplug, attach_player, notify_kicked,
  kick_deleted, kick, leaderboard_timer,
}
use jejak_inderasakti_be.Game.Players.Find.{
  find-All, find_self, put-All, delete-All, map-All, find-put_self, all_finished-put, is_empty-put,
  all_finished-map, is_empty-map, all_finished-append,
}
use jejak_inderasakti_be.Game.Players.Keys.{keys-put, keys-delete, keys-map, remove_id-Distinct}
use jejak_inderasakti_be.Game.Invariant.Defs.{
  core, SameCore, IsSound, IsValid, IsLive, IsGood, same-IsGood,
}
use jejak_inderasakti_be.Game.Invariant.Frames.{
  send_question-core, forget_standing-core, mark_leaderboard_dirty-core, send_leaderboard-core,
}
use jejak_inderasakti_be.Game.Invariant.Session.{
  end_if_all_finished-IsValid, end_if_all_finished-IsLive,
}
use jejak_inderasakti_be.Game.Invariant.Restored.{add_player-IsValid}
use jejak_inderasakti_be.Game.Invariant.Resolve.{settle_expired-Keeps}

-- A player that has just joined has no progress.
pub record IsNew (p : Player) : Type 0 where
  pub no_score : p.score ≡ 0
  pub no_correct : p.correct_count ≡ 0
  pub no_time : p.total_ms ≡ pos 0
  pub no_index : p.current_index ≡ 0
  pub no_streak : p.streak ≡ 0

module _ {W : Type 0} where
  -- Another connection of a player changes nothing else.
  pub plug-IsGood :
      (p : PlayerState) (s : Option Sink) (r : Room W)
      → find p.info.id r.players ≡ some p
      → (is_ended r.status ≡ true → s ≡ none)
      → IsGood r
      → IsGood (set_player (record p { sink = s }) r)
  plug-IsGood p s r f e g = (
    record {
      asked = g.0.asked;
      keyed = keys-put _ r.players ∙ g.0.keyed;
      distinct = g.0.distinct;
      sound = put-All (IsSound r.questions) _ r.players sound g.0.sound;
      quiet =
          λ h. ((g.0.quiet h).0, put-All (λ q. q.sink ≡ none) _ r.players (e h) (g.0.quiet h).1);
      fresh = λ h.
          put-All (λ q. q.resolved ≡ 0) _ r.players
            (find-All (λ q. q.resolved ≡ 0) p.info.id r.players p f (g.0.fresh h)) (g.0.fresh h);
    },
    live,
  )
    where
      sound : IsSound r.questions (record p { sink = s })
      sound = ground (arith, find-All (IsSound r.questions) p.info.id r.players p f g.0.sound)

      live : IsLive (core (set_player (record p { sink = s }) r))
      live =
          rw
            (
              all_finished-put (length r.questions) p (record p { sink = s }) r.players f refl,
              is_empty-put (record p { sink = s }) r.players,
            )
            g.1

  -- A change of every player's connection changes nothing else.
  map-IsGood :
      (h : PlayerState → PlayerState) (host : Option Sink) (r : Room W)
      → ((p : PlayerState) → (h p).info.id ≡ p.info.id)
      → ((p : PlayerState) → (h p).resolved ≡ p.resolved)
      → ((p : PlayerState) → IsSound r.questions p → IsSound r.questions (h p))
      → ((p : PlayerState) → p.sink ≡ none → (h p).sink ≡ none)
      → (r.host ≡ none → host ≡ none)
      → IsGood r
      → IsGood (record r { players = map h r.players; host = host })
  map-IsGood h host r k n s e o g = (
    record {
      asked = g.0.asked;
      keyed = keys-map h r.players k ∙ g.0.keyed;
      distinct = g.0.distinct;
      sound = map-All (IsSound r.questions) h r.players s g.0.sound;
      quiet = λ q. (o (g.0.quiet q).0, map-All (λ p. p.sink ≡ none) h r.players e (g.0.quiet q).1);
      fresh = λ q. map-All (λ p. p.resolved ≡ 0) h r.players (λ p z. n p ∙ z) (g.0.fresh q);
    },
    rw (all_finished-map (length r.questions) h r.players n, is_empty-map h r.players) g.1,
  )

  pub detach-IsGood : (s : Sink) (r : Room W) → IsGood r → IsGood (detach s r)
  unfolding detach
  detach-IsGood s r g =
      map-IsGood (forget_sink s) (if holds r.host s then none else r.host) r (λ p. refl) (λ p. refl)
        (λ p z. ground arith) (λ p z. ground arith) (λ z. ground arith) g

  add_player-IsGood : (p : Player) (r : Room W) → IsNew p → IsGood r → IsGood (add_player p r)
  unfolding add_player state_of
  add_player-IsGood p r n g = (
    add_player-IsValid p r (ground arith) (λ _. n.no_index) g.0,
    maybe_elim (λ (z : Room W). IsLive (core z)) (find p.id r.players)
        (λ _. ground (arith, all_finished-append (length r.questions) (state_of p) r.players))
        (λ _ _. g.1),
  )

  pub notify_host-core :
      (m : Message) (s : Option Sink) (r : Room W) → SameCore r (notify_host m s r)
  unfolding notify_host
  notify_host-core m none r = refl
  notify_host-core m (some s) r = refl

  pub add_player_and_notify-IsGood :
      (p : Player) (r : Room W) → IsNew p → IsGood r → IsGood (add_player_and_notify p r)
  unfolding add_player_and_notify
  add_player_and_notify-IsGood p r n g =
      same-IsGood (notify_host-core _ (add_player p r).host (add_player p r))
        (add_player-IsGood p r n g)

  pub attach_host-IsGood :
      (host_id : String) (s : Sink) (r : Room W)
      → is_ended r.status ≡ false
      → IsGood r
      → IsGood (attach_host host_id s r).1
  unfolding attach_host
  attach_host-IsGood host_id s r e g =
      if_elim (λ (z : Option RoomError × Room W). IsGood z.1) (same host_id r.host_id)
        (λ _. (
          record {
            asked = g.0.asked;
            keyed = g.0.keyed;
            distinct = g.0.distinct;
            sound = g.0.sound;
            quiet = λ h. cc;
            fresh = g.0.fresh;
          },
          g.1,
        ))
        (λ _. g)

module _ (d : Deps) where
  open d use {World}

  pub resume_active-core : (p : PlayerState) (r : Room World) → SameCore r (resume_active d p r)
  unfolding resume_active
  resume_active-core p r =
      maybe_elim (SameCore r) p.active (λ _. refl)
        (λ a _.
          if_elim (SameCore r) (is_running r.status) (λ _. send_question-core p a _ _) (λ _. refl))

  attach_settled-IsGood :
      (id : String) (s : Sink) (r : Room World) → IsGood r → IsGood (attach_settled d id s r)
  unfolding attach_settled
  attach_settled-IsGood id s r g =
      maybe_elim (IsGood {W = World}) (find id r.players) (λ _. g)
        (λ p f.
          if_elim (IsGood {W = World}) (is_ended r.status) (λ _. g)
            (λ e.
              same-IsGood (resume_active-core _ _)
                (plug-IsGood p (some s) r (find_self id r.players p f) (λ h. cc) g)))

  attach_found-IsGood :
      (id : String) (s : Sink) (p : PlayerState) (r : Room World)
      → find p.info.id r.players ≡ some p
      → IsGood r
      → IsGood
          (attach_settled d id s (settle_expired d (record p { sink = none }) (unplug d p r)).1)
  unfolding unplug
  attach_found-IsGood id s p r f g = attach_settled-IsGood id s _ (
      settle_expired-Keeps d (record p { sink = none }) _
        (find-put_self (record p { sink = none }) p r.players f) plugged.0 plugged.1)
    where
      plugged : IsGood (unplug d p r)
      plugged = plug-IsGood p none r f (λ _. refl) g

  pub attach_player-IsGood :
      (id : String) (s : Sink) (r : Room World) → IsGood r → IsGood (attach_player d id s r).1
  unfolding attach_player
  attach_player-IsGood id s r g =
      maybe_elim (λ (z : Option RoomError × Room World). IsGood z.1) (find id r.players) (λ _. g)
        (λ p f. attach_found-IsGood id s p r (find_self id r.players p f) g)

  notify_kicked-core : (s : Option Sink) (r : Room World) → SameCore r (notify_kicked d s r)
  unfolding notify_kicked
  notify_kicked-core none r = refl
  notify_kicked-core (some s) r = refl

  abbrev pub removed : String → Room World → Room World
  removed id r = record r { players = delete id r.players; order = remove_id r.order id }

  delete-IsValid : (id : String) (r : Room World) → IsValid (core r) → IsValid (core (removed id r))
  delete-IsValid id r v = record {
    asked = v.asked;
    keyed = keys-delete id r.players ∙ ap (λ ks. remove_id ks id) v.keyed;
    distinct = remove_id-Distinct r.order id v.distinct;
    sound = delete-All (IsSound r.questions) id r.players v.sound;
    quiet = λ h. ((v.quiet h).0, delete-All (λ p. p.sink ≡ none) id r.players (v.quiet h).1);
    fresh = λ h. delete-All (λ p. p.resolved ≡ 0) id r.players (v.fresh h);
  }

  -- What follows the removal changes nothing else.
  pub removed-core :
      (p : PlayerState) (r : Room World)
      → SameCore (removed p.info.id r) (
          mark_leaderboard_dirty d
            (notify_kicked d p.sink (forget_standing d p.info.id (removed p.info.id r))))
  removed-core p r =
      mark_leaderboard_dirty-core d _
      ∙ notify_kicked-core p.sink _
      ∙ forget_standing-core d p.info.id _

  kick_deleted-IsGood :
      (p : PlayerState) (e : Option StoreError) (r : Room World)
      → IsGood r
      → IsGood (kick_deleted d p e r)
  unfolding kick_deleted
  kick_deleted-IsGood p (some e) r g = g
  kick_deleted-IsGood p none r g = (
    end_if_all_finished-IsValid d _
        (subst IsValid (sym (removed-core p r)) (delete-IsValid p.info.id r g.0)),
    end_if_all_finished-IsLive d _,
  )

  pub kick-IsGood : (id : String) (r : Room World) → IsGood r → IsGood (kick d id r)
  unfolding kick
  kick-IsGood id r g =
      maybe_elim (IsGood {W = World}) (find id r.players) (λ _. g)
        (λ p f. kick_deleted-IsGood p _ (record r { world = _ }) g)

  pub leaderboard_timer-IsGood : (r : Room World) → IsGood r → IsGood (leaderboard_timer d r)
  unfolding leaderboard_timer
  leaderboard_timer-IsGood r g =
      if_elim (IsGood {W = World}) (r.lb_dirty && not (is_ended r.status))
        (λ _. same-IsGood (send_leaderboard-core d (record r { lb_waiting = false })) g) (λ _. g)
