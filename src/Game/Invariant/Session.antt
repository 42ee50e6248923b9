-- ===== src/Game/Invariant/Session.antt =====
-- The invariants through the start and the end of a session.
use jejak_inderasakti_be.Shared.{
  ℕ, ◌≡◌, refl, ◌∙◌, Bool, true, false, ◌&&◌, not, List, [], ◌∷◌, map, none, if_elim, All, length,
  ◌<◌, arith,
}
use jejak_inderasakti_be.Store.Types.{Fallible, ok, err}
use jejak_inderasakti_be.Game.State.{PlayerState, Room, Deps, is_lobby, is_ended}
use jejak_inderasakti_be.Game.Board.{broadcast}
use jejak_inderasakti_be.Game.Session.{
  drop_sink, close_all, end_session, end_if_all_finished, start_session, started, all_finished,
  is_empty,
}
use jejak_inderasakti_be.Game.Players.Find.{map-All}
use jejak_inderasakti_be.Game.Players.Keys.{keys-map}
use jejak_inderasakti_be.Game.Invariant.Defs.{
  core, IsSound, IsValid, IsLive, IsDetached, is_overdue,
}

All-detached : (ps : List PlayerState) → All (λ p. p.sink ≡ none) (map drop_sink ps)
All-detached [] = tt
All-detached (p ∷ ps) = (refl, All-detached ps)

module _ {W : Type 0} where
  pub close_all-IsDetached : (r : Room W) → IsDetached (core (close_all r))
  unfolding close_all
  close_all-IsDetached r = (refl, All-detached r.players)

  pub close_all-IsValid : (r : Room W) → IsValid (core r) → IsValid (core (close_all r))
  unfolding close_all
  close_all-IsValid r v = record {
    asked = v.asked;
    keyed = keys-map drop_sink r.players (λ p. refl) ∙ v.keyed;
    distinct = v.distinct;
    sound = map-All (IsSound r.questions) drop_sink r.players (λ p s. ground arith) v.sound;
    quiet = λ _. (refl, All-detached r.players);
    fresh = λ l. map-All (λ p. p.resolved ≡ 0) drop_sink r.players (λ p s. s) (v.fresh l);
  }

module _ (d : Deps) where
  open d use {World}

  -- A room that is ended keeps its keys and the soundness of its players.
  pub end_session-IsValid : (r : Room World) → IsValid (core r) → IsValid (core (end_session d r))
  unfolding end_session broadcast close_all
  end_session-IsValid r v =
      if_elim (λ (z : Room World). IsValid (core z)) (is_ended r.status) (λ _. v)
        (λ _. record {
          asked = v.asked;
          keyed = keys-map drop_sink r.players (λ p. refl) ∙ v.keyed;
          distinct = v.distinct;
          sound = map-All (IsSound r.questions) drop_sink r.players (λ p s. ground arith) v.sound;
          quiet = λ _. (refl, All-detached r.players);
          fresh = λ l. cc;
        })

  pub end_session-ended : (r : Room World) → is_ended (end_session d r).status ≡ true
  unfolding end_session broadcast close_all
  end_session-ended r =
      if_elim (λ (z : Room World). is_ended z.status ≡ true) (is_ended r.status) (λ e. e)
        (λ _. refl)

  pub ended-IsLive : (r : Room World) → is_ended r.status ≡ true → IsLive (core r)
  ended-IsLive r e = ground arith

  pub end_if_all_finished-IsValid :
      (r : Room World) → IsValid (core r) → IsValid (core (end_if_all_finished d r))
  unfolding end_if_all_finished
  end_if_all_finished-IsValid r v =
      if_elim (λ (z : Room World). IsValid (core z)) (is_overdue (core r))
        (λ _. end_session-IsValid r v) (λ _. v)

  -- A session never goes on with all of its players finished.
  pub end_if_all_finished-IsLive : (r : Room World) → IsLive (core (end_if_all_finished d r))
  unfolding end_if_all_finished
  end_if_all_finished-IsLive r =
      if_elim (λ (z : Room World). IsLive (core z)) (is_overdue (core r))
        (λ _. ended-IsLive (end_session d r) (end_session-ended r)) (λ e. e)

  unplayed :
      (n : ℕ) (ps : List PlayerState)
      → 0 < n
      → All (λ p. p.resolved ≡ 0) ps
      → not (is_empty ps) && all_finished n ps ≡ false
  unfolding all_finished
  unplayed n [] h a = refl
  unplayed n (p ∷ ps) h a = ground arith

  started-IsValid :
      (a : Fallible Bool) (r : Room World)
      → is_ended r.status ≡ false
      → IsValid (core r)
      → IsValid (core (started d a r))
  unfolding started broadcast
  started-IsValid (ok true) r e v = record {
    asked = v.asked;
    keyed = v.keyed;
    distinct = v.distinct;
    sound = v.sound;
    quiet = λ h. cc;
    fresh = λ h. cc;
  }
  started-IsValid (ok false) r e v = v
  started-IsValid (err x) r e v = v

  pub start_session-IsValid :
      (r : Room World) → IsValid (core r) → IsValid (core (start_session d r))
  unfolding start_session
  start_session-IsValid r v =
      if_elim (λ (z : Room World). IsValid (core z)) (is_lobby r.status)
        (λ e.
          started-IsValid (d.mark_room_started r.id r.world).0
            (record r { world = (d.mark_room_started r.id r.world).1 }) (ground arith) v)
        (λ _. v)

  started-IsLive :
      (a : Fallible Bool) (r : Room World)
      → is_lobby r.status ≡ true
      → IsValid (core r)
      → IsLive (core (started d a r))
  unfolding started broadcast
  started-IsLive (ok true) r e v = unplayed (length r.questions) r.players v.asked (v.fresh e)
  started-IsLive (ok false) r e v = ground arith
  started-IsLive (err x) r e v = ground arith

  pub start_session-IsLive :
      (r : Room World) → IsValid (core r) → IsLive (core r) → IsLive (core (start_session d r))
  unfolding start_session
  start_session-IsLive r v l =
      if_elim (λ (z : Room World). IsLive (core z)) (is_lobby r.status)
        (λ e.
          started-IsLive (d.mark_room_started r.id r.world).0
            (record r { world = (d.mark_room_started r.id r.world).1 }) e v)
        (λ _. l)
