-- ===== src/Game/Effects/Resolved.antt =====
-- A resolved question: the player's totals move on by the outcome if the store keeps the result, and
-- nothing moves if it does not.
use jejak_inderasakti_be.Shared.{
  ◌≡◌, ◌≢◌, refl, ap, ◌∙◌, String, Bool, true, false, List, [], ◌∷◌, map, Option, none, some,
  if_elim, leb, length, arith,
}
use mathlib.Core.Option
use jejak_inderasakti_be.Store.Types.{StoreError}
use jejak_inderasakti_be.Game.State.{
  PlayerState, Room, Deps, ActiveQuestion, find, set_player, is_ended,
}
use jejak_inderasakti_be.Game.Board.{broadcast}
use jejak_inderasakti_be.Game.Session.{drop_sink, close_all, end_session, end_if_all_finished}
use jejak_inderasakti_be.Game.Play.Options.{Outcome}
use jejak_inderasakti_be.Game.Play.Resolve.{advance, result_of, settle, resolve, resolve_with}
use jejak_inderasakti_be.Game.Players.Find.{find-put_self, find-put_ne}
use jejak_inderasakti_be.Game.Invariant.Defs.{core, SameCore, is_overdue}
use jejak_inderasakti_be.Game.Invariant.Frames.{reject_failed_save-core}
use jejak_inderasakti_be.Game.Invariant.Resolve.{marked, marked-core}

-- The progress of a player: its state without the connection.
abbrev pub progress : PlayerState → PlayerState
progress = drop_sink

-- The progress of the player with an id.
abbrev pub progress_of : {W : Type 0} → String → Room W → Option PlayerState
progress_of id r = Option.map progress (find id r.players)

pub find-map_drop :
    (id : String) (ps : List PlayerState)
    → Option.map progress (find id (map drop_sink ps)) ≡ Option.map progress (find id ps)
unfolding find
find-map_drop id [] = refl
find-map_drop id (p ∷ ps) = ground (arith, find-map_drop id ps)

module _ (d : Deps) where
  open d use {World}

  -- The end of a session leaves the progress of every player.
  pub end_session-progress_of :
      (id : String) (r : Room World) → progress_of id (end_session d r) ≡ progress_of id r
  unfolding end_session close_all broadcast
  end_session-progress_of id r =
      if_elim (λ (z : Room World). progress_of id z ≡ progress_of id r) (is_ended r.status)
        (λ _. refl) (λ _. find-map_drop id r.players)

  pub end_if_all_finished-progress_of :
      (id : String) (r : Room World) → progress_of id (end_if_all_finished d r) ≡ progress_of id r
  unfolding end_if_all_finished
  end_if_all_finished-progress_of id r =
      if_elim (λ (z : Room World). progress_of id z ≡ progress_of id r) (is_overdue (core r))
        (λ _. end_session-progress_of id r) (λ _. refl)

  module _ (next : PlayerState) (a : ActiveQuestion) (out : Outcome) where
    pub settle-progress_of :
        (id : String) (announce finished : Bool) (r : Room World)
        → progress_of id (settle d next a out announce finished r)
          ≡ progress_of id (set_player next r)
    unfolding settle
    settle-progress_of id announce finished r =
        if_elim (λ (z : Room World). progress_of id z ≡ progress_of id (set_player next r)) finished
          (λ _. end_if_all_finished-progress_of id _ ∙ unchanged) (λ _. unchanged)
      where
        unchanged :
            progress_of id (marked d next a out announce finished r)
            ≡ progress_of id (set_player next r)
        unchanged =
            ap (λ c. Option.map progress (find id c.players))
              (marked-core d next a out announce finished r)

  -- Whether the store keeps the result of an outcome.
  abbrev pub saved : PlayerState → ActiveQuestion → Outcome → Room World → Option StoreError
  saved p a out r =
      (d.save_result
        (result_of p a out (advance p out) (leb (length r.questions) (advance p out).resolved))
        r.world).0

  module _ (p : PlayerState) (a : ActiveQuestion) (out : Outcome) (announce : Bool)
      (r : Room World) where
    with_answer :
        (e : Option StoreError) (w : World)
        → find p.info.id r.players ≡ some p
        → ((e ≡ none)
            → ((resolve_with d e p a out announce (record r { world = w })).0 ≡ true)
              × (progress_of p.info.id
                    (resolve_with d e p a out announce (record r { world = w })).1
                  ≡ some (progress (advance p out)))
              × ((id : String)
                  → id ≢ p.info.id
                  → progress_of id (resolve_with d e p a out announce (record r { world = w })).1
                    ≡ progress_of id r))
          × (e ≢ none
              → ((resolve_with d e p a out announce (record r { world = w })).0 ≡ false)
                × SameCore r (resolve_with d e p a out announce (record r { world = w })).1)
    unfolding resolve_with advance
    with_answer none w f = (
      (λ _. (
        refl,
        settle-progress_of _ a out p.info.id announce _ (record r { world = w })
            ∙ ap (Option.map progress) (find-put_self (advance p out) p r.players f),
        (λ id n.
            settle-progress_of _ a out id announce _ (record r { world = w })
            ∙ ap (Option.map progress) (find-put_ne id (advance p out) r.players n)),
      )),
      (λ n. absurd (n refl)),
    )
    with_answer (some x) w f =
        ((λ e. cc), (λ _. (refl, reject_failed_save-core p x (record r { world = w }))))

    -- If the store keeps the result, the player's progress advances by the outcome and no other
    -- player's progress changes. If it does not, the status, the players, their order and the host's
    -- connection stay as they were, and the caller is told so.
    pub resolve_lem :
        find p.info.id r.players ≡ some p
        → (saved p a out r ≡ none
            → ((resolve d p a out announce r).0 ≡ true)
              × (progress_of p.info.id (resolve d p a out announce r).1
                  ≡ some (progress (advance p out)))
              × ((id : String)
                  → id ≢ p.info.id
                  → progress_of id (resolve d p a out announce r).1 ≡ progress_of id r))
          × (saved p a out r ≢ none
              → ((resolve d p a out announce r).0 ≡ false)
                × SameCore r (resolve d p a out announce r).1)
    unfolding resolve
    resolve_lem f = with_answer (saved p a out r) _ f
