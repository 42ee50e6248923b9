-- ===== src/Game/Invariant/Resolve.antt =====
-- The invariants through the resolution of a question.
use jejak_inderasakti_be.Shared.{
  get_elem?_lt, ◌≡◌, sym, subst, ◌∙◌, Bool, true, false, Option, none, some, if_elim, maybe_elim,
  ltb, leb, length, arith, if◌then◌else◌,
}
use jejak_inderasakti_be.Store.Types.{StoreError}
use jejak_inderasakti_be.Game.State.{
  PlayerState, Room, Deps, ActiveQuestion, deadline, find, put, set_player, is_running,
}
use jejak_inderasakti_be.Game.Board.{save_standing, mark_leaderboard_dirty}
use jejak_inderasakti_be.Game.Play.Options.{Outcome, timeout_outcome}
use jejak_inderasakti_be.Game.Play.Resolve.{
  advance, settle, resolve, resolve_with, settle_active, settle_expired, send_result,
}
use jejak_inderasakti_be.Game.Players.Find.{put-All, find-put_self, find-unfinished, find-All}
use jejak_inderasakti_be.Game.Players.Keys.{keys-put}
use jejak_inderasakti_be.Game.Invariant.Defs.{core, SameCore, IsSound, IsValid, IsLive}
use jejak_inderasakti_be.Game.Invariant.Frames.{
  save_standing-core, send_result-core, mark_leaderboard_dirty-core, reject_failed_save-core,
}
use jejak_inderasakti_be.Game.Invariant.Session.{
  end_if_all_finished-IsValid, end_if_all_finished-IsLive,
}
use jejak_inderasakti_be.Game.Invariant.Progress.{
  IsBounded, advance-IsSound, active-lt, timeout_outcome-IsBounded,
}

-- A new value for a player of a running room keeps the room valid.
pub set_player-IsValid :
    {W : Type 0} (p : PlayerState) (r : Room W)
    → is_running r.status ≡ true
    → IsSound r.questions p
    → IsValid (core r)
    → IsValid (core (set_player p r))
set_player-IsValid p r run s v = record {
  asked = v.asked;
  keyed = keys-put p r.players ∙ v.keyed;
  distinct = v.distinct;
  sound = put-All (IsSound r.questions) p r.players s v.sound;
  quiet = λ e. ground arith;
  fresh = λ e. ground arith;
}

module _ (d : Deps) where
  open d use {World}

  -- The room after the player's value, its standing, its result and the leaderboard.
  abbrev pub marked : PlayerState → ActiveQuestion → Outcome → Bool → Bool → Room World → Room World
  marked next a out announce finished r = mark_leaderboard_dirty d (
      if announce
      then send_result next a.question out finished (save_standing d next (set_player next r))
      else save_standing d next (set_player next r))

  pub marked-core :
      (next : PlayerState) (a : ActiveQuestion) (out : Outcome) (announce finished : Bool)
      (r : Room World)
      → SameCore (set_player next r) (marked next a out announce finished r)
  marked-core next a out announce finished r =
      mark_leaderboard_dirty-core d _
      ∙ if_elim (SameCore (set_player next r)) announce
          (λ _. send_result-core next a.question out finished _ ∙ save_standing-core d next _)
          (λ _. save_standing-core d next _)

  pub settle-IsValid :
      (next : PlayerState) (a : ActiveQuestion) (out : Outcome) (announce finished : Bool)
      (r : Room World)
      → IsValid (core (set_player next r))
      → IsValid (core (settle d next a out announce finished r))
  unfolding settle
  settle-IsValid next a out announce finished r v =
      let m = subst IsValid (sym (marked-core next a out announce finished r)) v in
      if_elim (λ (z : Room World). IsValid (core z)) finished
        (λ _. end_if_all_finished-IsValid d _ m) (λ _. m)

  pub settle-IsLive :
      (next q : PlayerState) (a : ActiveQuestion) (out : Outcome) (announce : Bool) (r : Room World)
      → find next.info.id r.players ≡ some q
      → IsLive (core (settle d next a out announce (leb (length r.questions) next.resolved) r))
  unfolding settle
  settle-IsLive next q a out announce r f =
      if_elim (λ (z : Room World). IsLive (core z)) (leb (length r.questions) next.resolved)
        (λ _. end_if_all_finished-IsLive d _)
        (λ e.
          subst IsLive
            (sym (marked-core next a out announce (leb (length r.questions) next.resolved) r))
            (unfinished e))
    where
      unfinished :
          leb (length r.questions) next.resolved ≡ false → IsLive (core (set_player next r))
      unfinished e = ground (
        arith,
        find-unfinished (length r.questions) next.info.id (put next r.players) next
            (find-put_self next q r.players f) (ground arith),
      )

  -- A property of the room in a result.
  abbrev pub Keeps : Bool × Room World → Type 0
  Keeps z = IsValid (core z.1) × IsLive (core z.1)

  module _ (p : PlayerState) (a : ActiveQuestion) (out : Outcome) (announce : Bool) where
    -- A stored result keeps the room valid and live; a result that is not stored leaves the core of
    -- the room alone.
    resolve_with-Keeps :
        (e : Option StoreError) (r : Room World)
        → is_running r.status ≡ true
        → find p.info.id r.players ≡ some p
        → p.active ≡ some a
        → IsBounded out
        → IsValid (core r)
        → IsLive (core r)
        → Keeps (resolve_with d e p a out announce r)
    unfolding resolve_with advance
    resolve_with-Keeps (some x) r run f ac b v l = (
      subst IsValid (sym (reject_failed_save-core p x r)) v,
      subst IsLive (sym (reject_failed_save-core p x r)) l,
    )
    resolve_with-Keeps none r run f ac b v l = (
      settle-IsValid next a out announce (leb (length r.questions) next.resolved) r
          (set_player-IsValid next r run sound v),
      settle-IsLive next p a out announce r f,
    )
      where
        next : PlayerState
        next = advance p out

        before : IsSound r.questions p
        before = find-All (IsSound r.questions) p.info.id r.players p f v.sound

        sound : IsSound r.questions (advance p out)
        sound =
            advance-IsSound r.questions p out before
              (get_elem?_lt r.questions p.resolved a.question
                (active-lt r.questions p a before ac).0)
              b

    pub resolve-Keeps :
        (r : Room World)
        → is_running r.status ≡ true
        → find p.info.id r.players ≡ some p
        → p.active ≡ some a
        → IsBounded out
        → IsValid (core r)
        → IsLive (core r)
        → Keeps (resolve d p a out announce r)
    unfolding resolve
    resolve-Keeps r run f ac b v l = resolve_with-Keeps _ (record r { world = _ }) run f ac b v l

  pub settle_expired-Keeps :
      (p : PlayerState) (r : Room World)
      → find p.info.id r.players ≡ some p
      → IsValid (core r)
      → IsLive (core r)
      → Keeps (settle_expired d p r)
  unfolding settle_expired settle_active
  settle_expired-Keeps p r f v l =
      maybe_elim Keeps p.active (λ _. (v, l))
        (λ a e.
          if_elim Keeps (is_running r.status)
            (λ run.
              if_elim Keeps (ltb (d.clock r.world).0 (deadline a)) (λ _. (v, l))
                (λ _.
                  resolve-Keeps p a (timeout_outcome a) false
                    (record r { world = (d.clock r.world).1 }) run f e
                    (timeout_outcome-IsBounded a
                      (active-lt r.questions p a
                        (find-All (IsSound r.questions) p.info.id r.players p f v.sound) e).1)
                    v l))
            (λ _. (v, l)))
