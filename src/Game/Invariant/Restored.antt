-- ===== src/Game/Invariant/Restored.antt =====
-- The invariants of a room that newRoom makes (api/internal/game/room.go).
use jejak_inderasakti_be.Shared.{
  String, map, same, arith, Distinct, ◌<◌, ◌≡◌, ◌≢◌, refl, sym, subst, ap, ◌∙◌, ℕ, true, List, [],
  ◌∷◌, ◌++◌, none, All, All-append, length, if_elim, maybe_elim,
}
use jejak_inderasakti_be.Store.Types.{RoomData, Player, Question}
use jejak_inderasakti_be.Game.State.{PlayerState, Room, Deps, find, is_lobby, is_running}
use jejak_inderasakti_be.Game.Room.{
  state_of, add_player, add_players, empty_room, arm_remaining, new_room,
}
use jejak_inderasakti_be.Game.Players.Keys.{keys, keys-append, append-Distinct, find-none}
use jejak_inderasakti_be.Game.Invariant.Defs.{core, IsSound, IsValid}
use jejak_inderasakti_be.Game.Invariant.Frames.{restore_board-core}

-- The stored totals of a player fit the questions of its room, and those of a room in the lobby are 0.
abbrev pub IsStored : RoomData → List Question → Player → Type 0
IsStored row questions p =
    IsSound questions (state_of p) × (is_lobby row.status ≡ true → p.current_index ≡ 0)

abbrev pub ids : List Player → List String
ids ps = map (λ p. p.id) ps

find-missing :
    (id : String) (ps : List PlayerState) → All (λ k. k ≢ id) (keys ps) → find id ps ≡ none
unfolding find
find-missing id [] h = refl
find-missing id (p ∷ ps) h =
    if_elim (λ z. z ≡ none) (same p.info.id id) (λ e. absurd (h.0 (ground (arith, e))))
      (λ _. find-missing id ps h.1)

-- Players whose keys are not taken, beside one more key that is none of theirs.
step-missing :
    (ks : List String) (id : String) (ps : List Player)
    → All (λ p. All (λ k. k ≢ p.id) ks) ps
    → All (λ k. id ≢ k) (ids ps)
    → All (λ p. All (λ k. k ≢ p.id) (ks ++ id ∷ [])) ps
step-missing ks id [] h n = tt
step-missing ks id (p ∷ ps) h n =
    (All-append (λ k. k ≢ p.id) ks (id ∷ []) h.0 (n.0, tt), step-missing ks id ps h.1 n.1)

append_nil : (ps : List PlayerState) → ps ++ [] ≡ ps
append_nil [] = refl
append_nil (p ∷ ps) = ap (λ z. p ∷ z) (append_nil ps)

append-step : (ps qs : List PlayerState) (p : PlayerState) → (ps ++ p ∷ []) ++ qs ≡ ps ++ p ∷ qs
append-step [] qs p = refl
append-step (x ∷ ps) qs p = ap (λ z. x ∷ z) (append-step ps qs p)

module _ {W : Type 0} where
  add_player-players :
      (p : Player) (r : Room W)
      → find p.id r.players ≡ none
      → ((add_player p r).players ≡ r.players ++ state_of p ∷ []) × ((add_player p r).host ≡ r.host)
  unfolding add_player
  add_player-players p r e = rw e (refl, refl)

  pub add_player-IsValid :
      (p : Player) (r : Room W)
      → IsSound r.questions (state_of p)
      → (is_lobby r.status ≡ true → p.current_index ≡ 0)
      → IsValid (core r)
      → IsValid (core (add_player p r))
  unfolding add_player state_of
  add_player-IsValid p r s n g =
      maybe_elim (λ (z : Room W). IsValid (core z)) (find p.id r.players)
        (λ e. record {
          asked = g.asked;
          keyed = keys-append r.players (state_of p ∷ []) ∙ ap (λ ks. ks ++ p.id ∷ []) g.keyed;
          distinct =
              append-Distinct r.order p.id g.distinct
                (subst (All (λ k. k ≢ p.id)) g.keyed (find-none p.id r.players e));
          sound = All-append (IsSound r.questions) r.players _ g.sound (s, tt);
          quiet = λ h.
              ((g.quiet h).0, All-append (λ z. z.sink ≡ none) r.players _ (g.quiet h).1 (refl, tt));
          fresh = λ h. All-append (λ z. z.resolved ≡ 0) r.players _ (g.fresh h) (n h, tt);
        })
        (λ _ _. g)

  add_player-fields :
      (p : Player) (r : Room W)
      → ((add_player p r).status ≡ r.status) × ((add_player p r).questions ≡ r.questions)
  unfolding add_player
  add_player-fields p r =
      maybe_elim (λ (z : Room W). (z.status ≡ r.status) × (z.questions ≡ r.questions))
        (find p.id r.players) (λ _. (refl, refl)) (λ _ _. (refl, refl))

module _ (d : Deps) where
  open d use {World}

  add_players-IsValid :
      (row : RoomData) (questions : List Question) (ps : List Player) (r : Room World)
      → r.status ≡ row.status
      → r.questions ≡ questions
      → All (IsStored row questions) ps
      → IsValid (core r)
      → IsValid (core (add_players d ps r))
  unfolding add_players
  add_players-IsValid row questions [] r e q h g = g
  add_players-IsValid row questions (p ∷ ps) r e q h g =
      let (status, asked) = add_player-fields p r in
      add_players-IsValid row questions ps (add_player p r) (status ∙ e) (asked ∙ q) h.1 (
        add_player-IsValid p r (subst (λ qs. IsSound qs (state_of p)) (sym q) h.0.0)
          (λ l. h.0.1 (subst (λ z. is_lobby z ≡ true) e l)) g)

  -- Players with keys of their own are added in their order.
  add_players-players :
      (ps : List Player) (r : Room World)
      → All (λ p. All (λ k. k ≢ p.id) (keys r.players)) ps
      → Distinct (ids ps)
      → ((add_players d ps r).players ≡ r.players ++ map state_of ps)
        × ((add_players d ps r).host ≡ r.host)
  unfolding add_players state_of
  add_players-players [] r h n = (sym (append_nil r.players), refl)
  add_players-players (p ∷ ps) r h n =
      let (one, kept) = add_player-players p r (find-missing p.id r.players h.0) in
      let keyed : keys (add_player p r).players ≡ keys r.players ++ p.id ∷ [] =
        ap keys one ∙ keys-append r.players (state_of p ∷ []) in
      let (rest, host) =
        add_players-players ps (add_player p r)
          (subst (λ ks. All (λ q. All (λ k. k ≢ q.id) ks) ps) (sym keyed)
            (step-missing (keys r.players) p.id ps h.1 n.0))
          n.1 in
      (
        rest
            ∙ ap (λ z. z ++ map state_of ps) one
            ∙ append-step r.players (map state_of ps) (state_of p),
        host ∙ kept,
      )

  arm_remaining-core :
      (started_at : ℕ) (r : Room World) → core (arm_remaining d started_at r) ≡ core r
  unfolding arm_remaining
  arm_remaining-core started_at r =
      if_elim (λ (z : Room World). core z ≡ core r) (is_running r.status) (λ _. refl) (λ _. refl)

  -- A room that is made from a stored room with questions, and from players with distinct ids whose
  -- stored totals fit the questions, with no progress where the room is in the lobby, has these
  -- players, each once, in their order and with their totals; the order lists their ids; no
  -- connection is attached.
  pub new_room-IsValid :
      (row : RoomData) (ps : List Player) (questions : List Question) (w : World)
      → 0 < length questions
      → Distinct (ids ps)
      → All (IsStored row questions) ps
      → let made = core (new_room d row ps questions w) in
        IsValid made × (made.players ≡ map state_of ps) × (made.host ≡ none)
  unfolding new_room empty_room
  new_room-IsValid row ps questions w asked distinct stored =
      let start = empty_room d row questions w in
      let added = add_players d ps start in
      let (joined, host) = add_players-players ps start (missing ps) distinct in
      subst (λ c. IsValid c × (c.players ≡ map state_of ps) × (c.host ≡ none))
        (sym (
          restore_board-core d (arm_remaining d row.started_at added)
          ∙ arm_remaining-core row.started_at added))
        (
          add_players-IsValid row questions ps start refl refl stored (record {
            asked = asked;
            keyed = refl;
            distinct = tt;
            sound = tt;
            quiet = λ _. (refl, tt);
            fresh = λ _. tt;
          }),
          joined,
          host,
        )
    where
      missing : (qs : List Player) → All (λ p. All (λ k. k ≢ p.id) []) qs
      missing [] = tt
      missing (q ∷ qs) = (tt, missing qs)
