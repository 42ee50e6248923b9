-- ===== src/Game/Effects/Standings.antt =====
-- What the leaderboard of a valid room shows.
use mathlib.Core.List.{Perm}
use jejak_inderasakti_be.Shared.{
  Distinct, Float64, ℕ, ◌≤◌, ◌≡◌, sym, subst, ap, List, [], ◌∷◌, map, All, length, pos_part, arith,
}
use jejak_inderasakti_be.Rank.{Standing, order}
use jejak_inderasakti_be.Rank.Key.{InRange}
use jejak_inderasakti_be.Rank.Order.{order_lem, IsRanked, with_value}
use jejak_inderasakti_be.Store.Types.{Question}
use jejak_inderasakti_be.Game.State.{PlayerState, Room, lookup_all}
use jejak_inderasakti_be.Game.Board.{standing_of, standings}
use jejak_inderasakti_be.Game.Players.Lookup.{lookup_all-keys}
use jejak_inderasakti_be.Game.Invariant.Defs.{core, IsSound, IsValid}

-- A standing whose key is exact and whose time is not cut off.
abbrev pub IsFit : Standing → Type 0
IsFit s = InRange s × (pos_part s.total_ms ≤ 468750)

fit :
    (qs : List Question) (ps : List PlayerState)
    → length qs ≤ 15
    → All (IsSound qs) ps
    → All IsFit (map standing_of ps)
unfolding standing_of
fit qs [] n a = tt
fit qs (p ∷ ps) n a = (omega (arith, a.0), fit qs ps n a.1)

in_range : (ss : List Standing) → All IsFit ss → All InRange ss
in_range [] a = tt
in_range (s ∷ ss) a = (a.0.0, in_range ss a.1)

module _ {W : Type 0} (r : Room W) (v : IsValid (core r)) where
  -- No id of the order is missing from the players.
  pub lookup_all-order : lookup_all r.order r.players ≡ r.players
  lookup_all-order =
      subst (λ ks. lookup_all ks r.players ≡ r.players) v.keyed
        (lookup_all-keys r.players (subst (λ ks. Distinct ks) (sym v.keyed) v.distinct))

  -- In a valid room of at most 15 questions there is a standing for every player, no total time
  -- passes 468,750 ms, and the order of the standings is that of score, then correct answers, then
  -- time, where equals keep the order of arrival.
  pub standings_lem :
      length r.questions ≤ 15
      → (f : Float64)
      → (standings r ≡ map standing_of r.players)
        × All IsFit (standings r)
        × ((ys : List Standing) × (order f (standings r) ≡ map (λ s. s.player_id) ys)
            × Perm (standings r) ys
            × IsRanked ys
            × ((n : ℕ) → with_value n ys ≡ with_value n (standings r)))
  unfolding standings
  standings_lem n f =
      let same = ap (map standing_of) lookup_all-order in
      let fits = subst (All IsFit) (sym same) (fit r.questions r.players n v.sound) in
      (same, fits, order_lem f (standings r) (in_range _ fits))
