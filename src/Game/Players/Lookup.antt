-- ===== src/Game/Players/Lookup.antt =====
-- Looking up a list of ids: with the keys of the map nothing is missing.
use jejak_inderasakti_be.Shared.{◌≡◌, ◌≢◌, refl, String, List, [], ◌∷◌, All, Distinct, arith}
use jejak_inderasakti_be.Game.State.{PlayerState, find, lookup_all}
use jejak_inderasakti_be.Game.Players.Keys.{keys}

-- A player in front is passed over by ids other than its own.
lookup_all-skip :
    (p : PlayerState) (ids : List String) (ps : List PlayerState)
    → All (λ t. p.info.id ≢ t) ids
    → lookup_all ids (p ∷ ps) ≡ lookup_all ids ps
unfolding lookup_all find
lookup_all-skip p [] ps h = refl
lookup_all-skip p (id ∷ ids) ps h = ground (arith, lookup_all-skip p ids ps h.1)

-- The keys, in their order, give back the map.
pub lookup_all-keys : (ps : List PlayerState) → Distinct (keys ps) → lookup_all (keys ps) ps ≡ ps
unfolding lookup_all find
lookup_all-keys [] h = refl
lookup_all-keys (p ∷ ps) h =
    ground (arith, lookup_all-skip p (keys ps) ps h.0, lookup_all-keys ps h.1)
