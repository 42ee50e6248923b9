-- ===== src/Game/Players/Keys.antt =====
-- The keys of the map of players, in the order of arrival.
use jejak_inderasakti_be.Shared.{
  ◌≡◌, ◌≢◌, refl, ap, String, List, [], ◌∷◌, ◌++◌, map, none, All, All-append, Distinct, arith,
}
use jejak_inderasakti_be.Game.State.{PlayerState, find, put, delete, remove_id}

abbrev pub keys : List PlayerState → List String
keys [] = []
keys (p ∷ ps) = p.info.id ∷ keys ps

pub keys-put : (p : PlayerState) (ps : List PlayerState) → keys (put p ps) ≡ keys ps
unfolding put
keys-put p [] = refl
keys-put p (q ∷ ps) = ground (arith, keys-put p ps)

pub keys-delete :
    (id : String) (ps : List PlayerState) → keys (delete id ps) ≡ remove_id (keys ps) id
unfolding delete remove_id
keys-delete id [] = refl
keys-delete id (q ∷ ps) = ground (arith, keys-delete id ps)

pub keys-map :
    (g : PlayerState → PlayerState) (ps : List PlayerState)
    → ((p : PlayerState) → (g p).info.id ≡ p.info.id)
    → keys (map g ps) ≡ keys ps
keys-map g [] h = refl
keys-map g (q ∷ ps) h = cc (h q, keys-map g ps h)

pub keys-append : (ps qs : List PlayerState) → keys (ps ++ qs) ≡ keys ps ++ keys qs
keys-append [] qs = refl
keys-append (p ∷ ps) qs = ap (◌∷◌ p.info.id) (keys-append ps qs)

remove_id-All :
    (P : String → Type 0) (ids : List String) (id : String) → All P ids → All P (remove_id ids id)
unfolding remove_id
remove_id-All P [] id a = tt
remove_id-All P (v ∷ ids) id a = ground (arith, remove_id-All P ids id a.1)

pub remove_id-Distinct :
    (ids : List String) (id : String) → Distinct ids → Distinct (remove_id ids id)
unfolding remove_id
remove_id-Distinct [] id a = tt
remove_id-Distinct (v ∷ ids) id a =
    ground (arith, remove_id-Distinct ids id a.1, remove_id-All (λ t. v ≢ t) ids id a.0)

-- An id that is not found differs from every key.
pub find-none :
    (id : String) (ps : List PlayerState) → find id ps ≡ none → All (λ k. k ≢ id) (keys ps)
unfolding find
find-none id [] h = tt
find-none id (p ∷ ps) h = ground (arith, find-none id ps)

pub append-Distinct :
    (ids : List String) (id : String)
    → Distinct ids
    → All (λ k. k ≢ id) ids
    → Distinct (ids ++ id ∷ [])
append-Distinct [] id h a = (tt, tt)
append-Distinct (v ∷ ids) id h a =
    (All-append (λ t. v ≢ t) ids (id ∷ []) h.0 (a.0, tt), append-Distinct ids id h.1 a.1)
