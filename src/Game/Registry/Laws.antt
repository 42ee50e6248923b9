-- ===== src/Game/Registry/Laws.antt =====
-- Laws of the registry (api/internal/game/registry.go) under any order of its callers: each call holds
-- the lock for one move.
use jejak_inderasakti_be.Shared.{
  String-discrete, ◌≡◌, ◌≢◌, ◌⊎◌, inl, inr, sym, ap, subst, ◌∙◌, String, List, [], ◌∷◌, some, ◌==◌,
  All, arith, if_elim, maybe_elim, maybe-some,
}
use jejak_inderasakti_be.Game.Registry.{
  Pointer, Start, Registry, find_pointer, lookup, start_room, spawn, forget,
}
use jejak_inderasakti_be.Game.Registry.Keys.{IsTidy, find-remove_other, spawn-IsTidy, forget-IsTidy}

-- What the callers of a registry do, one at a time: Get at its end, and a room when its loop is over.
pub data Move : Type 0 where
  spawns : Start → Move
  forgets : String → Pointer → Move

unfoldable pub move : Move → Registry → Registry
move (spawns s) g = (spawn s g).1
move (forgets id ptr) g = forget id ptr g

unfoldable pub moves : List Move → Registry → Registry
moves [] g = g
moves (m ∷ ms) g = moves ms (move m g)

-- Whatever the order of the callers, each id keeps at most one room, whose address newRoom gave out
-- for a room of that id.
moves-IsTidy : (ms : List Move) (g : Registry) → IsTidy g → IsTidy (moves ms g)
unfolding moves move
moves-IsTidy [] g h = h
moves-IsTidy (spawns s ∷ ms) g h = moves-IsTidy ms _ (spawn-IsTidy s g h)
moves-IsTidy (forgets id ptr ∷ ms) g h = moves-IsTidy ms _ (forget-IsTidy id ptr g h)

-- The loop of the room at `ptr` is not over.
abbrev pub IsKept : String → Pointer → Move → Type 0
IsKept id ptr (spawns s) = Unit
IsKept id ptr (forgets key p) = (key ≢ id) ⊎ (p ≢ ptr)

start_room-lookup : (s : Start) (g : Registry) → lookup s.data_.id (start_room s g) ≡ some g.next
unfolding lookup find_pointer start_room
start_room-lookup s g = ground arith

spawn-lookup : (s : Start) (g : Registry) → lookup s.data_.id (spawn s g).1 ≡ some (spawn s g).0
unfolding spawn
spawn-lookup s g =
    maybe_elim (λ (z : Pointer × Registry). lookup s.data_.id z.1 ≡ some z.0) (lookup s.data_.id g)
      (λ _. start_room-lookup s g) (λ ptr e. e)

spawn_keeps :
    (s : Start) (id : String) (ptr : Pointer) (g : Registry)
    → lookup id g ≡ some ptr
    → lookup id (spawn s g).1 ≡ some ptr
unfolding spawn lookup start_room find_pointer
spawn_keeps s id ptr g h =
    maybe_elim (λ (z : Pointer × Registry). lookup id z.1 ≡ some ptr) (lookup s.data_.id g)
      (λ e. ground (arith, e, h)) (λ _ _. h)

forget_keeps :
    (key id : String) (p ptr : Pointer) (g : Registry)
    → (key ≢ id) ⊎ (p ≢ ptr)
    → lookup id g ≡ some ptr
    → lookup id (forget key p g) ≡ some ptr
unfolding forget lookup
forget_keeps key id p ptr g n h =
    maybe_elim (λ z. lookup id z ≡ some ptr) (lookup key g) (λ _. h)
      (λ held e.
        if_elim (λ z. lookup id z ≡ some ptr) (held == p)
          (λ q. elim n [
            | inl differs ↦ find-remove_other key id g.rooms differs ∙ h
            | inr newer ↦ elim (String-discrete key id) [
              | no differs ↦ find-remove_other key id g.rooms differs ∙ h
              | yes own ↦
                  let there : lookup id g ≡ some held = subst (λ k. lookup k g ≡ some held) own e in
                  absurd (newer (ground (arith, q, there, h)))
            ]
          ])
          (λ _. h))

moves_keeps :
    (ms : List Move) (id : String) (ptr : Pointer) (g : Registry)
    → All (IsKept id ptr) ms
    → lookup id g ≡ some ptr
    → lookup id (moves ms g) ≡ some ptr
unfolding moves move
moves_keeps [] id ptr g k h = h
moves_keeps (spawns s ∷ ms) id ptr g k h = moves_keeps ms id ptr _ k.1 (spawn_keeps s id ptr g h)
moves_keeps (forgets key p ∷ ms) id ptr g k h =
    moves_keeps ms id ptr _ k.1 (forget_keeps key id p ptr g k.0 h)

spawn_again :
    (s again : Start) (ms : List Move) (g : Registry)
    → again.data_.id ≡ s.data_.id
    → All (IsKept s.data_.id (spawn s g).0) ms
    → (spawn again (moves ms (spawn s g).1)).0 ≡ (spawn s g).0
unfolding spawn
spawn_again s again ms g e k =
    let kept = moves_keeps ms s.data_.id (spawn s g).0 (spawn s g).1 k (spawn-lookup s g) in
    ap (λ (z : Pointer × Registry). z.0)
      (maybe-some _ _
        (subst (λ id. lookup id (moves ms (spawn s g).1) ≡ some (spawn s g).0) (sym e) kept))

-- Whatever the order of the callers, each id keeps at most one room, at an address that newRoom gave
-- out for a room of that id; and two callers that load one room get the same room, as long as the loop
-- of that room is not over.
pub spawn-moves :
    (s again : Start) (ms : List Move) (g : Registry)
    → IsTidy g
    → again.data_.id ≡ s.data_.id
    → All (IsKept s.data_.id (spawn s g).0) ms
    → IsTidy (moves ms (spawn s g).1) × ((spawn again (moves ms (spawn s g).1)).0 ≡ (spawn s g).0)
spawn-moves s again ms g h e k =
    (moves-IsTidy ms (spawn s g).1 (spawn-IsTidy s g h), spawn_again s again ms g e k)
