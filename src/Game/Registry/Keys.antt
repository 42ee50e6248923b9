-- ===== src/Game/Registry/Keys.antt =====
-- The map of the registry (api/internal/game/registry.go): its keys and addresses.
use jejak_inderasakti_be.Shared.{
  suc, ◌<◌, ◌≡◌, ◌≢◌, ◌⊎◌, inl, inr, refl, String, List, [], ◌∷◌, none, same, ◌==◌, All, All-imp,
  Distinct, arith, if_elim, maybe_elim, Bool-cases,
}
use jejak_inderasakti_be.Game.Registry.{
  Pointer, Start, Registry, find_pointer, remove_pointer, lookup, start_room, spawn, forget,
}

abbrev pub ids : List (String × Pointer) → List String
ids [] = []
ids ((key, ptr) ∷ rooms) = key ∷ ids rooms

-- The room at an address has an id.
abbrev pub IsStarted : Pointer → String → List (Pointer × Start) → Type 0
IsStarted ptr id [] = ⊥
IsStarted ptr id ((p, s) ∷ rest) = ((p ≡ ptr) × (s.data_.id ≡ id)) ⊎ IsStarted ptr id rest

-- Each id has one room, and each entry is the address of a room of its id that newRoom has made.
abbrev pub IsTidy : Registry → Type 0
IsTidy g =
    Distinct (ids g.rooms)
    × All (λ (key, ptr). (ptr < g.next) × IsStarted ptr key g.started) g.rooms

pub find_pointer-none :
    (id : String) (rooms : List (String × Pointer))
    → find_pointer id rooms ≡ none
    → All (λ key. id ≢ key) (ids rooms)
unfolding find_pointer
find_pointer-none id [] e = tt
find_pointer-none id ((key, ptr) ∷ rooms) e =
    ((λ p. ground (arith, e, p)), find_pointer-none id rooms (ground (arith, e)))

remove_pointer-All :
    (P : String × Pointer → Type 0) (id : String) (rooms : List (String × Pointer))
    → All P rooms
    → All P (remove_pointer id rooms)
unfolding remove_pointer
remove_pointer-All P id [] h = tt
remove_pointer-All P id ((key, ptr) ∷ rooms) h =
    if_elim (All P) (same key id) (λ _. remove_pointer-All P id rooms h.1)
      (λ _. (h.0, remove_pointer-All P id rooms h.1))

ids-remove_pointer :
    (P : String → Type 0) (id : String) (rooms : List (String × Pointer))
    → All P (ids rooms)
    → All P (ids (remove_pointer id rooms))
unfolding remove_pointer
ids-remove_pointer P id [] h = tt
ids-remove_pointer P id ((key, ptr) ∷ rooms) h =
    if_elim (λ kept. All P (ids kept)) (same key id) (λ _. ids-remove_pointer P id rooms h.1)
      (λ _. (h.0, ids-remove_pointer P id rooms h.1))

remove_pointer-Distinct :
    (id : String) (rooms : List (String × Pointer))
    → Distinct (ids rooms)
    → Distinct (ids (remove_pointer id rooms))
unfolding remove_pointer
remove_pointer-Distinct id [] h = tt
remove_pointer-Distinct id ((key, ptr) ∷ rooms) h =
    if_elim (λ kept. Distinct (ids kept)) (same key id) (λ _. remove_pointer-Distinct id rooms h.1)
      (λ _. (ids-remove_pointer (λ k. key ≢ k) id rooms h.0, remove_pointer-Distinct id rooms h.1))

pub find-remove_other :
    (id other : String) (rooms : List (String × Pointer))
    → id ≢ other
    → find_pointer other (remove_pointer id rooms) ≡ find_pointer other rooms
unfolding find_pointer remove_pointer
find-remove_other id other [] n = refl
find-remove_other id other ((key, ptr) ∷ rooms) n =
    let rest = find-remove_other id other rooms n in
    elim (Bool-cases (same key id)) [
      | inl e ↦ ground (arith, e, n, rest)
      | inr e ↦ ground (arith, e, rest)
    ]

pub start_room-IsTidy :
    (s : Start) (g : Registry) → lookup s.data_.id g ≡ none → IsTidy g → IsTidy (start_room s g)
unfolding start_room lookup
start_room-IsTidy s g e (distinct, entries) = (
  (find_pointer-none s.data_.id g.rooms e, distinct),
  (
    (omega arith, inl (refl, refl)),
    All-imp (λ (key, ptr). (ptr < g.next) × IsStarted ptr key g.started)
        (λ (key, ptr). (ptr < suc g.next) × IsStarted ptr key ((g.next, s) ∷ g.started)) g.rooms
        (λ (key, ptr) (below, there). (omega arith, inr there)) entries,
  ),
)

pub spawn-IsTidy : (s : Start) (g : Registry) → IsTidy g → IsTidy (spawn s g).1
unfolding spawn
spawn-IsTidy s g h =
    maybe_elim (λ (z : Pointer × Registry). IsTidy z.1) (lookup s.data_.id g)
      (λ e. start_room-IsTidy s g e h) (λ _ _. h)

pub forget-IsTidy :
    (id : String) (ptr : Pointer) (g : Registry) → IsTidy g → IsTidy (forget id ptr g)
unfolding forget
forget-IsTidy id ptr g h =
    maybe_elim IsTidy (lookup id g) (λ _. h)
      (λ held _.
        if_elim IsTidy (held == ptr)
          (λ _. (
            remove_pointer-Distinct id g.rooms h.0,
            remove_pointer-All (λ (key, p). (p < g.next) × IsStarted p key g.started) id g.rooms
                h.1,
          ))
          (λ _. h))
