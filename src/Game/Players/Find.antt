-- ===== src/Game/Players/Find.antt =====
-- What `find` returns, and what `put`, `delete` and a change of every entry keep.
use jejak_inderasakti_be.Shared.{
  sym, ℕ, ◌<◌, ◌≡◌, ◌≢◌, refl, subst, String, String-discrete, false, List, [], ◌∷◌, ◌++◌, map,
  some, All, arith,
}
use jejak_inderasakti_be.Game.State.{PlayerState, find, put, delete}
use jejak_inderasakti_be.Game.Session.{is_empty, all_finished}

pub find-id :
    (id : String) (ps : List PlayerState) (p : PlayerState) → find id ps ≡ some p → p.info.id ≡ id
unfolding find
find-id id [] p h = cc
find-id id (q ∷ ps) p h = ground (arith, find-id id ps p)

pub find-All {ℓ} :
    (P : PlayerState → Type ℓ) (id : String) (ps : List PlayerState) (p : PlayerState)
    → find id ps ≡ some p
    → All P ps
    → P p
unfolding find
find-All P id [] p h a = cc
find-All P id (q ∷ ps) p h a = elim (String-discrete q.info.id id) [
  | yes e ↦ let first : q ≡ p = ground arith in subst P first a.0
  | no e ↦ find-All P id ps p (ground arith) a.1
]

pub put-All {ℓ} :
    (P : PlayerState → Type ℓ) (p : PlayerState) (ps : List PlayerState)
    → P p
    → All P ps
    → All P (put p ps)
unfolding put
put-All P p [] h a = tt
put-All P p (q ∷ ps) h a = ground (arith, put-All P p ps h a.1)

pub delete-All {ℓ} :
    (P : PlayerState → Type ℓ) (id : String) (ps : List PlayerState)
    → All P ps
    → All P (delete id ps)
unfolding delete
delete-All P id [] a = tt
delete-All P id (q ∷ ps) a = ground (arith, delete-All P id ps a.1)

pub map-All {ℓ} :
    (P : PlayerState → Type ℓ) (g : PlayerState → PlayerState) (ps : List PlayerState)
    → ((p : PlayerState) → P p → P (g p))
    → All P ps
    → All P (map g ps)
map-All P g [] h a = tt
map-All P g (q ∷ ps) h a = (h q a.0, map-All P g ps h a.1)

pub find-put_self :
    (p q : PlayerState) (ps : List PlayerState)
    → find p.info.id ps ≡ some q
    → find p.info.id (put p ps) ≡ some p
unfolding find put
find-put_self p q [] h = cc
find-put_self p q (x ∷ ps) h = ground (arith, find-put_self p q ps)

pub find-put_ne :
    (id : String) (p : PlayerState) (ps : List PlayerState)
    → id ≢ p.info.id
    → find id (put p ps) ≡ find id ps
unfolding find put
find-put_ne id p [] h = refl
find-put_ne id p (x ∷ ps) h = ground (arith, find-put_ne id p ps h)

-- One unfinished player is enough.
pub find-unfinished :
    (n : ℕ) (id : String) (ps : List PlayerState) (p : PlayerState)
    → find id ps ≡ some p
    → p.resolved < n
    → all_finished n ps ≡ false
unfolding find all_finished
find-unfinished n id [] p h l = cc
find-unfinished n id (x ∷ ps) p h l = ground (arith, find-unfinished n id ps p)

pub find_self :
    (id : String) (ps : List PlayerState) (p : PlayerState)
    → find id ps ≡ some p
    → find p.info.id ps ≡ some p
find_self id ps p h = subst (λ k. find k ps ≡ some p) (sym (find-id id ps p h)) h

pub all_finished-put :
    (n : ℕ) (p q : PlayerState) (ps : List PlayerState)
    → find q.info.id ps ≡ some p
    → q.resolved ≡ p.resolved
    → all_finished n (put q ps) ≡ all_finished n ps
unfolding find put all_finished
all_finished-put n p q [] h e = refl
all_finished-put n p q (x ∷ ps) h e = ground (arith, all_finished-put n p q ps)

pub is_empty-put : (q : PlayerState) (ps : List PlayerState) → is_empty (put q ps) ≡ is_empty ps
unfolding put
is_empty-put q [] = refl
is_empty-put q (x ∷ ps) = ground arith

pub all_finished-map :
    (n : ℕ) (g : PlayerState → PlayerState) (ps : List PlayerState)
    → ((p : PlayerState) → (g p).resolved ≡ p.resolved)
    → all_finished n (map g ps) ≡ all_finished n ps
unfolding all_finished
all_finished-map n g [] h = refl
all_finished-map n g (x ∷ ps) h = rw (h x, all_finished-map n g ps h)

pub is_empty-map :
    (g : PlayerState → PlayerState) (ps : List PlayerState) → is_empty (map g ps) ≡ is_empty ps
is_empty-map g [] = refl
is_empty-map g (x ∷ ps) = refl

pub all_finished-append :
    (n : ℕ) (q : PlayerState) (ps : List PlayerState)
    → q.resolved < n
    → all_finished n (ps ++ q ∷ []) ≡ false
unfolding all_finished
all_finished-append n q [] h = ground arith
all_finished-append n q (x ∷ ps) h = ground (arith, all_finished-append n q ps h)
