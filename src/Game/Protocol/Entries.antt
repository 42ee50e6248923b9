-- ===== src/Game/Protocol/Entries.antt =====
-- The list of entries of a session, and the players of a room.
use jejak_inderasakti_be.Shared.{
  ◌≡◌, ◌≢◌, refl, ap, ◌∙◌, String, List, [], ◌∷◌, ◌++◌, map, none, some, All, arith, sym,
}
use jejak_inderasakti_be.Game.State.{PlayerState, find, put, delete}
use jejak_inderasakti_be.Game.Protocol.{Entry, entry_of, find_entry, set_entry, remove_entry}

pub entries-find :
    (id : String) (ps : List PlayerState) (p : PlayerState)
    → find id ps ≡ some p
    → find_entry id (map entry_of ps) ≡ some (entry_of p)
unfolding find find_entry
entries-find id [] p h = cc
entries-find id (q ∷ ps) p h = ground (arith, entries-find id ps p)

pub entries-put :
    (q : PlayerState) (ps : List PlayerState)
    → map entry_of (put q ps) ≡ set_entry (entry_of q) (map entry_of ps)
unfolding put set_entry
entries-put q [] = refl
entries-put q (x ∷ ps) = ground (arith, entries-put q ps)

pub entries-delete :
    (id : String) (ps : List PlayerState)
    → map entry_of (delete id ps) ≡ remove_entry id (map entry_of ps)
unfolding delete remove_entry
entries-delete id [] = refl
entries-delete id (x ∷ ps) = ground (arith, entries-delete id ps)

pub entries-map :
    (h : PlayerState → PlayerState) (ps : List PlayerState)
    → ((p : PlayerState) → entry_of (h p) ≡ entry_of p)
    → map entry_of (map h ps) ≡ map entry_of ps
entries-map h [] e = refl
entries-map h (x ∷ ps) e = cc (e x, entries-map h ps e)

pub entries-append :
    (ps qs : List PlayerState) → map entry_of (ps ++ qs) ≡ map entry_of ps ++ map entry_of qs
entries-append [] qs = refl
entries-append (x ∷ ps) qs = ap (◌∷◌ (entry_of x)) (entries-append ps qs)

-- An id that is not found is the id of no entry.
pub entries-none :
    (id : String) (ps : List PlayerState)
    → find id ps ≡ none
    → All (λ e. e.id ≢ id) (map entry_of ps)
unfolding find
entries-none id [] h = tt
entries-none id (p ∷ ps) h = ground (arith, entries-none id ps)

pub set_entry_self :
    (e : Entry) (es : List Entry) → find_entry e.id es ≡ some e → set_entry e es ≡ es
unfolding find_entry set_entry
set_entry_self e [] h = refl
set_entry_self e (x ∷ es) h = ground (arith, set_entry_self e es)

-- A player that changes nothing but its connection or its question keeps its entry.
pub entries-put_same :
    (p q : PlayerState) (ps : List PlayerState)
    → find q.info.id ps ≡ some p
    → entry_of q ≡ entry_of p
    → map entry_of (put q ps) ≡ map entry_of ps
entries-put_same p q ps f e =
    entries-put q ps
    ∙ set_entry_self (entry_of q) (map entry_of ps)
        (entries-find q.info.id ps p f ∙ ap some (sym e))
