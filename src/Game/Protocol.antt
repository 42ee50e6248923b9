-- ===== src/Game/Protocol.antt =====
-- What a session of the quiz promises, without connections, timers and stores: api/contracts/ws.md
-- in the terms of the room of api/internal/game/room.go.
pub mod Entries
pub mod Moves
pub mod Handlers
pub mod Events
use jejak_inderasakti_be.Shared.{
  ℕ, suc, ◌+◌, ◌≤◌, ◌<◌, ◌≡◌, ◌≢◌, ◌⊎◌, String, Bool, true, false, List, [], ◌∷◌, ◌++◌, Option,
  none, some, if◌then◌else◌, same, All, length, map,
}
use jejak_inderasakti_be.Store.Types.{Status}
use jejak_inderasakti_be.Game.State.{PlayerState}
use jejak_inderasakti_be.Game.Invariant.Defs.{Core, max_points}

-- The progress of one player.
pub record Entry : Type 0 where
  pub id : String
  pub score : ℕ
  pub correct : ℕ
  pub resolved : ℕ

-- A session: how many questions it has, where it is, and how far its players are.
pub record Session : Type 0 where
  pub total : ℕ
  pub status : Status
  pub entries : List Entry

abbrev pub entry_of : PlayerState → Entry
entry_of p = record { id = p.info.id; score = p.score; correct = p.correct; resolved = p.resolved }

-- What a session shows of a room.
abbrev pub view : Core → Session
view c = record { total = length c.questions; status = c.status; entries = map entry_of c.players }

unfoldable pub find_entry : String → List Entry → Option Entry
find_entry id [] = none
find_entry id (e ∷ es) = if same e.id id then some e else find_entry id es

unfoldable pub set_entry : Entry → List Entry → List Entry
set_entry e [] = []
set_entry e (x ∷ es) = if same x.id e.id then e ∷ es else x ∷ set_entry e es

unfoldable pub remove_entry : String → List Entry → List Entry
remove_entry id [] = []
remove_entry id (x ∷ es) = if same x.id id then es else x ∷ remove_entry id es

abbrev pub new_entry : String → Entry
new_entry id = record { id = id; score = 0; correct = 0; resolved = 0 }

-- A question is resolved: wrongly or too late for no points, or rightly for at most 1250.
abbrev pub IsProgress : Entry → Entry → Type 0
IsProgress e e' =
    (e'.id ≡ e.id)
    × (e'.resolved ≡ suc e.resolved)
    × (((e'.correct ≡ e.correct) × (e'.score ≡ e.score))
        ⊎ ((e'.correct ≡ suc e.correct) × (e.score ≤ e'.score) × (e'.score ≤ e.score + max_points)))

-- One step of a session.
pub data Step (s t : Session) : Type 0 where
  join :
      (id : String)
      → s.status ≢ Status.ended
      → All (λ e. e.id ≢ id) s.entries
      → t ≡ record s { entries = s.entries ++ new_entry id ∷ [] }
      → Step s t
  start : s.status ≡ Status.lobby → t ≡ record s { status = Status.running } → Step s t
  resolve :
      (e e' : Entry)
      → s.status ≡ Status.running
      → find_entry e.id s.entries ≡ some e
      → e.resolved < s.total
      → IsProgress e e'
      → t ≡ record s { entries = set_entry e' s.entries }
      → Step s t
  leave :
      (e : Entry)
      → s.status ≢ Status.ended
      → find_entry e.id s.entries ≡ some e
      → t ≡ record s { entries = remove_entry e.id s.entries }
      → Step s t
  finish : s.status ≢ Status.ended → t ≡ record s { status = Status.ended } → Step s t

-- Any number of steps.
pub data Steps (s : Session) : Session → Type 0 where
  here : {t : Session} → t ≡ s → Steps s t
  next : {u t : Session} → Steps s u → Step u t → Steps s t
