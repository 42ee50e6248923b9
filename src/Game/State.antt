-- ===== src/Game/State.antt =====
-- The state of one room (api/internal/game/room.go): what the room goroutine owns, what it calls, and
-- what it has sent.
use mathlib.Core.List.{Perm}
use jejak_inderasakti_be.Shared.{
  maybe, ℕ, ◌+◌, ◌*◌, String, Bool, true, false, List, [], ◌∷◌, Option, none, some, same,
  if◌then◌else◌, ℤ, Float64,
}
use jejak_inderasakti_be.Store.Types.{
  Status, StoreError, Fallible, AnswerOption, Question, Player, Result,
}
use jejak_inderasakti_be.Rank.{Standing}
use jejak_inderasakti_be.Game.Scoring.{network_grace_ms, millisecond}

-- A connection, by its identity.
abbrev pub Sink : Type 0
Sink = ℕ

pub record PlayerView : Type 0 where
  pub id : String
  pub nickname : String
  pub avatar : ℕ
  pub school : String
  pub lang : String

unfoldable pub view_of : Player → PlayerView
view_of p = record {
  id = p.id;
  nickname = p.nickname;
  avatar = p.avatar;
  school = p.school;
  lang = p.lang;
}

pub record PodiumEntry : Type 0 where
  pub rank : ℕ
  pub nickname : String
  pub avatar : ℕ
  pub score : ℕ

pub record Ranking : Type 0 where
  pub rank : ℕ
  pub nickname : String
  pub school : String
  pub score : ℕ
  pub correct_count : ℕ

-- The envelopes {t, d}, a constructor for each type t.
pub data Message : Type 0 where
  error_message : String → String → String → Message
  pong : Message
  player_joined : PlayerView → Message
  player_kicked : String → Message
  room_started : Message
  room_ended : List PodiumEntry → Message
  -- status, current index, score, streak, players
  room_state : Status → ℕ → ℕ → ℕ → List PlayerView → Message
  -- index, total, question, prompt, options (id and label), time left in ms
  q_show : ℕ → ℕ → Question → String → List (String × String) → ℕ → Message
  -- correct, correct option, explanation, points, score, streak, finished
  q_result : Bool → String → String → ℕ → ℕ → ℕ → Bool → Message
  lb_update : List Ranking → Message

-- What the room does to its connections and timers.
pub data Effect : Type 0 where
  sent : Sink → Message → Effect
  closed : Sink → Effect
  deadline_armed : ℕ → Effect
  leaderboard_armed : ℕ → Effect
  timers_stopped : Effect
  -- the room leaves the registry
  stopped : Effect

-- The question that a player sees.
pub record ActiveQuestion : Type 0 where
  pub question : Question
  pub options : List AnswerOption
  pub served_at : ℕ
  pub limit : ℕ

unfoldable pub deadline : ActiveQuestion → ℕ
deadline a = a.served_at + (a.limit + network_grace_ms * millisecond)

pub record PlayerState : Type 0 where
  pub info : Player
  pub sink : Option Sink
  pub active : Option ActiveQuestion
  pub score : ℕ
  pub correct : ℕ
  pub total_ms : ℤ
  pub streak : ℕ
  pub resolved : ℕ

-- What a room calls: two clocks, the random order of options, the store and the leaderboard. Each
-- call moves the outside world on.
pub record Deps : Type 1 where
  pub World : Type 0
  pub float : Float64
  pub clock : World → ℕ × World
  pub wall_clock : World → ℕ × World
  pub shuffle : List AnswerOption → World → List AnswerOption × World
  pub shuffle_perm : (os : List AnswerOption) (w : World) → Perm os (shuffle os w).0
  pub mark_room_started : String → World → Fallible Bool × World
  pub mark_room_ended : String → World → Option StoreError × World
  pub delete_player : String → World → Option StoreError × World
  pub save_result : Result → World → Option StoreError × World
  -- Whether there is a leaderboard store; without one the rankings come from memory only.
  pub has_board : Bool
  pub board_save : String → List Standing → World → Option StoreError × World
  pub board_order : String → World → Fallible (List String) × World
  pub board_forget : String → String → World → Option StoreError × World
  pub lb_interval : ℕ

-- A room in the world `W`. The map of players is a list in the order of arrival, keyed by the id in
-- `info`; `log` holds the effects, newest first; `lb_last` is none for the zero time.
pub record Room (W : Type 0) : Type 0 where
  pub id : String
  pub pin : String
  pub host_id : String
  pub jenjang : String
  pub accuracy_mode : Bool
  pub questions : List Question
  pub status : Status
  pub players : List PlayerState
  pub order : List String
  pub host : Option Sink
  pub lb_dirty : Bool
  pub lb_last : Option ℕ
  pub lb_waiting : Bool
  pub log : List Effect
  pub world : W

abbrev pub is_running : Status → Bool
is_running Status.running = true
is_running _ = false

abbrev pub is_lobby : Status → Bool
is_lobby Status.lobby = true
is_lobby _ = false

abbrev pub is_ended : Status → Bool
is_ended Status.ended = true
is_ended _ = false

-- r.players[id]
unfoldable pub find : String → List PlayerState → Option PlayerState
find id [] = none
find id (p ∷ ps) = if same p.info.id id then some p else find id ps

-- The entry of `p` takes the value `p`.
unfoldable pub put : PlayerState → List PlayerState → List PlayerState
put p [] = []
put p (q ∷ qs) = if same q.info.id p.info.id then p ∷ qs else q ∷ put p qs

-- delete(r.players, id)
unfoldable pub delete : String → List PlayerState → List PlayerState
delete id [] = []
delete id (p ∷ ps) = if same p.info.id id then ps else p ∷ delete id ps

unfoldable pub remove_id : List String → String → List String
remove_id [] id = []
remove_id (v ∷ ids) id = if same v id then ids else v ∷ remove_id ids id

-- The players of a list of ids. An id that is missing has no entry here; the source would stop at a
-- nil pointer.
unfoldable pub lookup_all : List String → List PlayerState → List PlayerState
lookup_all [] ps = []
lookup_all (id ∷ ids) ps = maybe (find id ps) (lookup_all ids ps) λ p. p ∷ lookup_all ids ps

-- for i, x := range xs, from i + 1
unfoldable pub number_from {ℓ} : {A : Type ℓ} → ℕ → List A → List (ℕ × A)
number_from i [] = []
number_from i (x ∷ xs) = (i + 1, x) ∷ number_from (i + 1) xs

module _ {W : Type 0} where
  abbrev pub send : Sink → Message → Room W → Room W
  send s m r = record r { log = sent s m ∷ r.log }

  abbrev pub close : Sink → Room W → Room W
  close s r = record r { log = closed s ∷ r.log }

  unfoldable pub send_to : PlayerState → Message → Room W → Room W
  send_to p m r = maybe p.sink r λ s. send s m r

  -- ref, code, message
  unfoldable pub reject : PlayerState → String → String → String → Room W → Room W
  reject p ref code message r = send_to p (error_message code message ref) r

  abbrev pub set_player : PlayerState → Room W → Room W
  set_player p r = record r { players = put p r.players }
