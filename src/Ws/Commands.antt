-- ===== src/Ws/Commands.antt =====
-- api/internal/ws/client.go: what a message from a client asks of the room, and in
-- api/internal/ws/handler.go, how a connection is attached.
use jejak_inderasakti_be.Shared.{
  subst, refl, ◌≡◌, String, Option, if◌then◌else◌, same, maybe, if_elim, maybe_elim,
}
use jejak_inderasakti_be.Auth.{Role, host, player, other}
use jejak_inderasakti_be.Game.State.{Message, error_message, pong, Sink}
use jejak_inderasakti_be.Game.Room.{
  Event, starts, ends, kicks, asks_next, answers, attaches_host, attaches_player,
}

pub record Incoming : Type 0 where
  pub t : String
  pub d : String

-- encoding/json: the envelope {t, d}, and the fields of the two commands that have some. An absent
-- text is empty.
pub record Json : Type 0 where
  pub incoming : String → Option Incoming
  pub answer : String → Option (String × Option String)
  pub kick : String → Option String

pub data Dispatched : Type 0 where
  ignored : Dispatched
  replies : Message → Dispatched
  commands : Event → Dispatched

unfoldable pub invalid_answer : String → Dispatched
invalid_answer ref =
    replies (error_message "INVALID_REQUEST" "q.answer needs question_id and option_id" ref)

module _ (json : Json) where
  unfoldable pub dispatch_answer : String → Incoming → Dispatched
  dispatch_answer player_id msg =
      maybe (json.answer msg.d) (invalid_answer msg.t)
        (λ d. if same d.0 "" then invalid_answer msg.t else commands (answers player_id d.0 d.1))

  unfoldable pub dispatch_player : String → Incoming → Dispatched
  dispatch_player player_id msg =
      if same msg.t "q.next"
      then commands (asks_next player_id)
      else if same msg.t "q.answer"
      then dispatch_answer player_id msg
      else ignored

  unfoldable pub dispatch_kick : Incoming → Dispatched
  dispatch_kick msg =
      maybe (json.kick msg.d) ignored
        (λ player_id. if same player_id "" then ignored else commands (kicks player_id))

  unfoldable pub dispatch_host : Incoming → Dispatched
  dispatch_host msg =
      if same msg.t "host.start"
      then commands starts
      else if same msg.t "host.end"
      then commands ends
      else if same msg.t "host.kick"
      then dispatch_kick msg
      else ignored

  unfoldable pub dispatch_role : Role → String → Incoming → Dispatched
  dispatch_role host client_id msg = dispatch_host msg
  dispatch_role player client_id msg = dispatch_player client_id msg
  dispatch_role other client_id msg = ignored

  unfoldable pub dispatch : Role → String → String → Dispatched
  dispatch role client_id data_ =
      maybe (json.incoming data_) ignored
        (λ msg. if same msg.t "ping" then replies pong else dispatch_role role client_id msg)

-- `attach`: a host by its id, anyone else as a player.
unfoldable pub attach : Role → String → Sink → Event
attach host subject sink = attaches_host subject sink
attach player subject sink = attaches_player subject sink
attach other subject sink = attaches_player subject sink

-- What a role may ask of a room: a host starts, ends and kicks, and a player plays for itself.
abbrev pub IsPermitted : Role → String → Event → Type 0
IsPermitted host id starts = Unit
IsPermitted host id ends = Unit
IsPermitted host id (kicks player_id) = Unit
IsPermitted player id (asks_next player_id) = player_id ≡ id
IsPermitted player id (answers player_id q o) = player_id ≡ id
IsPermitted _ _ _ = ⊥

-- A dispatched command is one that the role permits.
abbrev IsSafe : Role → String → Dispatched → Type 0
IsSafe role id ignored = Unit
IsSafe role id (replies m) = Unit
IsSafe role id (commands e) = IsPermitted role id e

module _ (json : Json) where
  dispatch_answer-IsSafe :
      (id : String) (msg : Incoming) → IsSafe player id (dispatch_answer json id msg)
  unfolding dispatch_answer invalid_answer
  dispatch_answer-IsSafe id msg =
      maybe_elim (IsSafe player id) (json.answer msg.d) (λ _. tt)
        (λ d _. if_elim (IsSafe player id) (same d.0 "") (λ _. tt) (λ _. refl))

  dispatch_host-IsSafe : (id : String) (msg : Incoming) → IsSafe host id (dispatch_host json msg)
  unfolding dispatch_host dispatch_kick
  dispatch_host-IsSafe id msg =
      if_elim (IsSafe host id) (same msg.t "host.start") (λ _. tt)
        (λ _.
          if_elim (IsSafe host id) (same msg.t "host.end") (λ _. tt)
            (λ _.
              if_elim (IsSafe host id) (same msg.t "host.kick")
                (λ _.
                  maybe_elim (IsSafe host id) (json.kick msg.d) (λ _. tt)
                    (λ p _. if_elim (IsSafe host id) (same p "") (λ _. tt) (λ _. tt)))
                (λ _. tt)))

  dispatch_role-IsSafe :
      (role : Role) (id : String) (msg : Incoming) → IsSafe role id (dispatch_role json role id msg)
  unfolding dispatch_role dispatch_player
  dispatch_role-IsSafe host id msg = dispatch_host-IsSafe id msg
  dispatch_role-IsSafe player id msg =
      if_elim (IsSafe player id) (same msg.t "q.next") (λ _. refl)
        (λ _.
          if_elim (IsSafe player id) (same msg.t "q.answer") (λ _. dispatch_answer-IsSafe id msg)
            (λ _. tt))
  dispatch_role-IsSafe other id msg = tt

  -- Whatever a client sends, a player's connection asks only for its own next question or answers for
  -- itself, a host's connection only starts, ends or kicks, and any other role's asks for nothing.
  pub dispatch-IsPermitted :
      (role : Role) (id data_ : String) (e : Event)
      → dispatch json role id data_ ≡ commands e
      → IsPermitted role id e
  unfolding dispatch
  dispatch-IsPermitted role id data_ e h = subst (IsSafe role id) h (
      maybe_elim (IsSafe role id) (json.incoming data_) (λ _. tt)
        (λ msg _.
          if_elim (IsSafe role id) (same msg.t "ping") (λ _. tt)
            (λ _. dispatch_role-IsSafe role id msg)))
