-- ===== src/Tests/Connections.antt =====
-- The end and the opening of a connection at concrete inputs.
use jejak_inderasakti_be.Shared.{
  ℕ, ◌≡◌, refl, String, String-discrete, true, List, [], ◌∷◌, some, arith,
}
use jejak_inderasakti_be.Auth.{player, parse, new_numeric_date}
use jejak_inderasakti_be.Store.Types.{Fallible, ok}
use jejak_inderasakti_be.Game.State.{Room, find}
use jejak_inderasakti_be.Game.Room.{attach_player}
use jejak_inderasakti_be.Ws.{
  Client, text, Step, sends, closes, pumps, ticks, run, step, send, close_client, write,
  pump_message,
}
use jejak_inderasakti_be.Ws.Queue.{texts}
use jejak_inderasakti_be.Ws.Drain.{IsDrained, run-IsDrained}
use jejak_inderasakti_be.Ws.Handler.{
  serves, attach_to, serve_attached, serve_room, serve_ws, room_id_of, IsAdmitted,
  serve_ws-IsAdmitted,
}
use jejak_inderasakti_be.Tests.Tokens.{jwt, tokens}
use jejak_inderasakti_be.Tests.Sample.{quiet, running_room, newcomer, ani}

-- Two messages wait, and the room has closed the connection.
abbrev closing : Client
closing = record {
  closed = true;
  queue = "q" ∷ "end" ∷ [];
  pumping = true;
  written = text "hello" ∷ [];
}

abbrev last_steps : List Step
last_steps = pumps true ∷ sends (some "late") ∷ ticks true ∷ pumps true ∷ closes ∷ pumps true ∷ []

drained_run : texts (run last_steps closing).written ≡ "hello" ∷ "q" ∷ "end" ∷ []
unfolding run step send close_client write pump_message
drained_run = refl

run-IsDrained_example : IsDrained closing (run last_steps closing)
run-IsDrained_example =
    run-IsDrained last_steps closing refl refl (refl, (tt, (refl, (refl, (tt, (refl, tt))))))
      (omega arith)

abbrev open_room : Room ℕ
open_room = record running_room {
  players = record ani { info = newcomer "u1" } ∷ [];
  order = "u1" ∷ [];
}

abbrev room_of_id : String → Fallible (Room ℕ)
room_of_id id = ok open_room

admitted_run :
    (serve_ws quiet jwt tokens room_of_id true true 3 7 "player token" "").0 ≡ serves player "u1"
unfolding serve_ws parse new_numeric_date serve_room serve_attached attach_to attach_player find
    room_id_of String-discrete
admitted_run = refl

serve_ws-IsAdmitted_example : IsAdmitted quiet jwt tokens room_of_id 7 "player token" "" player "u1"
serve_ws-IsAdmitted_example =
    serve_ws-IsAdmitted quiet jwt tokens room_of_id 3 7 "player token" "" true true player "u1"
      admitted_run
