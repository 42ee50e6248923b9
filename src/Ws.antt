-- ===== src/Ws.antt =====
-- api/internal/ws/client.go: one WebSocket connection, its bounded queue and its commands.
pub mod Queue
pub mod Drain
pub mod Handler
pub mod Commands
use jejak_inderasakti_be.Shared.{
  ℕ, suc, ◌+◌, String, Bool, true, false, List, [], ◌∷◌, ◌++◌, Option, none, some, ltb,
  if◌then◌else◌, maybe, length, same,
}
use jejak_inderasakti_be.Game.State.{Message, error_message, pong}
use jejak_inderasakti_be.Game.Room.{Event, starts, ends, kicks, asks_next, answers}

abbrev pub send_buffer : ℕ
send_buffer = 32

-- What is handed to the connection: a message, a ping, or the closing frame.
pub data Frame : Type 0 where
  text : String → Frame
  ping close : Frame

-- `queue` is the channel `send`, `closed` that it is closed, `pumping` that the write pump runs, and
-- `written` lists the frames that the pump has handed to the connection, in their order.
pub record Client : Type 0 where
  pub closed : Bool
  pub queue : List String
  pub pumping : Bool
  pub written : List Frame

abbrev pub new_client : Client
new_client = record { closed = false; queue = []; pumping = true; written = [] }

-- The message is none where it cannot be marshalled.
unfoldable pub send : Option String → Client → Client
send none c = c
send (some data_) c =
    if c.closed
    then c
    else if ltb (length c.queue) send_buffer
    then record c { queue = c.queue ++ (data_ ∷ []) }
    else record c { closed = true }

unfoldable pub close_client : Client → Client
close_client c = if c.closed then c else record c { closed = true }

-- A write that fails ends the pump.
unfoldable pub write : Frame → Bool → Client → Client
write f works c = record c { written = c.written ++ (f ∷ []); pumping = works }

-- The pump takes from the channel: it writes the next message, waits while there is none, and says
-- goodbye once the channel is closed and drained.
unfoldable pub pump_message : List String → Bool → Client → Client
pump_message [] works c = if c.closed then record (write close works c) { pumping = false } else c
pump_message (m ∷ ms) works c = write (text m) works (record c { queue = ms })

-- One step of the connection: a message to send, `Close`, and a turn of the pump that takes from the
-- channel or from the ticker, whose write works or fails.
pub data Step : Type 0 where
  sends : Option String → Step
  closes : Step
  pumps ticks : Bool → Step

unfoldable pub step : Step → Client → Client
step (sends m) c = send m c
step closes c = close_client c
step (pumps works) c = if c.pumping then pump_message c.queue works c else c
step (ticks works) c = if c.pumping then write ping works c else c

unfoldable pub run : List Step → Client → Client
run [] c = c
run (s ∷ ss) c = run ss (step s c)
