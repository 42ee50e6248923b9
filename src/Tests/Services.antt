-- ===== src/Tests/Services.antt =====
-- The rate limiter and a WebSocket connection at concrete inputs.
use jejak_inderasakti_be.Shared.{
  ℕ, ◌≡◌, ◌≤◌, refl, String, String-discrete, true, false, List, [], ◌∷◌, ◌++◌, none, some, length,
  min, arith,
}
use jejak_inderasakti_be.Ratelimit.{
  Limiter, allow, allow_in_memory, count_in_memory, find_window, put_window, fresh_window,
  open_window, kept_windows,
}
use jejak_inderasakti_be.Ratelimit.Laws.{Attempt, allowed, attempts, allow_limit}
use jejak_inderasakti_be.Auth.{player}
use jejak_inderasakti_be.Game.Room.{answers}
use jejak_inderasakti_be.Ws.{
  Step, sends, closes, pumps, ticks, new_client, run, step, send, send_buffer, close_client, write,
  pump_message,
}
use jejak_inderasakti_be.Ws.Queue.{texts, messages, run_lem}
use jejak_inderasakti_be.Ws.Commands.{
  Json, dispatch, dispatch_role, dispatch_player, dispatch_answer, commands, IsPermitted,
  dispatch-IsPermitted,
}

-- Two attempts for each 60 seconds, and an old window of "amir".
abbrev limiter : Limiter
limiter = record {
  has_client = false;
  limit = 2;
  window = 60;
  windows = ("amir", record { count = 7; reset_at = 100 }) ∷ [];
}

abbrev at : String → ℕ → Attempt
at key now = record { key = key; now = now; reply = none }

abbrev later : List Attempt
later = at "budi" 101 ∷ at "amir" 120 ∷ at "amir" 159 ∷ []

limiter_run : allowed "amir" (at "amir" 100 ∷ later) limiter ≡ 2
unfolding allow allow_in_memory count_in_memory find_window put_window fresh_window open_window
    kept_windows String-discrete
limiter_run = refl

allow_limit_example :
    allowed "amir" (at "amir" 100 ∷ later) limiter ≡ min 2 (attempts "amir" (at "amir" 100 ∷ later))
allow_limit_example =
    allow_limit "amir" (at "amir" 100) later limiter (omega arith) refl ((λ _. omega arith), tt)
      (omega arith, (omega arith, (omega arith, tt))) (refl, (refl, (refl, (refl, tt))))

abbrev steps : List Step
steps =
    sends (some "a")
    ∷ sends (some "b")
    ∷ pumps true
    ∷ ticks true
    ∷ sends none
    ∷ closes
    ∷ sends (some "c")
    ∷ []

steps-run : texts (run steps new_client).written ≡ "a" ∷ []
unfolding run step send close_client write pump_message
steps-run = refl

run_lem_example :
    (dropped : List String) × (messages steps
      ≡ texts (run steps new_client).written ++ (run steps new_client).queue ++ dropped)
    × ((run steps new_client).closed ≡ false → dropped ≡ [])
    × (length (run steps new_client).queue ≤ send_buffer)
run_lem_example = run_lem steps

-- A decoder for one message.
abbrev json : Json
json = record {
  incoming = λ data_. some (record { t = "q.answer"; d = data_ });
  answer = λ d. some ("M1-01", some d);
  kick = λ d. none;
}

dispatch_run :
    dispatch json player "amir" "opt-a" ≡ commands (answers "amir" "M1-01" (some "opt-a"))
unfolding dispatch dispatch_role dispatch_player dispatch_answer String-discrete
dispatch_run = refl

dispatch-IsPermitted_example : IsPermitted player "amir" (answers "amir" "M1-01" (some "opt-a"))
dispatch-IsPermitted_example =
    dispatch-IsPermitted json player "amir" "opt-a" (answers "amir" "M1-01" (some "opt-a"))
      dispatch_run
