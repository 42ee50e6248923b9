-- ===== src/Ws/Queue.antt =====
-- Laws of the queue of a connection (api/internal/ws/client.go).
use mathlib.Core.List.{append-nil, append_assoc}
use jejak_inderasakti_be.Shared.{
  ◌≤◌, ◌≡◌, refl, sym, ap, ◌∙◌, String, Bool, false, List, [], ◌∷◌, ◌++◌, none, some, ltb, length,
  length-append, if_elim, arith, subst,
}
use jejak_inderasakti_be.Ws.{
  Client, Frame, text, ping, close, Step, sends, closes, pumps, ticks, new_client, send,
  close_client, write, pump_message, step, run, send_buffer,
}

-- The messages among the frames.
abbrev pub texts : List Frame → List String
texts [] = []
texts (text m ∷ fs) = m ∷ texts fs
texts (ping ∷ fs) = texts fs
texts (close ∷ fs) = texts fs

-- The messages that the room sends, in their order, less those that cannot be marshalled.
abbrev pub messages : List Step → List String
messages [] = []
messages (sends (some m) ∷ ss) = m ∷ messages ss
messages (sends none ∷ ss) = messages ss
messages (closes ∷ ss) = messages ss
messages (pumps _ ∷ ss) = messages ss
messages (ticks _ ∷ ss) = messages ss

pub texts-append : (fs gs : List Frame) → texts (fs ++ gs) ≡ texts fs ++ texts gs
texts-append [] gs = refl
texts-append (text m ∷ fs) gs = ap {B = List String} (λ z. m ∷ z) (texts-append fs gs)
texts-append (ping ∷ fs) gs = texts-append fs gs
texts-append (close ∷ fs) gs = texts-append fs gs

-- The messages sent so far are those that were written, those in the queue, and, only if the channel
-- is closed, some that came too late. The queue is bounded.
abbrev pub Accounts : List String → Client → Type 0
Accounts sent c =
    (late : List String) × (sent ≡ texts c.written ++ c.queue ++ late)
    × (c.closed ≡ false → late ≡ [])
    × (length c.queue ≤ send_buffer)

-- A frame that is no message leaves the account as it is.
silent-Accounts :
    (sent : List String) (fs : List Frame) (f : Frame) (queue late : List String)
    → texts (f ∷ []) ≡ []
    → sent ≡ texts fs ++ queue ++ late
    → sent ≡ texts (fs ++ (f ∷ [])) ++ queue ++ late
silent-Accounts sent fs f queue late t e =
    e
    ∙ ap {B = List String} (λ z. z ++ queue ++ late)
        (sym (
          texts-append fs (f ∷ [])
          ∙ ap {B = List String} (λ z. texts fs ++ z) t
          ∙ append-nil (texts fs)))

send-Accounts :
    (sent : List String) (m : String) (c : Client)
    → Accounts sent c
    → Accounts (sent ++ (m ∷ [])) (send (some m) c)
unfolding send
send-Accounts sent m c (late, e, open_, bound) =
    if_elim (Accounts (sent ++ (m ∷ []))) c.closed
      (λ closed. (
        late ++ (m ∷ []),
        rw e (append_assoc (texts c.written ++ c.queue) late (m ∷ [])),
        (λ o. ground arith),
        bound,
      ))
      (λ o.
        if_elim (Accounts (sent ++ (m ∷ []))) (ltb (length c.queue) send_buffer)
          (λ room. (
            [],
            ap {B = List String} (λ z. z ++ (m ∷ [])) (all_kept o)
                ∙ append_assoc (texts c.written) c.queue (m ∷ [])
                ∙ sym (append-nil (texts c.written ++ (c.queue ++ (m ∷ [])))),
            (λ _. refl),
            ground (arith, length-append c.queue (m ∷ [])),
          ))
          (λ full. (
            m ∷ [],
            ap {B = List String} (λ z. z ++ (m ∷ [])) (all_kept o),
            (λ k. ground arith),
            bound,
          )))
  where
    all_kept : c.closed ≡ false → sent ≡ texts c.written ++ c.queue
    all_kept o =
        e
        ∙ ap (λ z. texts c.written ++ c.queue ++ z) (open_ o)
        ∙ append-nil (texts c.written ++ c.queue)

pump_message-Accounts :
    (sent queue : List String) (works : Bool) (c : Client)
    → c.queue ≡ queue
    → Accounts sent c
    → Accounts sent (pump_message queue works c)
unfolding pump_message write
pump_message-Accounts sent [] works c q (late, e, open_, bound) =
    if_elim (Accounts sent) c.closed
      (λ _. (late, silent-Accounts sent c.written close c.queue late refl e, open_, bound))
      (λ _. (late, e, open_, bound))
pump_message-Accounts sent (m ∷ ms) works c q (late, e, open_, bound) = (
  late,
  e
      ∙ ap {B = List String} (λ z. texts c.written ++ z ++ late) q
      ∙ ap {B = List String} (λ z. z ++ late)
          (sym (append_assoc (texts c.written) (m ∷ []) ms)
            ∙ ap {B = List String} (λ z. z ++ ms) (sym (texts-append c.written (text m ∷ [])))),
  open_,
  omega (arith, bound, ap length q),
)

-- What one step sends.
step-Accounts :
    (sent : List String) (s : Step) (c : Client)
    → Accounts sent c
    → Accounts (sent ++ messages (s ∷ [])) (step s c)
unfolding step close_client write send
step-Accounts sent (sends none) c h = rw append-nil h
step-Accounts sent (sends (some m)) c h = send-Accounts sent m c h
step-Accounts sent closes c (late, e, open_, bound) =
    if_elim (Accounts (sent ++ [])) c.closed (λ _. (late, rw append-nil e, open_, bound))
      (λ _. (late, rw append-nil e, (λ k. ground arith), bound))
step-Accounts sent (pumps works) c h =
    if_elim (Accounts (sent ++ [])) c.pumping
      (λ _. rw append-nil (pump_message-Accounts sent c.queue works c refl h))
      (λ _. rw append-nil h)
step-Accounts sent (ticks works) c (late, e, open_, bound) =
    if_elim (Accounts (sent ++ [])) c.pumping
      (λ _. (
        late,
        rw append-nil (silent-Accounts sent c.written ping c.queue late refl e),
        open_,
        bound,
      ))
      (λ _. (late, rw append-nil e, open_, bound))

messages-cons : (s : Step) (ss : List Step) → messages (s ∷ ss) ≡ messages (s ∷ []) ++ messages ss
messages-cons (sends none) ss = refl
messages-cons (sends (some m)) ss = refl
messages-cons closes ss = refl
messages-cons (pumps works) ss = refl
messages-cons (ticks works) ss = refl

run-Accounts :
    (sent : List String) (ss : List Step) (c : Client)
    → Accounts sent c
    → Accounts (sent ++ messages ss) (run ss c)
unfolding run
run-Accounts sent [] c h = rw append-nil h
run-Accounts sent (s ∷ ss) c h =
    subst (λ z. Accounts z (run ss (step s c)))
      (append_assoc sent (messages (s ∷ [])) (messages ss)
        ∙ ap {B = List String} (λ z. sent ++ z) (sym (messages-cons s ss)))
      (run-Accounts (sent ++ messages (s ∷ [])) ss (step s c) (step-Accounts sent s c h))

-- Whatever happens to a new connection, the messages sent to it are, in their order, those that the
-- pump has taken, those that wait in the queue, and those dropped after the channel was closed; while
-- the channel is open none is dropped, and the queue never holds more than 32.
pub run_lem :
    (ss : List Step)
    → (late : List String) × (messages ss
        ≡ texts (run ss new_client).written ++ (run ss new_client).queue ++ late)
      × ((run ss new_client).closed ≡ false → late ≡ [])
      × (length (run ss new_client).queue ≤ send_buffer)
run_lem ss = run-Accounts [] ss new_client ([], refl, (λ _. refl), omega arith)
