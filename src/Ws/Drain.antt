-- ===== src/Ws/Drain.antt =====
-- The end of a connection (api/internal/ws/client.go, Close and writePump).
use mathlib.Core.List.{append-nil, append_assoc}
use jejak_inderasakti_be.Shared.{
  subst, Option, ℕ, suc, ◌<◌, ◌≡◌, refl, sym, ap, ◌∙◌, String, Bool, true, false, List, [], ◌∷◌,
  ◌++◌, none, some, length, arith, if_true, if_false, All,
}
use jejak_inderasakti_be.Ws.{
  Client, text, ping, close, Step, sends, closes, pumps, ticks, send, close_client, write,
  pump_message, step, run,
}
use jejak_inderasakti_be.Ws.Queue.{texts, texts-append}

-- The writes of the pump work.
abbrev pub Works : Step → Type 0
Works (pumps works) = works ≡ true
Works (ticks works) = works ≡ true
Works (sends m) = Unit
Works closes = Unit

-- How often the pump takes from the channel.
abbrev pub pump_count : List Step → ℕ
pump_count [] = 0
pump_count (pumps _ ∷ ss) = suc (pump_count ss)
pump_count (ticks _ ∷ ss) = pump_count ss
pump_count (sends _ ∷ ss) = pump_count ss
pump_count (closes ∷ ss) = pump_count ss

send_closed : (m : Option String) (c : Client) → c.closed ≡ true → send m c ≡ c
unfolding send
send_closed none c k = refl
send_closed (some m) c k = if_true c _ k

close_client_closed : (c : Client) → c.closed ≡ true → close_client c ≡ c
unfolding close_client
close_client_closed c k = if_true c _ k

-- A closed connection whose pump has ended stays as it is.
step_over : (s : Step) (c : Client) → c.closed ≡ true → c.pumping ≡ false → step s c ≡ c
unfolding step
step_over (sends m) c k p = send_closed m c k
step_over closes c k p = close_client_closed c k
step_over (pumps w) c k p = if_false _ c p
step_over (ticks w) c k p = if_false _ c p

run_over : (ss : List Step) (c : Client) → c.closed ≡ true → c.pumping ≡ false → run ss c ≡ c
unfolding run
run_over [] c k p = refl
run_over (s ∷ ss) c k p = ap (λ (z : Client). run ss z) (step_over s c k p) ∙ run_over ss c k p

-- The pump of `z` has ended, and has written all that `c` held.
abbrev pub IsDrained : Client → Client → Type 0
IsDrained c z =
    (z.pumping ≡ false) × (z.queue ≡ []) × (texts z.written ≡ texts c.written ++ c.queue)

-- A turn of the pump that takes from the channel.
pump_message-IsDrained :
    (ss : List Step) (queue : List String) (works : Bool) (c : Client)
    → ((d : Client)
        → d.closed ≡ true
        → d.pumping ≡ true
        → length d.queue < pump_count ss
        → IsDrained d (run ss d))
    → c.queue ≡ queue
    → c.closed ≡ true
    → works ≡ true
    → length queue < suc (pump_count ss)
    → IsDrained c (run ss (pump_message queue works c))
unfolding write pump_message
pump_message-IsDrained ss [] works c rest e k w h =
    let over : Client = record c { written = c.written ++ close ∷ []; pumping = false } in
    subst (λ z. IsDrained c (run ss z)) (sym (if_true over c k))
      (subst (IsDrained c) (sym (run_over ss over k refl))
        (refl, e, texts-append c.written (close ∷ []) ∙ ap (λ q. texts c.written ++ q) (sym e)))
pump_message-IsDrained ss (m ∷ queue) works c rest e k w h =
    let next : Client = record c {
      queue = queue;
      written = c.written ++ text m ∷ [];
      pumping = works;
    } in
    let (ended, drained, all) = rest next k w (omega arith) in
    (
      ended,
      drained,
      all
          ∙ ap (λ t. t ++ queue) (texts-append c.written (text m ∷ []))
          ∙ append_assoc (texts c.written) (m ∷ []) queue
          ∙ ap (λ q. texts c.written ++ q) (sym e),
    )

-- After `Close`, whatever else happens, a pump whose writes work and that takes from the channel once
-- more often than it holds messages writes all of them, in their order, and then ends.
pub run-IsDrained :
    (ss : List Step) (c : Client)
    → c.closed ≡ true
    → c.pumping ≡ true
    → All Works ss
    → length c.queue < pump_count ss
    → IsDrained c (run ss c)
unfolding run step write
run-IsDrained [] c k p w h = absurd (omega arith)
run-IsDrained (sends m ∷ ss) c k p w h =
    subst (λ z. IsDrained c (run ss z)) (sym (send_closed m c k)) (run-IsDrained ss c k p w.1 h)
run-IsDrained (closes ∷ ss) c k p w h =
    subst (λ z. IsDrained c (run ss z)) (sym (close_client_closed c k))
      (run-IsDrained ss c k p w.1 h)
run-IsDrained (ticks works ∷ ss) c k p w h =
    let next : Client = write ping works c in
    let (ended, drained, all) = run-IsDrained ss next k w.0 w.1 h in
    subst (λ z. IsDrained c (run ss z)) (sym (if_true next c p))
      (
        ended,
        drained,
        all
            ∙ ap (λ t. t ++ c.queue)
                (texts-append c.written (ping ∷ []) ∙ append-nil (texts c.written)),
      )
run-IsDrained (pumps works ∷ ss) c k p w h =
    subst (λ z. IsDrained c (run ss z)) (sym (if_true (pump_message c.queue works c) c p))
      (pump_message-IsDrained ss c.queue works c (λ d l q n. run-IsDrained ss d l q w.1 n) refl k
        w.0 h)
