-- ===== src/Ratelimit/Windows.antt =====
-- Laws of the map of windows.
use jejak_inderasakti_be.Shared.{
  ℕ, ◌≤◌, ◌<◌, ◌≡◌, ◌≢◌, refl, String, List, [], ◌∷◌, some, ltb, same, length, All, if_elim, arith,
  Bool-cases, inl, inr,
}
use jejak_inderasakti_be.Ratelimit.{
  Window, find_window, put_window, prune_expired, fresh_window, open_window, kept_windows,
  prune_threshold,
}

pub find_window-put_window :
    (key : String) (w : Window) (ws : List (String × Window))
    → find_window key (put_window key w ws) ≡ some w
unfolding find_window put_window
find_window-put_window key w [] = ground arith
find_window-put_window key w ((k, v) ∷ ws) = ground (arith, find_window-put_window key w ws)

pub find_window_other :
    (key other : String) (w : Window) (ws : List (String × Window))
    → other ≢ key
    → find_window key (put_window other w ws) ≡ find_window key ws
unfolding find_window put_window
find_window_other key other w [] n = ground arith
find_window_other key other w ((k, v) ∷ ws) n = ground (arith, find_window_other key other w ws n)

find_window-prune_expired :
    (key : String) (now : ℕ) (w : Window) (ws : List (String × Window))
    → find_window key ws ≡ some w
    → now < w.reset_at
    → find_window key (prune_expired now ws) ≡ some w
unfolding find_window prune_expired
find_window-prune_expired key now w [] h t = h
find_window-prune_expired key now w ((k, v) ∷ ws) h t =
    ground (arith, find_window-prune_expired key now w ws)

-- Pruning keeps a window that is not over.
pub find_window-kept_windows :
    (key : String) (now : ℕ) (w : Window) (ws : List (String × Window))
    → find_window key ws ≡ some w
    → now < w.reset_at
    → find_window key (kept_windows now ws) ≡ some w
unfolding kept_windows
find_window-kept_windows key now w ws h t =
    if_elim (λ z. find_window key z ≡ some w) (ltb prune_threshold (length ws))
      (λ _. find_window-prune_expired key now w ws h t) (λ _. h)

-- Every window of the key is over at `now`.
abbrev pub IsFree : String → ℕ → List (String × Window) → Type 0
IsFree key now ws = All (λ e. e.0 ≡ key → e.1.reset_at ≤ now) ws

IsFree-prune_expired :
    (key : String) (now : ℕ) (ws : List (String × Window))
    → IsFree key now ws
    → IsFree key now (prune_expired now ws)
unfolding prune_expired
IsFree-prune_expired key now [] h = tt
IsFree-prune_expired key now ((k, w) ∷ ws) h =
    if_elim (IsFree key now) (ltb now w.reset_at) (λ _. (h.0, IsFree-prune_expired key now ws h.1))
      (λ _. IsFree-prune_expired key now ws h.1)

open_window_free :
    (key : String) (now size : ℕ) (ws : List (String × Window))
    → IsFree key now ws
    → open_window now size (find_window key ws) ≡ fresh_window now size
unfolding open_window find_window
open_window_free key now size [] h = refl
open_window_free key now size ((k, w) ∷ ws) h = elim (Bool-cases (same k key)) [
  | inl e ↦ rw e (ground (arith, h.0))
  | inr e ↦ rw e (open_window_free key now size ws h.1)
]

-- A key without a live window is given a fresh one.
pub open_window-kept_windows :
    (key : String) (now size : ℕ) (ws : List (String × Window))
    → IsFree key now ws
    → open_window now size (find_window key (kept_windows now ws)) ≡ fresh_window now size
unfolding kept_windows
open_window-kept_windows key now size ws h = open_window_free key now size (kept_windows now ws) (
    if_elim (IsFree key now) (ltb prune_threshold (length ws))
      (λ _. IsFree-prune_expired key now ws h) (λ _. h))
