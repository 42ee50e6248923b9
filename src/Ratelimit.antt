-- ===== src/Ratelimit.antt =====
-- api/internal/ratelimit/limiter.go: how often one key may act within a window of time.
pub mod Windows
pub mod Laws
use jejak_inderasakti_be.Shared.{
  ℕ, suc, ◌+◌, String, Bool, true, false, ◌&&◌, List, [], ◌∷◌, Option, none, some, ltb, leb,
  if◌then◌else◌, same, maybe, length,
}

abbrev pub prune_threshold : ℕ
prune_threshold = 1024

pub record Window : Type 0 where
  pub count : ℕ
  pub reset_at : ℕ

-- The map of windows is a list of keys with their window. `has_client` is false where the limiter has
-- no Redis client. A limit of 0 disables the limiter.
pub record Limiter : Type 0 where
  pub has_client : Bool
  pub limit : ℕ
  pub window : ℕ
  pub windows : List (String × Window)

unfoldable pub find_window : String → List (String × Window) → Option Window
find_window key [] = none
find_window key ((k, w) ∷ ws) = if same k key then some w else find_window key ws

unfoldable pub put_window : String → Window → List (String × Window) → List (String × Window)
put_window key w [] = (key, w) ∷ []
put_window key w ((k, v) ∷ ws) = if same k key then (key, w) ∷ ws else (k, v) ∷ put_window key w ws

unfoldable pub prune_expired : ℕ → List (String × Window) → List (String × Window)
prune_expired now [] = []
prune_expired now ((k, w) ∷ ws) =
    let rest = prune_expired now ws in if ltb now w.reset_at then (k, w) ∷ rest else rest

unfoldable pub fresh_window : ℕ → ℕ → Window
fresh_window now size = record { count = 0; reset_at = now + size }

-- The window of a key, or a fresh one where there is none or it is over.
unfoldable pub open_window : ℕ → ℕ → Option Window → Window
open_window now size found =
    maybe found (fresh_window now size)
      (λ w. if ltb now w.reset_at then w else fresh_window now size)

unfoldable pub kept_windows : ℕ → List (String × Window) → List (String × Window)
kept_windows now ws = if ltb prune_threshold (length ws) then prune_expired now ws else ws

unfoldable pub count_in_memory : String → ℕ → Limiter → ℕ × Limiter
count_in_memory key now l =
    let kept = kept_windows now l.windows in
    let w = open_window now l.window (find_window key kept) in
    (suc w.count, record l { windows = put_window key (record w { count = suc w.count }) kept })

unfoldable pub allow_in_memory : String → ℕ → Limiter → Bool × Limiter
allow_in_memory key now l = let (count, l') = count_in_memory key now l in (leb count l.limit, l')

-- `reply` is the counter rl:{key} that Redis has incremented, none where the call failed.
unfoldable pub allow : Option ℕ → String → ℕ → Limiter → Bool × Limiter
allow reply key now l =
    if leb l.limit 0
    then (true, l)
    else if l.has_client
    then maybe reply (allow_in_memory key now l) (λ count. (leb count l.limit, l))
    else allow_in_memory key now l
