-- ===== src/Ratelimit/Laws.antt =====
-- Laws of the limiter where Redis gives no answer (api/internal/ratelimit/limiter.go).
use jejak_inderasakti_be.Shared.{
  ℕ, suc, ◌+◌, ◌-◌, ◌<◌, ◌≡◌, ◌≢◌, refl, sym, ap, ◌∙◌, String, Bool, true, false, List, [], ◌∷◌,
  Option, none, some, ltb, leb, same, All, if_elim, arith, Bool-cases, inl, inr, min, ◌&&◌, subst,
  if_true, if_false, maybe-some,
}
use jejak_inderasakti_be.Ratelimit.{
  Window, Limiter, find_window, fresh_window, open_window, kept_windows, count_in_memory,
  allow_in_memory, allow,
}
use jejak_inderasakti_be.Ratelimit.Windows.{
  find_window-put_window, find_window_other, find_window-kept_windows, IsFree,
  open_window-kept_windows,
}

-- One attempt: its key, its time, and the answer of Redis.
pub record Attempt : Type 0 where
  pub key : String
  pub now : ℕ
  pub reply : Option ℕ

abbrev one_if : Bool → ℕ
one_if true = 1
one_if false = 0

-- How many attempts of `key` the limiter allows, one attempt after the other.
abbrev pub allowed : String → List Attempt → Limiter → ℕ
allowed key [] l = 0
allowed key (a ∷ later) l =
    one_if (same a.key key && (allow a.reply a.key a.now l).0)
    + allowed key later (allow a.reply a.key a.now l).1

abbrev pub attempts : String → List Attempt → ℕ
attempts key [] = 0
attempts key (a ∷ later) = one_if (same a.key key) + attempts key later

-- Redis is not there, or it fails at every attempt.
abbrev pub NoRedis : List Attempt → Type 0
NoRedis later = All (λ a. a.reply ≡ none) later

allow_memory :
    (key : String) (now : ℕ) (l : Limiter)
    → 0 < l.limit
    → allow none key now l ≡ allow_in_memory key now l
unfolding allow
allow_memory key now l p =
    if_false {b = leb l.limit 0} _ _ (ground arith)
    ∙ if_elim (λ z. z ≡ allow_in_memory key now l) l.has_client (λ _. refl) (λ _. refl)

-- A window that is not over stays the window of its key.
open_window_live :
    (key : String) (now : ℕ) (l : Limiter) (w : Window)
    → find_window key l.windows ≡ some w
    → now < w.reset_at
    → open_window now l.window (find_window key (kept_windows now l.windows)) ≡ w
unfolding open_window
open_window_live key now l w h t =
    maybe-some _ _ (find_window-kept_windows key now w l.windows h t)
    ∙ if_true {b = ltb now w.reset_at} _ _ (ground arith)

-- An attempt counts in the window of its key,
counted_own :
    (key : String) (now : ℕ) (l : Limiter) (w : Window)
    → open_window now l.window (find_window key (kept_windows now l.windows)) ≡ w
    → ((count_in_memory key now l).0 ≡ suc w.count)
      × (find_window key (count_in_memory key now l).1.windows
          ≡ some (record w { count = suc w.count }))
unfolding count_in_memory
counted_own key now l w e = (
  ap (λ z. suc z.count) e,
  find_window-put_window key _ (kept_windows now l.windows)
      ∙ ap {A = Window} (λ z. some (record z { count = suc z.count })) e,
)

-- and leaves a live window of another key.
counted_other :
    (key other : String) (now : ℕ) (l : Limiter) (w : Window)
    → find_window key l.windows ≡ some w
    → now < w.reset_at
    → other ≢ key
    → find_window key (count_in_memory other now l).1.windows ≡ some w
unfolding count_in_memory
counted_other key other now l w h t n =
    find_window_other key other _ (kept_windows now l.windows) n
    ∙ find_window-kept_windows key now w l.windows h t

-- The limiter after an attempt that is counted in the window `w`.
one_attempt :
    (key : String) (a : Attempt) (l : Limiter) (w : Window)
    → 0 < l.limit
    → a.key ≡ key
    → a.reply ≡ none
    → open_window a.now l.window (find_window key (kept_windows a.now l.windows)) ≡ w
    → ((allow a.reply a.key a.now l).0 ≡ leb (suc w.count) l.limit)
      × ((allow a.reply a.key a.now l).1.limit ≡ l.limit)
      × (find_window key (allow a.reply a.key a.now l).1.windows
          ≡ some (record w { count = suc w.count }))
unfolding allow_in_memory count_in_memory
one_attempt key a l w p k n e =
    let m : allow a.reply a.key a.now l ≡ allow_in_memory key a.now l =
      rw (n, k) (allow_memory key a.now l p) in
    let (c, f) = counted_own key a.now l w e in
    (
      ap (λ z. z.0) m ∙ ap (λ z. leb z l.limit) c,
      ap (λ z. z.1.limit) m,
      ap (λ z. find_window key z.1.windows) m ∙ f,
    )

-- The limiter after an attempt of another key.
other_attempt :
    (key : String) (a : Attempt) (l : Limiter) (w : Window)
    → 0 < l.limit
    → a.key ≢ key
    → a.reply ≡ none
    → find_window key l.windows ≡ some w
    → a.now < w.reset_at
    → ((allow a.reply a.key a.now l).1.limit ≡ l.limit)
      × (find_window key (allow a.reply a.key a.now l).1.windows ≡ some w)
unfolding allow_in_memory count_in_memory
other_attempt key a l w p k n h t =
    let m : allow a.reply a.key a.now l ≡ allow_in_memory a.key a.now l =
      rw n (allow_memory a.key a.now l p) in
    (
      ap (λ z. z.1.limit) m,
      ap (λ z. find_window key z.1.windows) m ∙ counted_other key a.key a.now l w h t k,
    )

-- If the attempts after it get what is left of the window, so do all of them.
allowed_first :
    (key : String) (a : Attempt) (later : List Attempt) (l : Limiter) (w : Window)
    → a.key ≡ key
    → (allow a.reply a.key a.now l).0 ≡ leb (suc w.count) l.limit
    → allowed key later (allow a.reply a.key a.now l).1
      ≡ min (l.limit - suc w.count) (attempts key later)
    → allowed key (a ∷ later) l ≡ min (l.limit - w.count) (attempts key (a ∷ later))
allowed_first key a later l w k e h = ground arith

allowed_other :
    (key : String) (a : Attempt) (later : List Attempt) (l : Limiter) (w : Window)
    → same a.key key ≡ false
    → allowed key later (allow a.reply a.key a.now l).1
      ≡ min (l.limit - w.count) (attempts key later)
    → allowed key (a ∷ later) l ≡ min (l.limit - w.count) (attempts key (a ∷ later))
allowed_other key a later l w e h = rw e (ground (arith, h))

-- Within a window, the attempts left are allowed and no other.
allowed_in_window :
    (key : String) (later : List Attempt) (l : Limiter) (w : Window)
    → 0 < l.limit
    → find_window key l.windows ≡ some w
    → All (λ a. a.now < w.reset_at) later
    → NoRedis later
    → allowed key later l ≡ min (l.limit - w.count) (attempts key later)
allowed_in_window key [] l w p h t n = ground arith
allowed_in_window key (a ∷ later) l w p h t n = elim (Bool-cases (same a.key key)) [
  | inl e ↦
      let k : a.key ≡ key = ground arith in
      let (c, lim, f) = one_attempt key a l w p k n.0 (open_window_live key a.now l w h t.0) in
      allowed_first key a later l w k c (
        allowed_in_window key later (allow a.reply a.key a.now l).1
          (record w { count = suc w.count }) (subst (λ z. 0 < z) (sym lim) p) f t.1 n.1
        ∙ ap (λ z. min (z - suc w.count) (attempts key later)) lim)
  | inr e ↦
      let k : a.key ≢ key = ground arith in
      let (lim, f) = other_attempt key a l w p k n.0 h t.0 in
      allowed_other key a later l w e (
        allowed_in_window key later (allow a.reply a.key a.now l).1 w
          (subst (λ z. 0 < z) (sym lim) p) f t.1 n.1
        ∙ ap (λ z. min (z - w.count) (attempts key later)) lim)
]

-- A key that has no live window at its first attempt gets exactly the attempts up to the limit until
-- a window's length later, whatever other keys do, where Redis does not answer and the limit is not 0.
pub allow_limit :
    (key : String) (first : Attempt) (later : List Attempt) (l : Limiter)
    → 0 < l.limit
    → first.key ≡ key
    → IsFree key first.now l.windows
    → All (λ a. a.now < first.now + l.window) later
    → NoRedis (first ∷ later)
    → allowed key (first ∷ later) l ≡ min l.limit (attempts key (first ∷ later))
unfolding fresh_window
allow_limit key first later l p k free t n =
    let w = fresh_window first.now l.window in
    let (c, lim, f) =
      one_attempt key first l w p k n.0
        (open_window-kept_windows key first.now l.window l.windows free) in
    omega (
      arith,
      allowed_first key first later l w k c (
          allowed_in_window key later (allow first.reply first.key first.now l).1
            (record w { count = suc w.count }) (subst (λ z. 0 < z) (sym lim) p) f t n.1
          ∙ ap (λ z. min (z - suc w.count) (attempts key later)) lim),
    )
