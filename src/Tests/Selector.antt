-- ===== src/Tests/Selector.antt =====
-- The question selector at a concrete pool.
use mathlib.Core.List.{Nodup, Nodup-cons, Nodup-nil, Mem, mem-cons, not-mem-nil}
use mathlib.Core.List.Perm
use mathlib.Core.Logic.Or
use jejak_inderasakti_be.Shared.{
  String-discrete, ℕ, zero, ◌≡◌, refl, String, Bool, true, false, not, ◌&&◌, List, [], ◌∷◌, some,
  if◌then◌else◌, length, Distinct, same, ◌||◌, arith,
}
use jejak_inderasakti_be.Game.Selector.{
  QuestionRef, Levels, composition, levels_to_ask, bucket, take_next, pick, site_cells, cells_from,
  selected, shuffled_buckets, select_questions,
}
use jejak_inderasakti_be.Game.Selector.Laws.{Matches, select_questions_lem}
use jejak_inderasakti_be.Game.Selector.Buckets.{ids_of}

abbrev has_text : String → List String → Bool
has_text s [] = false
has_text s (t ∷ ts) = same s t || has_text s ts

abbrev all_new : List String → Bool
all_new [] = true
all_new (s ∷ ss) = not (has_text s ss) && all_new ss

has_text_lem : (s : String) (ss : List String) → has_text s ss ≡ false → ¬ Mem s ss
has_text_lem s [] h m = not-mem-nil m
has_text_lem s (t ∷ ts) h m =
    Or.elim (hlevel) (mem-cons.0 m) (λ e. ground arith) (λ k. has_text_lem s ts (ground arith) k)

all_new-Nodup : (ss : List String) → all_new ss ≡ true → Nodup ss
all_new-Nodup [] h = Nodup-nil
all_new-Nodup (s ∷ ss) h =
    Nodup-cons.1 (has_text_lem s ss (ground arith), all_new-Nodup ss (ground arith))

abbrev pub question : String → ℕ → ℕ → QuestionRef
question id site level = record { id = id; site = site; level = level }

-- One question for each cell of a short SD session, and one that is not asked.
abbrev pub pool : List QuestionRef
pool =
    question "a" 1 1
    ∷ question "b" 1 2
    ∷ question "c" 2 1
    ∷ question "d" 2 2
    ∷ question "e" 3 1
    ∷ question "x" 3 3
    ∷ question "f" 3 2
    ∷ question "h" 4 2
    ∷ question "g" 4 1
    ∷ question "i" 5 1
    ∷ question "j" 5 3
    ∷ []

abbrev chosen : List String
chosen = "a" ∷ "b" ∷ "c" ∷ "d" ∷ "e" ∷ "f" ∷ "g" ∷ "h" ∷ "i" ∷ "j" ∷ []

abbrev unchanged : ℕ → ℕ → List String → List String
unchanged s l xs = xs

pub pool-Nodup : Nodup (ids_of pool)
unfolding String-discrete
pool-Nodup = all_new-Nodup (ids_of pool) refl

select_run : select_questions unchanged "SD" true pool ≡ selected chosen
unfolding select_questions composition levels_to_ask bucket take_next pick site_cells cells_from
    shuffled_buckets String-discrete
select_run = refl

select_questions_lem_example :
    (ls : List Levels) × (composition "SD" ≡ some ls)
    × (length chosen ≡ (if true then 10 else 15))
    × Distinct chosen
    × Matches (shuffled_buckets unchanged pool) (λ _ _. zero) (cells_from zero true ls) chosen
unfolding String-discrete
select_questions_lem_example =
    select_questions_lem unchanged "SD" true pool chosen (λ s l xs. Perm.refl xs) pool-Nodup
      select_run
