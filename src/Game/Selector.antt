-- ===== src/Game/Selector.antt =====
-- api/internal/game/selector.go: the questions of a new room, one stage for each site.
pub mod Laws
pub mod Buckets
use jejak_inderasakti_be.Shared.{
  ℕ, zero, suc, ◌+◌, String, String-discrete, Bool, true, false, ◌&&◌, List, [], ◌∷◌, ◌++◌, Option,
  none, some, ◌==◌, if◌then◌else◌, same, maybe, get_elem?, length,
}

pub record QuestionRef : Type 0 where
  pub id : String
  pub site : ℕ
  pub level : ℕ

-- The levels of the three questions of a stage.
pub record Levels : Type 0 where
  pub opening : ℕ
  pub middle : ℕ
  pub closing : ℕ

abbrev cell : ℕ → ℕ → ℕ → Levels
cell a b c = record { opening = a; middle = b; closing = c }

unfoldable pub composition : String → Option (List Levels)
composition jenjang =
    if same jenjang "SD"
    then some (cell 1 1 2 ∷ cell 1 1 2 ∷ cell 1 2 2 ∷ cell 1 2 2 ∷ cell 1 2 3 ∷ [])
    else if same jenjang "SMP"
    then some (cell 1 1 2 ∷ cell 1 2 2 ∷ cell 1 2 3 ∷ cell 1 2 3 ∷ cell 1 2 3 ∷ [])
    else if same jenjang "SMA"
    then some (cell 1 2 2 ∷ cell 1 2 3 ∷ cell 1 2 3 ∷ cell 2 2 3 ∷ cell 2 3 3 ∷ [])
    else none

unfoldable pub levels_to_ask : Levels → Bool → List ℕ
levels_to_ask l short =
    if short then l.opening ∷ l.closing ∷ [] else l.opening ∷ l.middle ∷ l.closing ∷ []

-- The ids of one bucket, in the order of the pool.
unfoldable pub bucket : ℕ → ℕ → List QuestionRef → List String
bucket site level [] = []
bucket site level (q ∷ qs) =
    if q.site == site && q.level == level then q.id ∷ bucket site level qs else bucket site level qs

-- The buckets are shuffled once: each (site, level) stands for its shuffled ids.
abbrev pub Buckets : Type 0
Buckets = ℕ → ℕ → List String

-- next[key], the number of ids already taken from each bucket.
abbrev pub Taken : Type 0
Taken = ℕ → ℕ → ℕ

unfoldable pub take_next : Taken → ℕ → ℕ → Taken
take_next taken site level s l = if s == site && l == level then suc (taken s l) else taken s l

-- The questions of a list of (site, level) cells; none where a bucket runs out.
unfoldable pub pick : Buckets → Taken → List (ℕ × ℕ) → Option (List String)
pick buckets taken [] = some []
pick buckets taken ((site, level) ∷ cells) =
    maybe (get_elem? (buckets site level) (taken site level)) none
      (λ id. maybe (pick buckets (take_next taken site level) cells) none (λ ids. some (id ∷ ids)))

unfoldable pub site_cells : ℕ → List ℕ → List (ℕ × ℕ)
site_cells site [] = []
site_cells site (level ∷ levels) = (site, level) ∷ site_cells site levels

-- for stage, levels := range cells, with site = stage + 1
unfoldable pub cells_from : ℕ → Bool → List Levels → List (ℕ × ℕ)
cells_from stage short [] = []
cells_from stage short (l ∷ ls) =
    site_cells (stage + 1) (levels_to_ask l short) ++ cells_from (stage + 1) short ls

pub data SelectError : Type 0 where
  unknown_jenjang not_enough : SelectError

pub data Selected : Type 0 where
  selected : List String → Selected
  failed : SelectError → Selected

unfoldable pub shuffled_buckets : (ℕ → ℕ → List String → List String) → List QuestionRef → Buckets
shuffled_buckets shuffle pool site level = shuffle site level (bucket site level pool)

-- `shuffle site level` is the random order of a bucket.
unfoldable pub select_questions :
    (ℕ → ℕ → List String → List String) → String → Bool → List QuestionRef → Selected
select_questions shuffle jenjang short pool =
    maybe (composition jenjang) (failed unknown_jenjang) (λ ls.
      maybe (pick (shuffled_buckets shuffle pool) (λ _ _. zero) (cells_from zero short ls))
        (failed not_enough) selected)
