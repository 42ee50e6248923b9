-- ===== src/Rank.antt =====
-- api/internal/rank/rank.go: players are ordered by one number that folds the three criteria.
pub mod Key
pub mod Order
use jejak_inderasakti_be.Shared.{
  ℕ, ◌+◌, ◌-◌, ◌*◌, min, String, Bool, if◌then◌else◌, List, [], ◌∷◌, map, ℤ, pos_part, Float64,
}

abbrev pub score_unit : ℕ
score_unit = 100000000

abbrev pub correct_unit : ℕ
correct_unit = 1000000

abbrev pub max_total_ms : ℕ
max_total_ms = 999999

pub record Standing : Type 0 where
  pub player_id : String
  pub score : ℕ
  pub correct : ℕ
  pub total_ms : ℤ

-- min(max(total, 0), maxTotalMs)
abbrev pub clamped_ms : Standing → ℕ
clamped_ms s = min (pos_part s.total_ms) max_total_ms

module _ (f : Float64) where
  unfoldable pub key : Standing → f.F
  key s =
      f.add
        (f.add (f.mul (f.of_int s.score) (f.of_int score_unit))
          (f.mul (f.of_int s.correct) (f.of_int correct_unit)))
        (f.of_int (max_total_ms - clamped_ms s))

  -- sort.SliceStable with the test key(i) > key(j): a standing goes behind those of a larger key.
  unfoldable pub insert : Standing → List Standing → List Standing
  insert s [] = s ∷ []
  insert s (t ∷ ts) = if f.lt (key s) (key t) then t ∷ insert s ts else s ∷ t ∷ ts

  unfoldable pub sort : List Standing → List Standing
  sort [] = []
  sort (s ∷ ss) = insert s (sort ss)

  unfoldable pub order : List Standing → List String
  order standings = map (λ s. s.player_id) (sort standings)
