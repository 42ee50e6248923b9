-- ===== src/Rank/Key.antt =====
-- Laws of `key` (api/internal/rank/rank.go).
use jejak_inderasakti_be.Shared.{
  ℕ, ◌+◌, ◌-◌, ◌*◌, ◌≤◌, ◌<◌, ◌≡◌, refl, ◌↔◌, ◌⊎◌, true, ltb, Float64, max_exact, ◌∙◌, ap₂, arith,
}
use jejak_inderasakti_be.Rank.{Standing, key, clamped_ms, score_unit, correct_unit, max_total_ms}

-- The number that the key stands for.
pub value : Standing → ℕ
value s = s.score * score_unit + s.correct * correct_unit + (max_total_ms - clamped_ms s)

-- The ranges in which the key is exact.
pub record InRange (s : Standing) : Type 0 where
  pub score_small : s.score ≤ 90000000
  pub correct_small : s.correct < 100

-- `a` is strictly better than `b`.
abbrev pub Better : Standing → Standing → Type 0
Better a b =
    (b.score < a.score)
    ⊎ ((a.score ≡ b.score) × (b.correct < a.correct))
    ⊎ ((a.score ≡ b.score) × (a.correct ≡ b.correct) × (clamped_ms a < clamped_ms b))

pub key-value : (f : Float64) (s : Standing) → InRange s → key f s ≡ f.of_int (value s)
unfolding key value
key-value f s r =
    ap₂ f.add
      (ap₂ f.add (f.mul-of_int s.score score_unit (omega arith))
          (f.mul-of_int s.correct correct_unit (omega arith))
        ∙ f.add-of_int _ _ (omega arith))
      refl
    ∙ f.add-of_int _ _ (omega arith)

value-exact : (s : Standing) → InRange s → value s ≤ max_exact
unfolding value
value-exact s r = omega arith

pub lt-value :
    (f : Float64) (a b : Standing)
    → InRange a
    → InRange b
    → f.lt (key f a) (key f b) ≡ ltb (value a) (value b)
lt-value f a b p q =
    rw (key-value f a p, key-value f b q) (f.lt-of_int _ _ (value-exact a p) (value-exact b q))

pub value-Better : (a b : Standing) → InRange a → InRange b → (value b < value a) ↔ Better a b
unfolding value
value-Better a b p q = ground arith

-- For standings of a score up to 90 million and fewer than 100 correct answers, one key is above
-- another exactly when its standing has the higher score, or as high a score and more correct
-- answers, or the same two and less time (each time clamped to 0 .. 999,999 ms).
pub key-Better :
    (f : Float64) (a b : Standing)
    → InRange a
    → InRange b
    → (f.lt (key f b) (key f a) ≡ true) ↔ Better a b
key-Better f a b p q = rw (lt-value f b a q p) (
  (λ e. (value-Better a b p q).0 (ground arith)),
  (λ h. ground (arith, (value-Better a b p q).1 h)),
)
