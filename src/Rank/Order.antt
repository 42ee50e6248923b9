-- ===== src/Rank/Order.antt =====
-- Laws of `order` (api/internal/rank/rank.go).
use mathlib.Core.List.{Perm}
use mathlib.Core.List.Perm
use jejak_inderasakti_be.Shared.{
  ℕ, ◌≤◌, ◌≡◌, refl, List, [], ◌∷◌, map, ltb, ◌==◌, if◌then◌else◌, Float64, All, All-imp,
  Bool-cases, inl, inr, arith,
}
use jejak_inderasakti_be.Rank.{Standing, key, insert, sort, order}
use jejak_inderasakti_be.Rank.Key.{value, InRange, Better, lt-value, value-Better}

-- No standing is better than one that stands before it.
abbrev pub IsRanked : List Standing → Type 0
IsRanked [] = Unit
IsRanked (s ∷ ss) = All (λ t. ¬ Better t s) ss × IsRanked ss

abbrev IsSorted : List Standing → Type 0
IsSorted [] = Unit
IsSorted (s ∷ ss) = All (λ t. value t ≤ value s) ss × IsSorted ss

-- The standings that share a value, in their order.
abbrev pub with_value : ℕ → List Standing → List Standing
with_value v [] = []
with_value v (s ∷ ss) = if value s == v then s ∷ with_value v ss else with_value v ss

module _ (f : Float64) where
  insert-perm : (s : Standing) (xs : List Standing) → Perm (s ∷ xs) (insert f s xs)
  unfolding insert
  insert-perm s [] = Perm.refl (s ∷ [])
  insert-perm s (t ∷ ts) = elim (Bool-cases (f.lt (key f s) (key f t))) [
    | inl e ↦ rw e (Perm.trans (Perm.swap t s ts) (Perm.cons t (insert-perm s ts)))
    | inr e ↦ rw e (Perm.refl (s ∷ t ∷ ts))
  ]

  pub sort-perm : (xs : List Standing) → Perm xs (sort f xs)
  unfolding sort
  sort-perm [] = Perm.refl []
  sort-perm (s ∷ ss) = Perm.trans (Perm.cons s (sort-perm ss)) (insert-perm s (sort f ss))

  All-insert :
      (P : Standing → Type 0) (s : Standing) (xs : List Standing)
      → P s
      → All P xs
      → All P (insert f s xs)
  unfolding insert
  All-insert P s [] p h = (p, tt)
  All-insert P s (t ∷ ts) p h = ground (arith, All-insert P s ts p h.1)

  pub All-sort : (P : Standing → Type 0) (xs : List Standing) → All P xs → All P (sort f xs)
  unfolding sort
  All-sort P [] h = tt
  All-sort P (s ∷ ss) h = All-insert P s (sort f ss) h.0 (All-sort P ss h.1)

  insert-IsSorted :
      (s : Standing) (xs : List Standing)
      → InRange s
      → All InRange xs
      → IsSorted xs
      → IsSorted (insert f s xs)
  unfolding insert
  insert-IsSorted s [] r rs h = (tt, tt)
  insert-IsSorted s (t ∷ ts) r rs h = elim (Bool-cases (ltb (value s) (value t))) [
    | inl e ↦
        rw (lt-value f s t r rs.0, e)
          (
            All-insert (λ u. value u ≤ value t) s ts (ground arith) h.0,
            insert-IsSorted s ts r rs.1 h.1,
          )
    | inr e ↦
        rw (lt-value f s t r rs.0, e) ((ground arith, All-imp _ _ ts (λ u k. ground arith) h.0), h)
  ]

  sort-IsSorted : (xs : List Standing) → All InRange xs → IsSorted (sort f xs)
  unfolding sort
  sort-IsSorted [] h = tt
  sort-IsSorted (s ∷ ss) h =
      insert-IsSorted s (sort f ss) h.0 (All-sort InRange ss h.1) (sort-IsSorted ss h.1)

  insert-with_value :
      (v : ℕ) (s : Standing) (xs : List Standing)
      → InRange s
      → All InRange xs
      → with_value v (insert f s xs) ≡ with_value v (s ∷ xs)
  unfolding insert
  insert-with_value v s [] r rs = refl
  insert-with_value v s (t ∷ ts) r rs =
      ground (arith, lt-value f s t r rs.0, insert-with_value v s ts r rs.1)

  pub sort-with_value :
      (v : ℕ) (xs : List Standing) → All InRange xs → with_value v (sort f xs) ≡ with_value v xs
  unfolding sort
  sort-with_value v [] h = refl
  sort-with_value v (s ∷ ss) h = ground (
    arith,
    insert-with_value v s (sort f ss) h.0 (All-sort InRange ss h.1),
    sort-with_value v ss h.1,
  )

not-Better :
    (s : Standing) (xs : List Standing)
    → InRange s
    → All InRange xs
    → All (λ t. value t ≤ value s) xs
    → All (λ t. ¬ Better t s) xs
not-Better s [] r rs h = tt
not-Better s (t ∷ ts) r rs h =
    ((λ b. omega (arith, (value-Better t s rs.0 r).1 b)), not-Better s ts r rs.1 h.1)

IsSorted-IsRanked : (xs : List Standing) → All InRange xs → IsSorted xs → IsRanked xs
IsSorted-IsRanked [] rs h = tt
IsSorted-IsRanked (s ∷ ss) rs h = (not-Better s ss rs.0 rs.1 h.0, IsSorted-IsRanked ss rs.1 h.1)

-- For standings in range, `order` lists the ids of a permutation of the standings in which none is
-- better than one before it, and standings with equal criteria keep their input order.
pub order_lem :
    (f : Float64) (xs : List Standing)
    → All InRange xs
    → (ys : List Standing) × (order f xs ≡ map (λ s. s.player_id) ys)
      × Perm xs ys
      × IsRanked ys
      × ((v : ℕ) → with_value v ys ≡ with_value v xs)
unfolding order
order_lem f xs h = (
  sort f xs,
  refl,
  sort-perm f xs,
  IsSorted-IsRanked (sort f xs) (All-sort f InRange xs h) (sort-IsSorted f xs h),
  (λ v. sort-with_value f v xs h),
)
