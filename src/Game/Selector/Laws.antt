-- ===== src/Game/Selector/Laws.antt =====
-- Laws of `select_questions` (api/internal/game/selector.go).
use mathlib.Core.List.{Nodup, Perm}
use jejak_inderasakti_be.Shared.{
  if_elim, same, subst, ℕ, zero, suc, ◌<◌, ◌≡◌, ◌≢◌, refl, sym, ap, ◌∙◌, String, Bool, true, false,
  List, [], ◌∷◌, Option, none, some, if◌then◌else◌, get_elem?, length, All, Distinct, arith,
  Option-cases, inl, inr,
}
use jejak_inderasakti_be.Game.Selector.Buckets.{ids_of, shuffled_buckets-IsPlaced}
use jejak_inderasakti_be.Game.Selector.{
  QuestionRef, Levels, composition, levels_to_ask, Buckets, Taken, take_next, pick, site_cells,
  cells_from, selected, shuffled_buckets, select_questions,
}

-- The ids belong to the cells one by one, each at a place of its bucket that was not taken before.
abbrev pub Matches : Buckets → Taken → List (ℕ × ℕ) → List String → Type 0
Matches buckets taken [] [] = Unit
Matches buckets taken [] (id ∷ ids) = ⊥
Matches buckets taken (c ∷ cells) [] = ⊥
Matches buckets taken ((s, l) ∷ cells) (id ∷ ids) =
    (get_elem? (buckets s l) (taken s l) ≡ some id)
    × Matches buckets (take_next taken s l) cells ids

pub pick-Matches :
    (buckets : Buckets) (taken : Taken) (cells : List (ℕ × ℕ)) (ids : List String)
    → pick buckets taken cells ≡ some ids
    → Matches buckets taken cells ids
unfolding pick
pick-Matches buckets taken [] [] h = tt
pick-Matches buckets taken [] (id ∷ ids) h = cc
pick-Matches buckets taken ((s, l) ∷ cells) [] h = ground arith
pick-Matches buckets taken ((s, l) ∷ cells) (id ∷ ids) h =
    (ground arith, pick-Matches buckets (take_next taken s l) cells ids (ground arith))

pub Matches-length :
    (buckets : Buckets) (taken : Taken) (cells : List (ℕ × ℕ)) (ids : List String)
    → Matches buckets taken cells ids
    → length ids ≡ length cells
Matches-length buckets taken [] [] h = refl
Matches-length buckets taken [] (id ∷ ids) h = absurd h
Matches-length buckets taken (c ∷ cells) [] h = absurd h
Matches-length buckets taken ((s, l) ∷ cells) (id ∷ ids) h =
    ap suc (Matches-length buckets (take_next taken s l) cells ids h.1)

-- An id stands in one place of one bucket.
abbrev pub IsPlaced : Buckets → Type 0
IsPlaced buckets =
    (s l i s' l' i' : ℕ) (id : String)
    → get_elem? (buckets s l) i ≡ some id
    → get_elem? (buckets s' l') i' ≡ some id
    → (s ≡ s') × (l ≡ l') × (i ≡ i')

-- An id that was already taken is not picked again.
not-picked :
    (buckets : Buckets) (taken : Taken) (cells : List (ℕ × ℕ)) (ids : List String) (s l i : ℕ)
    (id : String)
    → IsPlaced buckets
    → get_elem? (buckets s l) i ≡ some id
    → i < taken s l
    → Matches buckets taken cells ids
    → All (λ k. id ≢ k) ids
unfolding take_next
not-picked buckets taken [] [] s l i id u g t m = tt
not-picked buckets taken [] (k ∷ ids) s l i id u g t m = absurd m
not-picked buckets taken (c ∷ cells) [] s l i id u g t m = absurd m
not-picked buckets taken ((s', l') ∷ cells) (k ∷ ids) s l i id u g t m = (
  (λ e. ground (arith, u s l i s' l' (taken s' l') id g (m.0 ∙ ap some (sym e)))),
  not-picked buckets (take_next taken s' l') cells ids s l i id u g (ground arith) m.1,
)

pub pick-Distinct :
    (buckets : Buckets) (taken : Taken) (cells : List (ℕ × ℕ)) (ids : List String)
    → IsPlaced buckets
    → Matches buckets taken cells ids
    → Distinct ids
unfolding take_next
pick-Distinct buckets taken [] [] u m = tt
pick-Distinct buckets taken [] (id ∷ ids) u m = absurd m
pick-Distinct buckets taken (c ∷ cells) [] u m = absurd m
pick-Distinct buckets taken ((s, l) ∷ cells) (id ∷ ids) u m = (
  not-picked buckets (take_next taken s l) cells ids s l (taken s l) id u m.0 (ground arith) m.1,
  pick-Distinct buckets (take_next taken s l) cells ids u m.1,
)

-- A known composition asks for 15 questions, 10 in a short session.
abbrev HasCount : Bool → Option (List Levels) → Type 0
HasCount short none = Unit
HasCount short (some ls) = length (cells_from zero short ls) ≡ (if short then 10 else 15)

composition-HasCount : (jenjang : String) (short : Bool) → HasCount short (composition jenjang)
unfolding composition cells_from site_cells levels_to_ask
composition-HasCount jenjang true =
    if_elim (HasCount true) (same jenjang "SD") (λ e. refl)
      (λ e.
        if_elim (HasCount true) (same jenjang "SMP") (λ e. refl)
          (λ e. if_elim (HasCount true) (same jenjang "SMA") (λ e. refl) (λ e. tt)))
composition-HasCount jenjang false =
    if_elim (HasCount false) (same jenjang "SD") (λ e. refl)
      (λ e.
        if_elim (HasCount false) (same jenjang "SMP") (λ e. refl)
          (λ e. if_elim (HasCount false) (same jenjang "SMA") (λ e. refl) (λ e. tt)))

-- For a pool with distinct ids and a shuffle that keeps the ids of a bucket, the chosen ids of a
-- known jenjang are 15, or 10 in a short session, no id is chosen twice, and they are taken one by
-- one from the buckets of the sites and levels of the composition, in its order.
pub select_questions_lem :
    (shuffle : ℕ → ℕ → List String → List String) (jenjang : String) (short : Bool)
    (pool : List QuestionRef) (ids : List String)
    → ((s l : ℕ) (xs : List String) → Perm xs (shuffle s l xs))
    → Nodup (ids_of pool)
    → select_questions shuffle jenjang short pool ≡ selected ids
    → (ls : List Levels) × (composition jenjang ≡ some ls)
      × (length ids ≡ (if short then 10 else 15))
      × Distinct ids
      × Matches (shuffled_buckets shuffle pool) (λ _ _. zero) (cells_from zero short ls) ids
unfolding select_questions
select_questions_lem shuffle jenjang short pool ids perm n h =
    elim (Option-cases (composition jenjang)) [
      | inl e ↦ cc
      | inr (ls, e) ↦
          elim (Option-cases
            (pick (shuffled_buckets shuffle pool) (λ _ _. zero) (cells_from zero short ls))) [
              | inl g ↦ cc
              | inr (xs, g) ↦
                  let h' : selected xs ≡ selected ids = rw (e, g) at h in
                  let m =
                    pick-Matches (shuffled_buckets shuffle pool) (λ _ _. zero)
                      (cells_from zero short ls) ids (g ∙ ap some (cc)) in
                  (
                    ls,
                    e,
                    Matches-length _ _ _ _ m
                        ∙ subst (HasCount short) e (composition-HasCount jenjang short),
                    pick-Distinct _ _ _ _ (shuffled_buckets-IsPlaced shuffle pool perm n) m,
                    m,
                  )
            ]
    ]
