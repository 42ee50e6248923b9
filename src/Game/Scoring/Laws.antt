-- ===== src/Game/Scoring/Laws.antt =====
-- The laws of `score` and of the timers.
use Prim.Native.Nat.{zero-le}
use jejak_inderasakti_be.Shared.{
  ℕ, ◌+◌, ◌-◌, ◌*◌, ◌/◌, ◌≤◌, ◌<◌, min, ◌≡◌, subst, ap, ◌∙◌, ◌⊎◌, inl, inr, String, true, false,
  ◌||◌, leb, ℤ, pos_part, Float64, Bool-cases, arith,
}
use jejak_inderasakti_be.Game.Scoring.{
  ScoreInput, base_points, effective_ms, speed_factor, speed_points, score, question_limit,
  reading_grace, network_grace_ms, millisecond, streak_bonus, max_streak_bonus,
}

pub base_points_cases : (level : ℕ) → (k : ℕ) × (base_points level ≡ 5 * k) × (k ≤ 200)
unfolding base_points
base_points_cases level = (base_points level / 5, ground arith, ground arith)

module _ (f : Float64) (i : ScoreInput) where
  open f use {F, of_int, Le, Le_refl, Le_trans}

  one_minus_one : f.sub (of_int 1) (of_int 1) ≡ of_int 0
  one_minus_one = f.sub-of_int 1 1 (omega arith) (omega arith)

  one_minus_zero : f.sub (of_int 1) (of_int 0) ≡ of_int 1
  one_minus_zero = f.sub-of_int 1 0 (omega arith) (omega arith)

  abbrev used : F
  used = f.div (of_int (effective_ms i)) (of_int (i.limit_ms - i.grace_ms))

  -- The share of the reading time that was used lies between 0 and 1.
  effective_le : i.grace_ms < i.limit_ms → effective_ms i ≤ i.limit_ms - i.grace_ms
  unfolding effective_ms
  effective_le h = omega arith

  used_le_one : i.grace_ms < i.limit_ms → Le used (of_int 1)
  used_le_one h =
      subst (Le used) (f.div_self (i.limit_ms - i.grace_ms) (omega arith))
        (f.div_mono _ (omega arith) (f.of_int_mono _ _ (effective_le h)))

  used_nonneg : i.grace_ms < i.limit_ms → Le (of_int 0) used
  used_nonneg h =
      subst (λ z. Le z used) (f.div-zero (i.limit_ms - i.grace_ms) (omega arith))
        (f.div_mono _ (omega arith) (f.of_int_mono _ _ zero-le))

  speed_nonneg : Le (of_int 0) (speed_factor f i)
  unfolding speed_factor
  speed_nonneg = elim (Bool-cases (i.accuracy_mode || leb i.limit_ms i.grace_ms)) [
    | inl e ↦ rw e (f.of_int_mono 0 1 (omega arith))
    | inr e ↦ rw e (
        subst (λ z. Le z (f.sub (of_int 1) used)) one_minus_one
          (f.sub_anti (of_int 1) (used_le_one (ground arith))))
  ]

  speed_le_one : Le (speed_factor f i) (of_int 1)
  unfolding speed_factor
  speed_le_one = elim (Bool-cases (i.accuracy_mode || leb i.limit_ms i.grace_ms)) [
    | inl e ↦ rw e (Le_refl (of_int 1))
    | inr e ↦ rw e (
        subst (Le (f.sub (of_int 1) used)) one_minus_zero
          (f.sub_anti (of_int 1) (used_nonneg (ground arith))))
  ]

-- What a share `s` of the speed part earns at a level.
module _ (f : Float64) where
  open f use {F, of_int, Le, Le_refl, Le_trans}

  abbrev share : F → F
  share s = f.add f.c06 (f.mul f.c04 s)

  abbrev earned : ℕ → F → ℕ
  earned level s = f.round (f.mul (of_int (base_points level)) (share s))

  part_nonneg : {s : F} → Le (of_int 0) s → Le (of_int 0) (f.mul f.c04 s)
  part_nonneg {s} h =
      subst (λ z. Le z (f.mul f.c04 s)) (f.mul-zero f.c04)
        (f.mul_mono f.c04_nonneg (Le_refl f.c04) (Le_refl (of_int 0)) h)

  share_nonneg : {s : F} → Le (of_int 0) s → Le (of_int 0) (share s)
  share_nonneg {s} h =
      subst (λ z. Le z (share s)) (f.add-zero (of_int 0)) (f.add_mono f.c06_nonneg (part_nonneg h))

  base_nonneg : (level : ℕ) → Le (of_int 0) (of_int (base_points level))
  base_nonneg level = f.of_int_mono 0 (base_points level) zero-le

  earned_mono : (level : ℕ) {s t : F} → Le (of_int 0) s → Le s t → earned level s ≤ earned level t
  earned_mono level h k = f.round_mono (
      f.mul_mono (base_nonneg level) (Le_refl _) (share_nonneg h)
        (f.add_mono (Le_refl f.c06) (f.mul_mono f.c04_nonneg (Le_refl f.c04) h k)))

  share_one : share (of_int 1) ≡ of_int 1
  share_one = ap (f.add f.c06) (f.mul-one f.c04) ∙ f.c06-add-c04

  share_zero : share (of_int 0) ≡ f.c06
  share_zero = ap (f.add f.c06) (f.mul-zero f.c04) ∙ f.add-zero f.c06

  earned_full : (level : ℕ) → earned level (of_int 1) ≡ base_points level
  earned_full level =
      ap (λ z. f.round (f.mul (of_int (base_points level)) z)) share_one
      ∙ ap f.round (f.mul-one (of_int (base_points level)))
      ∙ f.round-of_int _ (omega (arith, base_points_cases level))

  earned_none : (level : ℕ) → earned level (of_int 0) * 5 ≡ 3 * base_points level
  earned_none level =
      let (k, e, h) = base_points_cases level in
      let at_zero = ap (λ z. f.round (f.mul (of_int (base_points level)) z)) share_zero in
      let at_k = ap (λ n. f.round (f.mul (of_int n) f.c06)) e in
      omega (arith, at_zero, at_k, f.round-mul-c06 k (omega arith))

effective_mono :
    (i : ScoreInput) (later : ℤ)
    → pos_part i.response_ms ≤ pos_part later
    → effective_ms i ≤ effective_ms (record i { response_ms = later })
unfolding effective_ms
effective_mono i later h = omega arith

speed_anti :
    (f : Float64) (i : ScoreInput) (later : ℤ)
    → pos_part i.response_ms ≤ pos_part later
    → f.Le (speed_factor f (record i { response_ms = later })) (speed_factor f i)
unfolding speed_factor
speed_anti f i later h = elim (Bool-cases (i.accuracy_mode || leb i.limit_ms i.grace_ms)) [
  | inl e ↦ rw e (f.Le_refl (f.of_int 1))
  | inr e ↦ rw e (
      f.sub_anti (f.of_int 1) (
        f.div_mono (i.limit_ms - i.grace_ms) (ground arith)
          (f.of_int_mono _ _ (effective_mono i later h))))
]

-- What `score` promises to one answer.
module _ (f : Float64) (i : ScoreInput) where
  open f use {F, of_int, Le, Le_refl, Le_trans}

  speed_points_le : speed_points f i ≤ base_points i.level
  unfolding speed_points
  speed_points_le =
      subst (λ n. earned f i.level (speed_factor f i) ≤ n) (earned_full f i.level)
        (earned_mono f i.level (speed_nonneg f i) (speed_le_one f i))

  speed_points_floor : 3 * base_points i.level ≤ 5 * speed_points f i
  unfolding speed_points
  speed_points_floor = omega (
    arith,
    earned_none f i.level,
    earned_mono f i.level {t = speed_factor f i} (Le_refl (of_int 0)) (speed_nonneg f i),
  )

  -- An answer earns at most the base points of its level and the largest streak bonus; a correct
  -- answer in time earns at least three fifths of the base points; any other answer earns nothing.
  pub score_bounds :
      (score f i ≤ base_points i.level + max_streak_bonus)
      × (i.correct ≡ true
          → pos_part i.response_ms ≤ i.limit_ms + network_grace_ms
          → 3 * base_points i.level ≤ 5 * score f i)
      × ((i.correct ≡ false) ⊎ (i.limit_ms + network_grace_ms < pos_part i.response_ms)
          → score f i ≡ 0)
  unfolding score
  score_bounds = (ground (arith, speed_points_le), ground (arith, speed_points_floor), ground arith)

  grace_unused : pos_part i.response_ms ≤ i.grace_ms → effective_ms i ≡ 0
  unfolding effective_ms
  grace_unused h = omega arith

  speed_full :
      (i.accuracy_mode ≡ true) ⊎ (pos_part i.response_ms ≤ i.grace_ms) → speed_factor f i ≡ of_int 1
  unfolding speed_factor
  speed_full h = elim (Bool-cases (i.accuracy_mode || leb i.limit_ms i.grace_ms)) [
    | inl e ↦ rw e
    | inr e ↦
        rw (e, grace_unused (ground arith), f.div-zero (i.limit_ms - i.grace_ms) (ground arith))
          (one_minus_zero f i)
  ]

  points_full :
      (i.accuracy_mode ≡ true) ⊎ (pos_part i.response_ms ≤ i.grace_ms)
      → speed_points f i ≡ base_points i.level
  unfolding speed_points
  points_full h = ap (earned f i.level) (speed_full h) ∙ earned_full f i.level

  -- A correct answer within the reading time earns all of the base points, and so does every
  -- correct answer in time in the accuracy mode.
  pub score_full :
      i.correct ≡ true
      → pos_part i.response_ms ≤ i.limit_ms + network_grace_ms
      → (i.accuracy_mode ≡ true) ⊎ (pos_part i.response_ms ≤ i.grace_ms)
      → score f i ≡ base_points i.level + min (streak_bonus * i.streak_before) max_streak_bonus
  unfolding score
  score_full c t h = ground (arith, points_full h)

-- Of two correct answers to a question, the later one earns no more.
pub score_anti :
    (f : Float64) (i : ScoreInput) (later : ℤ)
    → pos_part i.response_ms ≤ pos_part later
    → score f (record i { response_ms = later }) ≤ score f i
unfolding score speed_points
score_anti f i later h = ground (
  arith,
  earned_mono f i.level (speed_nonneg f (record i { response_ms = later }))
      (speed_anti f i later h),
)

pub question_limit_bounds :
    (level : ℕ) (jenjang : String)
    → (question_limit level jenjang ≤ 31250 * millisecond)
      × (1 ≤ level → level ≤ 3 → reading_grace jenjang * millisecond < question_limit level jenjang)
unfolding question_limit reading_grace
question_limit_bounds level jenjang = ground arith
