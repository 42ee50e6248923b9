-- ===== src/Seed/Laws.antt =====
-- What a well formed bank is, and what the validators say of a bank without problems
-- (api/internal/seed/questions.go).
use jejak_inderasakti_be.Shared.{
  ℕ, suc, zero, ◌≤◌, ◌≡◌, ◌≢◌, refl, sym, ap, ◌∙◌, ℤ, pos, negsuc, String, Bool, true, false, not,
  List, [], ◌∷◌, ◌++◌, some, same, length, All, All-imp, if_true, maybe-some, Distinct, map, arith,
  Bool-cases, Option-cases, inl, inr, ◌⊎◌,
}
use jejak_inderasakti_be.Seed.{
  Bilingual, Choice, SeedQuestion, Texts, Problem, malformed_id, unknown_type, wrong_site,
  wrong_level, option_count_by_type, contains_id, fail_if, is_level, is_zero, count_correct,
  is_blank, validate_id, validate_choices, validate_options, validate_question, validate_from,
  validate_questions,
}

-- Exactly one option is correct.
abbrev pub OneCorrect : List Choice → Type 0
OneCorrect [] = ⊥
OneCorrect (o ∷ os) =
    ((o.correct ≡ true) × All (λ c. c.correct ≡ false) os) ⊎ ((o.correct ≡ false) × OneCorrect os)

abbrev pub InLevels : ℤ → Type 0
InLevels (pos n) = (1 ≤ n) × (n ≤ 3)
InLevels (negsuc n) = ⊥

module _ (t : Texts) where
  -- A text in both languages.
  abbrev pub IsFilled : Bilingual → Type 0
  IsFilled b = (t.trim_space b.id ≢ "") × (t.trim_space b.en ≢ "")

  -- A reserve question is of site 0, and any other question of the site in its id and of level 1 to 3.
  abbrev pub IsIdentified : SeedQuestion → Type 0
  IsIdentified q =
      (t.is_reserve_id q.id ≡ true → q.site ≡ pos 0)
      × (t.is_reserve_id q.id ≡ false
          → (t.site_of_id q.id ≡ some (t.sprint q.site)) × InLevels q.level)

  abbrev pub IsChoice : Choice → Type 0
  IsChoice o = (t.is_option_id o.id ≡ true) × IsFilled o.label

  -- As many options as the type allows, with distinct ids, and one of them correct.
  abbrev pub HasOptions : SeedQuestion → Type 0
  HasOptions q =
      (lo hi : ℕ) × (option_count_by_type q.kind ≡ some (lo, hi))
      × (lo ≤ length q.options)
      × (length q.options ≤ hi)
      × All IsChoice q.options
      × Distinct (map (λ o. o.id) q.options)
      × OneCorrect q.options

  abbrev pub IsQuestion : SeedQuestion → Type 0
  IsQuestion q = IsIdentified q × IsFilled q.prompt × IsFilled q.explanation × HasOptions q

pub none_of_both : (xs ys : List Problem) → xs ++ ys ≡ [] → (xs ≡ []) × (ys ≡ [])
none_of_both [] ys h = (refl, h)
none_of_both (x ∷ xs) ys h = ground arith

pub not_failed : (b : Bool) (p : Problem) → fail_if b p ≡ [] → b ≡ false
not_failed true p h = ground arith
not_failed false p h = refl

neither_failed :
    (b c : Bool) (p q : Problem) → fail_if b p ++ fail_if c q ≡ [] → (b ≡ false) × (c ≡ false)
neither_failed b c p q h =
    let (x, y) = none_of_both (fail_if b p) (fail_if c q) h in (not_failed b p x, not_failed c q y)

contains_id-All :
    (id : String) (seen : List String) → contains_id id seen ≡ false → All (λ s. s ≢ id) seen
unfolding contains_id
contains_id-All id [] h = tt
contains_id-All id (s ∷ seen) h = (ground arith, contains_id-All id seen (ground arith))

no_correct : (os : List Choice) → count_correct os ≡ 0 → All (λ c. c.correct ≡ false) os
unfolding count_correct
no_correct [] h = tt
no_correct (o ∷ os) h = (ground arith, no_correct os (ground arith))

count_correct-OneCorrect : (os : List Choice) → count_correct os ≡ 1 → OneCorrect os
unfolding count_correct
count_correct-OneCorrect [] h = ground arith
count_correct-OneCorrect (o ∷ os) h = elim (Bool-cases o.correct) [
  | inl e ↦ inl (e, no_correct os (ground arith))
  | inr e ↦ inr (e, count_correct-OneCorrect os (ground arith))
]

is_level-InLevels : (l : ℤ) → is_level l ≡ true → InLevels l
unfolding is_level
is_level-InLevels (pos n) h = (ground arith, ground arith)
is_level-InLevels (negsuc n) h = ground arith

is_zero_lem : (l : ℤ) → is_zero l ≡ true → l ≡ pos 0
unfolding is_zero
is_zero_lem (pos zero) h = refl
is_zero_lem (pos (suc n)) h = ground arith
is_zero_lem (negsuc n) h = ground arith

-- The ids are distinct, and none is in `seen`.
abbrev AreNew : List String → List String → Type 0
AreNew seen ids = All (λ id. All (λ s. s ≢ id) seen) ids × Distinct ids

-- An id that is not in `seen`, and ids that are new after it.
cons-AreNew :
    (id : String) (seen ids : List String)
    → contains_id id seen ≡ false
    → AreNew (id ∷ seen) ids
    → AreNew seen (id ∷ ids)
cons-AreNew id seen ids h (fresh, distinct) = (
  (
    contains_id-All id seen h,
    All-imp (λ k. All (λ s. s ≢ k) (id ∷ seen)) (λ k. All (λ s. s ≢ k) seen) ids (λ k a. a.1) fresh,
  ),
  (All-imp (λ k. All (λ s. s ≢ k) (id ∷ seen)) (λ k. id ≢ k) ids (λ k a. a.0) fresh, distinct),
)

nothing_new : (ids : List String) → AreNew ids []
nothing_new ids = (tt, tt)

module _ (t : Texts) where
  is_blank-IsFilled : (b : Bilingual) → is_blank t b ≡ false → IsFilled t b
  unfolding is_blank
  is_blank-IsFilled b h = (ground arith, ground arith)

  validate_id-IsIdentified : (q : SeedQuestion) → validate_id t q ≡ [] → IsIdentified t q
  unfolding validate_id
  validate_id-IsIdentified q h = (reserved, identified)
    where
      reserved : t.is_reserve_id q.id ≡ true → q.site ≡ pos 0
      reserved e = is_zero_lem q.site (ground (arith, not_failed _ _ (sym (if_true _ _ e) ∙ h)))

      identified :
          t.is_reserve_id q.id ≡ false
          → (t.site_of_id q.id ≡ some (t.sprint q.site)) × InLevels q.level
      identified e = elim (Option-cases (t.site_of_id q.id)) [
        | inl f ↦ let bad : malformed_id q.id ∷ [] ≡ [] = rw (e, f) at h in absurd (ground arith)
        | inr (digit, f) ↦
            let (digit_ok, level_ok) =
              neither_failed (not (same digit (t.sprint q.site))) (not (is_level q.level))
                (wrong_site q.id) (wrong_level q.id) (rw (e, f) at h) in
            (
              f ∙ ap some (ground (arith, digit_ok)),
              is_level-InLevels q.level (ground (arith, level_ok)),
            )
      ]

  validate_choices_lem :
      (id : String) (ids : List String) (os : List Choice)
      → validate_choices t id ids os ≡ []
      → All (IsChoice t) os × AreNew ids (map (λ o. o.id) os)
  unfolding validate_choices
  validate_choices_lem id ids [] h = (tt, nothing_new ids)
  validate_choices_lem id ids (o ∷ os) h =
      let (id_ok, rest) = none_of_both _ _ h in
      let (label_ok, later) = none_of_both _ _ rest in
      let (choices, new) = validate_choices_lem id (o.id ∷ ids) os later in
      let ok = not_failed _ _ id_ok in
      (
        ((ground arith, is_blank-IsFilled o.label (not_failed _ _ label_ok)), choices),
        cons-AreNew o.id ids (map (λ o. o.id) os) (ground arith) new,
      )

  validate_options-HasOptions : (q : SeedQuestion) → validate_options t q ≡ [] → HasOptions t q
  unfolding validate_options
  validate_options-HasOptions q h = elim (Option-cases (option_count_by_type q.kind)) [
    | inl e ↦ let bad : unknown_type q.id ∷ [] ≡ [] = rw e at h in absurd (ground arith)
    | inr ((lo, hi), e) ↦
        let (count_ok, rest) = none_of_both _ _ (sym (maybe-some _ _ e) ∙ h) in
        let (choices_ok, correct_ok) = none_of_both _ _ rest in
        let (choices, new) = validate_choices_lem q.id [] q.options choices_ok in
        let bounds = not_failed _ _ count_ok in
        let one = not_failed _ _ correct_ok in
        (
          lo,
          hi,
          e,
          ground arith,
          ground arith,
          choices,
          new.1,
          count_correct-OneCorrect q.options (ground arith),
        )
  ]

  validate_question-IsQuestion : (q : SeedQuestion) → validate_question t q ≡ [] → IsQuestion t q
  unfolding validate_question
  validate_question-IsQuestion q h =
      let (id_ok, rest) = none_of_both _ _ h in
      let (prompt_ok, rest') = none_of_both _ _ rest in
      let (explanation_ok, options_ok) = none_of_both _ _ rest' in
      (
        validate_id-IsIdentified q id_ok,
        is_blank-IsFilled q.prompt (not_failed _ _ prompt_ok),
        is_blank-IsFilled q.explanation (not_failed _ _ explanation_ok),
        validate_options-HasOptions q options_ok,
      )

  validate_from_lem :
      (seen : List String) (qs : List SeedQuestion)
      → validate_from t seen qs ≡ []
      → All (IsQuestion t) qs × AreNew seen (map (λ q. q.id) qs)
  unfolding validate_from
  validate_from_lem seen [] h = (tt, nothing_new seen)
  validate_from_lem seen (q ∷ qs) h =
      let (new_ok, rest) = none_of_both _ _ h in
      let (question_ok, later) = none_of_both _ _ rest in
      let (questions, new) = validate_from_lem (q.id ∷ seen) qs later in
      (
        (validate_question-IsQuestion q question_ok, questions),
        cons-AreNew q.id seen (map (λ q. q.id) qs) (not_failed _ _ new_ok) new,
      )

  -- If the validator finds no problem, the questions have distinct ids, and each is well formed: its
  -- site and level fit its id, its texts are there in both languages, and its options are as many as
  -- its type allows, with distinct valid ids, and exactly one is correct.
  pub validate_questions_lem :
      (qs : List SeedQuestion)
      → validate_questions t qs ≡ []
      → Distinct (map (λ q. q.id) qs) × All (IsQuestion t) qs
  unfolding validate_questions
  validate_questions_lem qs h =
      let (questions, new) = validate_from_lem [] qs h in (new.1, questions)
