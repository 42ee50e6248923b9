-- ===== src/Seed/Complete.antt =====
-- The validators on a well formed bank, and on the size of the bank (api/internal/seed/questions.go).
use jejak_inderasakti_be.Shared.{
  skip, sym, ap, Bool-cases, ◌⊎◌, keep, done, Selection, ℕ, suc, zero, ◌≤◌, ◌≡◌, ◌≢◌, ◌↔◌, refl,
  ◌∙◌, ℤ, pos, negsuc, String, Bool, true, false, List, [], ◌∷◌, ◌++◌, length, All, maybe-some,
  Distinct, map, if_elim, arith, inl, inr, ◌==◌, ◌⊎◌, Bool-cases, pos_part, ap, sym, keep, skip,
}
use jejak_inderasakti_be.Seed.{
  Bilingual, Choice, SeedQuestion, Texts, Problem, contains_id, fail_if, is_level, is_zero,
  count_correct, is_blank, validate_id, validate_choices, validate_options, validate_question,
  validate_from, validate_questions, per_site, check_sites, validate_bank_size,
  min_questions_per_site,
}
use jejak_inderasakti_be.Seed.Laws.{
  OneCorrect, InLevels, IsFilled, IsIdentified, IsChoice, HasOptions, IsQuestion, none_of_both,
  not_failed, validate_questions_lem,
}

both_none : {xs ys : List Problem} → xs ≡ [] → ys ≡ [] → xs ++ ys ≡ []
both_none p q = rw (p, q)

passed : (b : Bool) (p : Problem) → b ≡ false → fail_if b p ≡ []
passed b p e = rw e

check_sites-All :
    (sites : List ℕ) (qs : List SeedQuestion)
    → (check_sites sites qs ≡ []) ↔ All (λ s. min_questions_per_site ≤ per_site s qs) sites
unfolding check_sites
check_sites-All [] qs = ((λ _. tt), (λ _. refl))
check_sites-All (site ∷ sites) qs = (
  (λ h.
      let (site_ok, later) = none_of_both _ _ h in
      let enough = not_failed _ _ site_ok in (ground arith, (check_sites-All sites qs).0 later)),
  (λ h. both_none (passed _ _ (ground (arith, h.0))) ((check_sites-All sites qs).1 h.1)),
)

each_site :
    (P : ℕ → Type 0) (site : ℕ) → 1 ≤ site → site ≤ 5 → All P (1 ∷ 2 ∷ 3 ∷ 4 ∷ 5 ∷ []) → P site
each_site P zero lo hi (a, (b, (c, (d, (e, _))))) = absurd (omega (arith, lo))
each_site P (suc zero) lo hi (a, (b, (c, (d, (e, _))))) = a
each_site P (suc (suc zero)) lo hi (a, (b, (c, (d, (e, _))))) = b
each_site P (suc (suc (suc zero))) lo hi (a, (b, (c, (d, (e, _))))) = c
each_site P (suc (suc (suc (suc zero)))) lo hi (a, (b, (c, (d, (e, _))))) = d
each_site P (suc (suc (suc (suc (suc zero))))) lo hi (a, (b, (c, (d, (e, _))))) = e
each_site P (suc (suc (suc (suc (suc (suc n)))))) lo hi h = absurd (omega (arith, hi))

-- At least 12 questions of a site, as a part of the bank.
abbrev pub HasSite : ℕ → List SeedQuestion → Type 0
HasSite site qs =
    (part : List SeedQuestion) × Selection (λ q. q.site ≡ pos site) qs part × (12 ≤ length part)

-- The tally of a site counts a question exactly when it is one of the site.
tally :
    (site : ℕ) (q : SeedQuestion) (qs : List SeedQuestion) (z : ℤ)
    → q.site ≡ z
    → ((q.site ≡ pos site) × (per_site site (q ∷ qs) ≡ suc (per_site site qs)))
      ⊎ ((q.site ≢ pos site) × (per_site site (q ∷ qs) ≡ per_site site qs))
unfolding per_site
tally site q qs (pos m) e = elim (Bool-cases (site == m)) [
  | inl h ↦ let own : m ≡ site = ground (arith, h) in inl (e ∙ ap pos own, rw (e, h) refl)
  | inr h ↦ inr (
    (λ k.
        let both : pos m ≡ pos site = sym e ∙ k in
        let own : m ≡ site = ap pos_part both in ground (arith, h, own)),
    rw (e, h) refl,
  )
]
tally site q qs (negsuc m) e =
    inr ((λ k. let both : negsuc m ≡ pos site = sym e ∙ k in cc), rw e refl)

-- The questions of a site are as many as its tally.
site_part :
    (site : ℕ) (qs : List SeedQuestion)
    → (part : List SeedQuestion) × Selection (λ q. q.site ≡ pos site) qs part
      × (length part ≡ per_site site qs)
unfolding per_site
site_part site [] = ([], done, refl)
site_part site (q ∷ qs) =
    let (part, s, n) = site_part site qs in
    elim (tally site q qs q.site refl) [
      | inl (own, t) ↦ (q ∷ part, keep own s, ap suc n ∙ sym t)
      | inr (foreign, t) ↦ (part, skip foreign s, n ∙ sym t)
    ]

length-Selection :
    (site : ℕ) {qs part : List SeedQuestion}
    → Selection (λ q. q.site ≡ pos site) qs part
    → length part ≡ per_site site qs
unfolding per_site
length-Selection site done = refl
length-Selection site (keep {x = q} {xs = qs} own s) = elim (tally site q qs q.site refl) [
  | inl (_, t) ↦ ap suc (length-Selection site s) ∙ sym t
  | inr (foreign, t) ↦ absurd (foreign own)
]
length-Selection site (skip {x = q} {xs = qs} foreign s) = elim (tally site q qs q.site refl) [
  | inl (own, t) ↦ absurd (foreign own)
  | inr (_, t) ↦ length-Selection site s ∙ sym t
]

HasSite-per_site : (site : ℕ) (qs : List SeedQuestion) → HasSite site qs ↔ (12 ≤ per_site site qs)
HasSite-per_site site qs = (
  (λ (part, s, enough). let n = length-Selection site s in omega (arith, n, enough)),
  (λ enough. let (part, s, n) = site_part site qs in (part, s, omega (arith, n, enough))),
)

-- The validator of the bank's size finds no problem exactly when there are 66 questions, and at least
-- 12 of them are of each of the sites 1 to 5.
pub validate_bank_size_lem :
    (qs : List SeedQuestion)
    → (validate_bank_size qs ≡ [])
      ↔ ((length qs ≡ 66) × ((site : ℕ) → 1 ≤ site → site ≤ 5 → HasSite site qs))
unfolding validate_bank_size
validate_bank_size_lem qs = (
  (λ h.
      let (bank_ok, sites_ok) = none_of_both _ _ h in
      let counted = not_failed _ _ bank_ok in
      (
        ground arith,
        (λ site lo hi. (HasSite-per_site site qs).1 (
            each_site (λ s. 12 ≤ per_site s qs) site lo hi
              ((check_sites-All (1 ∷ 2 ∷ 3 ∷ 4 ∷ 5 ∷ []) qs).0 sites_ok))),
      )),
  (λ h. both_none (passed _ _ (ground (arith, h.0))) (
      (check_sites-All (1 ∷ 2 ∷ 3 ∷ 4 ∷ 5 ∷ []) qs).1 (
        (HasSite-per_site 1 qs).0 (h.1 1 (omega arith) (omega arith)),
        (
          (HasSite-per_site 2 qs).0 (h.1 2 (omega arith) (omega arith)),
          (
            (HasSite-per_site 3 qs).0 (h.1 3 (omega arith) (omega arith)),
            (
              (HasSite-per_site 4 qs).0 (h.1 4 (omega arith) (omega arith)),
              ((HasSite-per_site 5 qs).0 (h.1 5 (omega arith) (omega arith)), tt),
            ),
          ),
        ),
      ))),
)

contains_id_new :
    (id : String) (seen : List String) → All (λ s. s ≢ id) seen → contains_id id seen ≡ false
unfolding contains_id
contains_id_new id [] h = refl
contains_id_new id (s ∷ seen) h = ground (arith, contains_id_new id seen h.1)

count_correct_none : (os : List Choice) → All (λ c. c.correct ≡ false) os → count_correct os ≡ 0
unfolding count_correct
count_correct_none [] h = refl
count_correct_none (o ∷ os) h = ground (arith, count_correct_none os h.1, h.0)

count_correct_one : (os : List Choice) → OneCorrect os → count_correct os ≡ 1
unfolding count_correct
count_correct_one [] h = absurd h
count_correct_one (o ∷ os) (inl h) = ground (arith, count_correct_none os h.1, h.0)
count_correct_one (o ∷ os) (inr h) = ground (arith, count_correct_one os h.1, h.0)

is_level_of : (l : ℤ) → InLevels l → is_level l ≡ true
unfolding is_level
is_level_of (pos n) h = ground arith
is_level_of (negsuc n) h = absurd h

is_zero_of : (l : ℤ) → l ≡ pos 0 → is_zero l ≡ true
unfolding is_zero
is_zero_of l h = rw h

-- Ids that are distinct and not in `seen`, one by one.
abbrev AreNew : List String → List String → Type 0
AreNew seen [] = Unit
AreNew seen (id ∷ ids) = (contains_id id seen ≡ false) × AreNew (id ∷ seen) ids

both_hold :
    (P Q : String → Type 0) (ids : List String) → All P ids → All Q ids → All (λ s. P s × Q s) ids
both_hold P Q [] p q = tt
both_hold P Q (id ∷ ids) p q = ((p.0, q.0), both_hold P Q ids p.1 q.1)

Distinct-AreNew :
    (seen ids : List String)
    → All (λ id. All (λ s. s ≢ id) seen) ids
    → Distinct ids
    → AreNew seen ids
Distinct-AreNew seen [] fresh distinct = tt
Distinct-AreNew seen (id ∷ ids) fresh distinct = (
  contains_id_new id seen fresh.0,
  Distinct-AreNew (id ∷ seen) ids (both_hold _ _ ids distinct.0 fresh.1) distinct.1,
)

nothing_seen : (ids : List String) → All (λ id. All (λ s. s ≢ id) []) ids
nothing_seen [] = tt
nothing_seen (id ∷ ids) = (tt, nothing_seen ids)

module _ (t : Texts) where
  is_blank_of : (b : Bilingual) → IsFilled t b → is_blank t b ≡ false
  unfolding is_blank
  is_blank_of b h = ground (arith, h.0, h.1)

  validate_id_of : (q : SeedQuestion) → IsIdentified t q → validate_id t q ≡ []
  unfolding validate_id
  validate_id_of q (reserved, identified) =
      if_elim (λ z. z ≡ []) (t.is_reserve_id q.id)
        (λ e. passed _ _ (ground (arith, is_zero_of q.site (reserved e))))
        (λ e.
          let (site_ok, level_ok) = identified e in
          maybe-some _ _ site_ok
          ∙ both_none (passed _ _ (ground arith))
              (passed _ _ (ground (arith, is_level_of q.level level_ok))))

  validate_choices_of :
      (id : String) (ids : List String) (os : List Choice)
      → All (IsChoice t) os
      → AreNew ids (map (λ o. o.id) os)
      → validate_choices t id ids os ≡ []
  unfolding validate_choices
  validate_choices_of id ids [] h n = refl
  validate_choices_of id ids (o ∷ os) h n = both_none (passed _ _ (ground (arith, h.0.0, n.0))) (
      both_none (passed _ _ (is_blank_of o.label h.0.1))
        (validate_choices_of id (o.id ∷ ids) os h.1 n.1))

  validate_options_of : (q : SeedQuestion) → HasOptions t q → validate_options t q ≡ []
  unfolding validate_options
  validate_options_of q (lo, hi, e, above, below, choices, distinct, one) =
      maybe-some _ _ e
      ∙ both_none (passed _ _ (ground (arith, above, below))) (
          both_none
            (validate_choices_of q.id [] q.options choices
              (Distinct-AreNew [] (map (λ o. o.id) q.options) (nothing_seen _) distinct))
            (passed _ _ (ground (arith, count_correct_one q.options one))))

  validate_question_of : (q : SeedQuestion) → IsQuestion t q → validate_question t q ≡ []
  unfolding validate_question
  validate_question_of q (identified, prompt, explanation, options) =
      both_none (validate_id_of q identified) (
        both_none (passed _ _ (is_blank_of q.prompt prompt)) (
          both_none (passed _ _ (is_blank_of q.explanation explanation))
            (validate_options_of q options)))

  validate_from_of :
      (seen : List String) (qs : List SeedQuestion)
      → All (IsQuestion t) qs
      → AreNew seen (map (λ q. q.id) qs)
      → validate_from t seen qs ≡ []
  unfolding validate_from
  validate_from_of seen [] h n = refl
  validate_from_of seen (q ∷ qs) h n =
      both_none (passed _ _ n.0)
        (both_none (validate_question_of q h.0) (validate_from_of (q.id ∷ seen) qs h.1 n.1))

  -- The validator finds no problem exactly when the questions have distinct ids and each is well
  -- formed: its site and level fit its id, its texts are there in both languages, and its options are
  -- as many as its type allows, with distinct valid ids, and exactly one is correct.
  pub validate_questions_iff :
      (qs : List SeedQuestion)
      → (validate_questions t qs ≡ []) ↔ (Distinct (map (λ q. q.id) qs) × All (IsQuestion t) qs)
  unfolding validate_questions
  validate_questions_iff qs = (
    validate_questions_lem t qs,
    (λ h.
        validate_from_of [] qs h.1 (Distinct-AreNew [] (map (λ q. q.id) qs) (nothing_seen _) h.0)),
  )
