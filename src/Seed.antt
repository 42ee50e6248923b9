-- ===== src/Seed.antt =====
-- api/internal/seed/questions.go: what the questions file must satisfy before it is stored.
pub mod Laws
pub mod Complete
use jejak_inderasakti_be.Shared.{
  ℕ, suc, zero, ◌+◌, ℤ, pos, negsuc, String, Bool, true, false, not, ◌&&◌, ◌||◌, List, [], ◌∷◌,
  ◌++◌, Option, none, some, ltb, leb, ◌==◌, if◌then◌else◌, same, maybe, length,
}

abbrev pub expected_question_count : ℕ
expected_question_count = 66

abbrev pub min_questions_per_site : ℕ
min_questions_per_site = 12

pub record Bilingual : Type 0 where
  pub id : String
  pub en : String

pub record Choice : Type 0 where
  pub id : String
  pub label : Bilingual
  pub correct : Bool

pub record SeedQuestion : Type 0 where
  pub id : String
  pub site : ℤ
  pub level : ℤ
  pub kind : String
  pub prompt : Bilingual
  pub options : List Choice
  pub explanation : Bilingual
  pub active : Option Bool

unfoldable pub is_active : SeedQuestion → Bool
is_active q = maybe q.active true (λ b. b)

-- Packages regexp, strings and fmt: whether a text matches `reserveIDPattern` and `optionIDPattern`,
-- the digit in a match of `questionIDPattern`, `strings.TrimSpace`, and `fmt.Sprint` of an int.
pub record Texts : Type 0 where
  pub is_reserve_id : String → Bool
  pub is_option_id : String → Bool
  pub site_of_id : String → Option String
  pub trim_space : String → String
  pub sprint : ℤ → String

-- One problem for each message of the validators; the first text is the question's id.
pub data Problem : Type 0 where
  duplicate_id blank_prompt blank_explanation reserve_site malformed_id : String → Problem
  wrong_site wrong_level unknown_type option_count correct_count : String → Problem
  -- question, option
  bad_option_id blank_label : String → String → Problem
  bank_count : ℕ → Problem
  site_count : ℕ → ℕ → Problem

-- The bounds on the options of a type of question.
unfoldable pub option_count_by_type : String → Option (ℕ × ℕ)
option_count_by_type kind =
    if same kind "mc"
    then some (2, 4)
    else if same kind "tf"
    then some (2, 2)
    else if same kind "fill"
    then some (2, 4)
    else none

unfoldable pub contains_id : String → List String → Bool
contains_id id [] = false
contains_id id (s ∷ seen) = same id s || contains_id id seen

-- `fail` where the test holds.
abbrev pub fail_if : Bool → Problem → List Problem
fail_if true p = p ∷ []
fail_if false p = []

unfoldable pub is_level : ℤ → Bool
is_level (pos n) = not (ltb n 1 || ltb 3 n)
is_level (negsuc n) = false

unfoldable pub is_zero : ℤ → Bool
is_zero (pos zero) = true
is_zero (pos (suc n)) = false
is_zero (negsuc n) = false

unfoldable pub count_correct : List Choice → ℕ
count_correct [] = 0
count_correct (o ∷ os) = let rest = count_correct os in if o.correct then suc rest else rest

module _ (t : Texts) where
  unfoldable pub is_blank : Bilingual → Bool
  is_blank b = same (t.trim_space b.id) "" || same (t.trim_space b.en) ""

  unfoldable pub validate_id : SeedQuestion → List Problem
  validate_id q =
      if t.is_reserve_id q.id
      then fail_if (not (is_zero q.site)) (reserve_site q.id)
      else maybe (t.site_of_id q.id) (malformed_id q.id ∷ []) (λ digit.
        fail_if (not (same digit (t.sprint q.site))) (wrong_site q.id)
        ++ fail_if (not (is_level q.level)) (wrong_level q.id))

  -- The loop over the options, with the ids seen before.
  unfoldable pub validate_choices : String → List String → List Choice → List Problem
  validate_choices id ids [] = []
  validate_choices id ids (o ∷ os) =
      fail_if (not (t.is_option_id o.id) || contains_id o.id ids) (bad_option_id id o.id)
      ++ (fail_if (is_blank o.label) (blank_label id o.id) ++ validate_choices id (o.id ∷ ids) os)

  unfoldable pub validate_options : SeedQuestion → List Problem
  validate_options q = maybe (option_count_by_type q.kind) (unknown_type q.id ∷ []) (λ bounds.
      fail_if (ltb (length q.options) bounds.0 || ltb bounds.1 (length q.options))
        (option_count q.id)
      ++ (validate_choices q.id [] q.options
          ++ fail_if (not (count_correct q.options == 1)) (correct_count q.id)))

  unfoldable pub validate_question : SeedQuestion → List Problem
  validate_question q =
      validate_id q
      ++ (fail_if (is_blank q.prompt) (blank_prompt q.id)
          ++ (fail_if (is_blank q.explanation) (blank_explanation q.id) ++ validate_options q))

  -- The loop over the questions, with the ids seen before.
  unfoldable pub validate_from : List String → List SeedQuestion → List Problem
  validate_from seen [] = []
  validate_from seen (q ∷ qs) =
      fail_if (contains_id q.id seen) (duplicate_id q.id)
      ++ (validate_question q ++ validate_from (q.id ∷ seen) qs)

  -- No problem stands for the error nil.
  unfoldable pub validate_questions : List SeedQuestion → List Problem
  validate_questions qs = validate_from [] qs

-- perSite[site]
unfoldable pub per_site : ℕ → List SeedQuestion → ℕ
per_site site [] = 0
per_site site (q ∷ qs) =
    let rest = per_site site qs in if is_site site q.site then suc rest else rest
  where
    is_site : ℕ → ℤ → Bool
    is_site n (pos m) = n == m
    is_site n (negsuc m) = false

unfoldable pub check_sites : List ℕ → List SeedQuestion → List Problem
check_sites [] qs = []
check_sites (site ∷ sites) qs =
    fail_if (ltb (per_site site qs) min_questions_per_site) (site_count site (per_site site qs))
    ++ check_sites sites qs

unfoldable pub validate_bank_size : List SeedQuestion → List Problem
validate_bank_size qs =
    fail_if (not (length qs == expected_question_count)) (bank_count (length qs))
    ++ check_sites (1 ∷ 2 ∷ 3 ∷ 4 ∷ 5 ∷ []) qs
