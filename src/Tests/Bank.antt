-- ===== src/Tests/Bank.antt =====
-- The validators of the questions file at a concrete bank.
use jejak_inderasakti_be.Shared.{
  ℕ, zero, suc, ◌≡◌, ◌≤◌, ◌↔◌, refl, pos, String, String-discrete, Bool, true, false, List, [], ◌∷◌,
  none, some, map, length, Distinct, All, same, if◌then◌else◌,
}
use jejak_inderasakti_be.Seed.{
  Bilingual, Choice, SeedQuestion, Texts, correct_count, validate_questions, validate_from,
  validate_question, validate_id, validate_options, validate_choices, is_blank, is_level,
  contains_id, count_correct, option_count_by_type, validate_bank_size, per_site, check_sites,
}
use jejak_inderasakti_be.Seed.Laws.{IsQuestion}
use jejak_inderasakti_be.Seed.Complete.{HasSite, validate_questions_iff, validate_bank_size_lem}

-- The patterns on the texts of this bank.
abbrev texts : Texts
texts = record {
  is_reserve_id = λ s. same s "X-01";
  is_option_id = λ s. if same s "opt-a" then true else same s "opt-b";
  site_of_id = λ s. if same s "M1-01" then some "1" else none;
  trim_space = λ s. s;
  sprint = λ n. "1";
}

abbrev both : String → Bilingual
both s = record { id = s; en = s }

abbrev choice : String → Bool → Choice
choice id correct = record { id = id; label = both id; correct = correct }

abbrev question : List Choice → SeedQuestion
question options = record {
  id = "M1-01";
  site = pos 1;
  level = pos 2;
  kind = "tf";
  prompt = both "Benar?";
  options = options;
  explanation = both "Ya.";
  active = none;
}

abbrev bank : List SeedQuestion
bank = question (choice "opt-a" true ∷ choice "opt-b" false ∷ []) ∷ []

bank_run : validate_questions texts bank ≡ []
unfolding validate_questions validate_from validate_question validate_id validate_options
    validate_choices is_blank is_level contains_id count_correct option_count_by_type
    String-discrete
bank_run = refl

two_correct_run :
    validate_questions texts (question (choice "opt-a" true ∷ choice "opt-b" true ∷ []) ∷ [])
    ≡ correct_count "M1-01" ∷ []
unfolding validate_questions validate_from validate_question validate_id validate_options
    validate_choices is_blank is_level contains_id count_correct option_count_by_type
    String-discrete
two_correct_run = refl

validate_questions_iff_example :
    (validate_questions texts bank ≡ [])
    ↔ (Distinct (map (λ q. q.id) bank) × All (IsQuestion texts) bank)
validate_questions_iff_example = validate_questions_iff texts bank

-- Twelve questions for each site, and six more.
abbrev of_site : ℕ → ℕ → List SeedQuestion → List SeedQuestion
of_site site zero qs = qs
of_site site (suc n) qs = record (question []) { site = pos site } ∷ of_site site n qs

abbrev full_bank : List SeedQuestion
full_bank =
    of_site 1 12 (of_site 2 12 (of_site 3 12 (of_site 4 12 (of_site 5 12 (of_site 0 6 [])))))

full_bank_run : validate_bank_size full_bank ≡ []
unfolding validate_bank_size check_sites per_site
full_bank_run = refl

validate_bank_size_lem_example :
    (validate_bank_size full_bank ≡ [])
    ↔ ((length full_bank ≡ 66) × ((site : ℕ) → 1 ≤ site → site ≤ 5 → HasSite site full_bank))
validate_bank_size_lem_example = validate_bank_size_lem full_bank
