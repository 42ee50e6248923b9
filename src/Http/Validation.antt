-- ===== src/Http/Validation.antt =====
-- Laws of the validation of a join request and of CSV cells (api/internal/http/handlers.go and results.go).
use Prim.Native.Char.{code}
use Prim.Native.String.{◌++◌}
use Prim.Native.String.append.{cons as cons_append}
use jejak_inderasakti_be.Shared.{
  ℕ, ℤ, pos, negsuc, pos_part, ap, ◌≤◌, ◌≡◌, ◌≢◌, ◌⊎◌, inl, inr, ◌↔◌, refl, String, Bool, true,
  false, not, ◌||◌, List, [], ◌∷◌, Option, none, some, ltb, if◌then◌else◌, same, arith, Bool-cases,
}
use jejak_inderasakti_be.Store.Results.{ResultRow}
use jejak_inderasakti_be.Http.Requests.{
  JoinRequest, Texts, max_nickname_runes, min_avatar, max_avatar, valid_jenjang, valid_lang,
  is_bad_avatar, validate_join, is_formula_char, starts_formula, safe_cell,
}
use jejak_inderasakti_be.Http.Hosting.{safe_row, write_results_csv}

abbrev pub IsJenjang : String → Type 0
IsJenjang s = (s ≡ "SD") ⊎ (s ≡ "SMP") ⊎ (s ≡ "SMA")

abbrev pub IsLang : String → Type 0
IsLang s = (s ≡ "id") ⊎ (s ≡ "en")

-- What the code asks of a join request: a nickname of 1 to 20 characters without control characters, one of
-- the three kinds of school, one of the 12 avatars, and one of the two languages.
abbrev pub IsValidJoin : Texts → JoinRequest → Type 0
IsValidJoin t r =
    (r.nickname ≢ "")
    × (t.rune_count r.nickname ≤ max_nickname_runes)
    × (t.has_control r.nickname ≡ false)
    × IsJenjang r.jenjang
    × ((n : ℕ) × (r.avatar ≡ pos n) × (min_avatar ≤ n) × (n ≤ max_avatar))
    × IsLang r.lang

pub valid_jenjang_iff : (s : String) → (valid_jenjang s ≡ true) ↔ IsJenjang s
unfolding valid_jenjang
valid_jenjang_iff s = ((λ h. ground (arith, h)), (λ h. ground (arith, h)))

valid_lang_iff : (s : String) → (valid_lang s ≡ true) ↔ IsLang s
unfolding valid_lang
valid_lang_iff s = ((λ h. ground (arith, h)), (λ h. ground (arith, h)))

is_bad_avatar_iff :
    (a : ℤ)
    → (is_bad_avatar a ≡ false) ↔ ((n : ℕ) × (a ≡ pos n) × (min_avatar ≤ n) × (n ≤ max_avatar))
unfolding is_bad_avatar
is_bad_avatar_iff (pos n) = (
  (λ h. (n, refl, ground (arith, h), ground (arith, h))),
  (λ (m, e, low, high). let same : n ≡ m = ap pos_part e in ground (arith, same, low, high)),
)
is_bad_avatar_iff (negsuc n) = ((λ h. cc), (λ (m, e, low, high). cc))

-- One test of a validator.
checks_iff :
    (bad : Bool) (message : String) (rest : Option String)
    → ((if bad then some message else rest) ≡ none) ↔ ((bad ≡ false) × (rest ≡ none))
checks_iff true message rest = ((λ h. cc), (λ (h, k). cc))
checks_iff false message rest = ((λ h. (refl, h)), (λ (h, k). k))

-- The validator finds no fault with a join request exactly when the code's own rules allow it: a
-- nickname of 1 to 20 characters without control characters, one of the three kinds of school, an
-- avatar from 1 to 12, and one of the two languages. No words are filtered.
pub validate_join_iff : (t : Texts) (r : JoinRequest) → (validate_join t r ≡ none) ↔ IsValidJoin t r
unfolding validate_join
validate_join_iff t r = (
  (λ h.
      let (name, h1) =
        (checks_iff (same r.nickname "" || ltb max_nickname_runes (t.rune_count r.nickname)) _ _).0
          h in
      let (control, h2) = (checks_iff (t.has_control r.nickname) _ _).0 h1 in
      let (jenjang, h3) = (checks_iff (not (valid_jenjang r.jenjang)) _ _).0 h2 in
      let (avatar, h4) = (checks_iff (is_bad_avatar r.avatar) _ _).0 h3 in
      let (lang, h5) = (checks_iff (not (valid_lang r.lang)) _ _).0 h4 in
      (
        ground (arith, name),
        ground (arith, name),
        control,
        (valid_jenjang_iff r.jenjang).0 (ground (arith, jenjang)),
        (is_bad_avatar_iff r.avatar).0 avatar,
        (valid_lang_iff r.lang).0 (ground (arith, lang)),
      )),
  (λ (name, short, control, jenjang, avatar, lang). (checks_iff _ _ _).1 (
    ground (arith, name, short),
    (checks_iff _ _ _).1 (
      control,
      (checks_iff _ _ _).1 (
        ap not ((valid_jenjang_iff r.jenjang).1 jenjang),
        (checks_iff _ _ _).1 (
          (is_bad_avatar_iff r.avatar).1 avatar,
          (checks_iff _ _ _).1 (ap not ((valid_lang_iff r.lang).1 lang), refl),
        ),
      ),
    ),
  )),
)

quoted : (s : String) → starts_formula ("'" ++ s) ≡ false
unfolding starts_formula is_formula_char
quoted s = ap starts_formula (λ i. cons_append "'" "" s i)

-- An empty text, or one whose first character is none of = + - @, tab and carriage return.
abbrev pub IsInert : String → Type 0
IsInert String.[] = Unit
IsInert (String.◌∷◌ c s) =
    (code c ≢ 61) × (code c ≢ 43) × (code c ≢ 45) × (code c ≢ 64) × (code c ≢ 9) × (code c ≢ 13)

starts_formula-IsInert : (s : String) → starts_formula s ≡ false → IsInert s
unfolding starts_formula is_formula_char
starts_formula-IsInert String.[] e = tt
starts_formula-IsInert (String.◌∷◌ c s) e = (
  (λ f. ground (arith, e, f)),
  (λ f. ground (arith, e, f)),
  (λ f. ground (arith, e, f)),
  (λ f. ground (arith, e, f)),
  (λ f. ground (arith, e, f)),
  (λ f. ground (arith, e, f)),
)

-- A cell that starts no formula: the stored text, or a quote and the stored text.
abbrev pub IsSafe : String → String → Type 0
IsSafe stored cell = IsInert cell × ((cell ≡ stored) ⊎ (cell ≡ "'" ++ stored))

safe_cell-IsSafe : (s : String) → IsSafe s (safe_cell s)
unfolding safe_cell
safe_cell-IsSafe s = elim (Bool-cases (starts_formula s)) [
  | inl e ↦ rw e (starts_formula-IsInert ("'" ++ s) (quoted s), inr refl)
  | inr e ↦ rw e (starts_formula-IsInert s e, inl refl)
]

-- The rows of the file, one for each result and as it says, but with a safe nickname and school.
abbrev pub AreSafe : List ResultRow → List ResultRow → Type 0
AreSafe [] [] = Unit
AreSafe (row ∷ rows) (line ∷ lines) =
    (line ≡ record row { nickname = line.nickname; school = line.school })
    × IsSafe row.nickname line.nickname
    × IsSafe row.school line.school
    × AreSafe rows lines
AreSafe _ _ = ⊥

pub write_results_csv-AreSafe : (rows : List ResultRow) → AreSafe rows (write_results_csv rows)
unfolding write_results_csv safe_row
write_results_csv-AreSafe [] = tt
write_results_csv-AreSafe (row ∷ rows) = (
  refl,
  safe_cell-IsSafe row.nickname,
  safe_cell-IsSafe row.school,
  write_results_csv-AreSafe rows,
)
