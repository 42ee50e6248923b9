-- ===== src/Store/Loaded.antt =====
-- What the store loads for a room (api/internal/store/gameplay.go, QuestionsByIDs).
use jejak_inderasakti_be.Shared.{
  subst, All, All-imp, ◌⊎◌, ◌≡◌, String, Bool, List, [], ◌∷◌, Option, none, some, maybe,
  if◌then◌else◌, same, arith, if_elim, maybe_elim, Option-cases, inl, inr,
}
use jejak_inderasakti_be.Store.Types.{Question, Fallible, ok}
use jejak_inderasakti_be.Store.Database.{Database, QuestionRow}
use jejak_inderasakti_be.Store.Questions.{
  has_text, QuestionJson, get_questions_by_ids, question_from_row, questions_from_rows, by_id,
  ordered, questions_by_ids,
}

-- The question is the decoded form of a row.
abbrev pub IsStored : QuestionJson → List QuestionRow → Question → Type 0
IsStored json [] q = ⊥
IsStored json (row ∷ rows) q = (question_from_row json row ≡ some q) ⊎ IsStored json rows q

-- The questions, one for each id in the order of the ids, each decoded from a row of the table.
abbrev pub AreLoaded : QuestionJson → List QuestionRow → List String → List Question → Type 0
AreLoaded json rows [] [] = Unit
AreLoaded json rows (id ∷ ids) (q ∷ qs) =
    (q.id ≡ id) × IsStored json rows q × AreLoaded json rows ids qs
AreLoaded json rows _ _ = ⊥

by_id_lem :
    (id : String) (P : Question → Type 0) (known : List Question) (q : Question)
    → All P known
    → by_id id known ≡ some q
    → (q.id ≡ id) × P q
unfolding by_id
by_id_lem id P [] q h e = cc
by_id_lem id P (k ∷ known) q h e = elim (Option-cases (by_id id known)) [
  | inr (later, f) ↦
      let found : later ≡ q = ground (arith, e, f) in
      subst (λ z. (z.id ≡ id) × P z) found (by_id_lem id P known later h.1 f)
  | inl f ↦ let (own, found) = first e f in (subst (λ z. z.id ≡ id) found own, subst P found h.0)
]
  where
    first :
        maybe (by_id id known) (if same k.id id then some k else none) some ≡ some q
        → by_id id known ≡ none
        → (k.id ≡ id) × (k ≡ q)
    first e f = (ground (arith, e, f), ground (arith, e, f))

module _ (json : QuestionJson) where
  questions_from_rows-IsStored :
      (rows : List QuestionRow) (known : List Question)
      → questions_from_rows json rows ≡ some known
      → All (IsStored json rows) known
  unfolding questions_from_rows
  questions_from_rows-IsStored [] known e = subst (All (IsStored json [])) (first e) tt
    where
      first : {known : List Question} → some [] ≡ some known → [] ≡ known
      first e = cc
  questions_from_rows-IsStored (row ∷ rows) known e =
      let P : Option (List Question) → Type 0 =
        λ z. z ≡ some known → All (IsStored json (row ∷ rows)) known in
      maybe_elim P (question_from_row json row) (λ _ f. cc)
        (λ q read.
          maybe_elim P (questions_from_rows json rows) (λ _ f. cc)
            (λ rest g f.
              let whole : q ∷ rest ≡ known = cc in
              subst (All (IsStored json (row ∷ rows))) whole (
                inl read,
                All-imp (IsStored json rows) (IsStored json (row ∷ rows)) rest (λ z k. inr k)
                    (questions_from_rows-IsStored rows rest g),
              )))
        e

  get_questions_by_ids-IsStored :
      (ids : List String) (rows : List QuestionRow) (q : Question)
      → IsStored json (get_questions_by_ids ids rows) q
      → IsStored json rows q
  unfolding get_questions_by_ids
  get_questions_by_ids-IsStored ids [] q h = h
  get_questions_by_ids-IsStored ids (row ∷ rows) q h =
      if_elim (λ kept. IsStored json kept q → IsStored json (row ∷ rows) q) (has_text row.id ids)
        (λ _ k. elim k [
          | inl own ↦ inl own
          | inr later ↦ inr (get_questions_by_ids-IsStored ids rows q later)
        ])
        (λ _ k. inr (get_questions_by_ids-IsStored ids rows q k)) h

  ordered-AreLoaded :
      (rows : List QuestionRow) (known : List Question) (ids : List String) (qs : List Question)
      → All (IsStored json rows) known
      → ordered ids known ≡ some qs
      → AreLoaded json rows ids qs
  unfolding ordered
  ordered-AreLoaded rows known [] qs h e = subst (AreLoaded json rows []) (first e) tt
    where
      first : {qs : List Question} → some [] ≡ some qs → [] ≡ qs
      first e = cc
  ordered-AreLoaded rows known (id ∷ ids) qs h e =
      let P : Option (List Question) → Type 0 =
        λ z. z ≡ some qs → AreLoaded json rows (id ∷ ids) qs in
      maybe_elim P (by_id id known) (λ _ f. cc)
        (λ q found.
          maybe_elim P (ordered ids known) (λ _ f. cc)
            (λ rest g f.
              let whole : q ∷ rest ≡ qs = cc in
              let (own, stored) = by_id_lem id (IsStored json rows) known q h found in
              subst (AreLoaded json rows (id ∷ ids)) whole
                (own, stored, ordered-AreLoaded rows known ids rest h g)))
        e

  -- The questions that are loaded for a list of ids are one for each id, in the order of the ids, each
  -- the decoded form of a row of the table.
  pub questions_by_ids-AreLoaded :
      (fails : Bool) (ids : List String) (db : Database) (qs : List Question)
      → questions_by_ids json fails ids db ≡ ok qs
      → AreLoaded json db.questions ids qs
  unfolding questions_by_ids
  questions_by_ids-AreLoaded fails ids db qs e =
      let P : Fallible (List Question) → Type 0 =
        λ z. z ≡ ok qs → AreLoaded json db.questions ids qs in
      if_elim P fails (λ _ f. cc)
        (λ _.
          maybe_elim P (questions_from_rows json (get_questions_by_ids ids db.questions))
            (λ _ f. cc)
            (λ known read.
              let stored =
                All-imp (IsStored json (get_questions_by_ids ids db.questions))
                  (IsStored json db.questions) known
                  (get_questions_by_ids-IsStored ids db.questions)
                  (questions_from_rows-IsStored (get_questions_by_ids ids db.questions) known
                    read) in
              maybe_elim P (ordered ids known) (λ _ f. cc)
                (λ qs' g f.
                  let same_qs : qs' ≡ qs = cc in
                  subst (AreLoaded json db.questions ids) same_qs
                    (ordered-AreLoaded db.questions known ids qs' stored g))))
        e
