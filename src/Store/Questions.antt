-- ===== src/Store/Questions.antt =====
-- api/internal/store/gameplay.go, QuestionsByIDs, and store.go, QuestionPool, with the statements of
-- api/internal/store/queries/questions.sql.go.
use jejak_inderasakti_be.Shared.{
  String, Bool, false, ◌&&◌, ◌||◌, List, [], ◌∷◌, Option, none, some, leb, if◌then◌else◌, same,
  maybe,
}
use jejak_inderasakti_be.Game.Selector.{QuestionRef}
use jejak_inderasakti_be.Store.Types.{
  Text, AnswerOption, Question, not_found, other, Fallible, ok, err,
}
use jejak_inderasakti_be.Store.Database.{Database, QuestionRow}

-- json.Unmarshal, on the columns of a question.
pub record QuestionJson : Type 0 where
  pub text : String → Option Text
  pub options : String → Option (List AnswerOption)

unfoldable pub has_text : String → List String → Bool
has_text s [] = false
has_text s (t ∷ ts) = same s t || has_text s ts

-- WHERE id = ANY($1)
unfoldable pub get_questions_by_ids : List String → List QuestionRow → List QuestionRow
get_questions_by_ids ids [] = []
get_questions_by_ids ids (row ∷ rows) =
    let rest = get_questions_by_ids ids rows in if has_text row.id ids then row ∷ rest else rest

-- WHERE active = TRUE AND site BETWEEN 1 AND 5. The table is in the order of its ids.
unfoldable pub list_selectable_questions : List QuestionRow → List QuestionRef
list_selectable_questions [] = []
list_selectable_questions (row ∷ rows) =
    let rest = list_selectable_questions rows in
    if row.active && leb 1 row.site && leb row.site 5
    then record { id = row.id; site = row.site; level = row.level } ∷ rest
    else rest

unfoldable pub question_pool : Bool → Database → Fallible (List QuestionRef)
question_pool fails db = if fails then err other else ok (list_selectable_questions db.questions)

-- byID[id]: of two questions with one id the later stays.
unfoldable pub by_id : String → List Question → Option Question
by_id id [] = none
by_id id (q ∷ qs) =
    let rest = by_id id qs in maybe rest (if same q.id id then some q else none) some

unfoldable pub ordered : List String → List Question → Option (List Question)
ordered [] known = some []
ordered (id ∷ ids) known =
    maybe (by_id id known) none
      (λ question. maybe (ordered ids known) none (λ rest. some (question ∷ rest)))

module _ (json : QuestionJson) where
  unfoldable pub question_from_row : QuestionRow → Option Question
  question_from_row row = maybe (json.text row.prompt) none (λ prompt.
      maybe (json.text row.explanation) none (λ explanation.
        maybe (json.options row.options) none (λ options. some (record {
          id = row.id;
          site = row.site;
          level = row.level;
          kind = row.kind;
          prompt = prompt;
          explanation = explanation;
          options = options;
        }))))

  unfoldable pub questions_from_rows : List QuestionRow → Option (List Question)
  questions_from_rows [] = some []
  questions_from_rows (row ∷ rows) =
      maybe (question_from_row row) none
        (λ question. maybe (questions_from_rows rows) none (λ rest. some (question ∷ rest)))

  -- A missing id is a not_found.
  unfoldable pub questions_by_ids : Bool → List String → Database → Fallible (List Question)
  questions_by_ids fails ids db =
      if fails
      then err other
      else maybe (questions_from_rows (get_questions_by_ids ids db.questions)) (err other)
          (λ known. maybe (ordered ids known) (err not_found) ok)
