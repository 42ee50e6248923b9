-- ===== src/Store/Types.antt =====
-- api/internal/store/store.go and gameplay.go: the values that the store exchanges with the rooms.
-- A point in time is a number of nanoseconds.
use jejak_inderasakti_be.Shared.{ℕ, String, Bool, ◌&&◌, not, if◌then◌else◌, same, List, Option, ℤ}

-- The errors that callers tell apart; `other` is any other error.
pub data StoreError : Type 0 where
  not_found max_rooms room_full nickname_taken invalid_school duplicate_answer other : StoreError

-- The pair (value, error) of a call that can fail.
pub data Fallible (A : Type 0) : Type 0 where
  ok : A → Fallible A
  err : StoreError → Fallible A

pub data Status : Type 0 where
  lobby running ended : Status

pub record Text : Type 0 where
  pub id : String
  pub en : String

-- `Text.In`: English where asked for and present, else Indonesian.
unfoldable pub in_lang : Text → String → String
in_lang t lang = if same lang "en" && not (same t.en "") then t.en else t.id

pub record AnswerOption : Type 0 where
  pub id : String
  pub label : Text
  pub correct : Bool

pub record Question : Type 0 where
  pub id : String
  pub site : ℕ
  pub level : ℕ
  pub kind : String
  pub prompt : Text
  pub explanation : Text
  pub options : List AnswerOption

pub record RoomData : Type 0 where
  pub id : String
  pub pin : String
  pub host_id : String
  pub jenjang : String
  pub short_session : Bool
  pub accuracy_mode : Bool
  pub status : Status
  pub question_ids : List String
  pub started_at : ℕ

pub record Player : Type 0 where
  pub id : String
  pub nickname : String
  pub school : String
  pub lang : String
  pub avatar : ℕ
  pub score : ℕ
  pub correct_count : ℕ
  pub total_ms : ℤ
  pub current_index : ℕ
  pub streak : ℕ
  pub finished : Bool

-- One resolved question with the player's new totals.
pub record Result : Type 0 where
  pub player_id : String
  pub question_id : String
  pub served_at : ℕ
  pub answered_at : Option ℕ
  pub option_id : Option String
  pub correct : Option Bool
  pub points : ℕ
  pub score : ℕ
  pub correct_count : ℕ
  pub total_ms : ℤ
  pub current_index : ℕ
  pub streak : ℕ
  pub finished : Bool
