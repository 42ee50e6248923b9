-- ===== src/Http/Requests.antt =====
-- api/internal/http/handlers.go, results.go, api.go and middleware.go: requests, their validation, and
-- the values of responses.
use Prim.Native.Char.{code}
use Prim.Native.String.{◌++◌}
use jejak_inderasakti_be.Shared.{
  ℕ, ℤ, pos, negsuc, String, Bool, true, false, not, ◌&&◌, ◌||◌, List, [], ◌∷◌, Option, none, some,
  ltb, if◌then◌else◌, same, maybe, ◌==◌,
}
use jejak_inderasakti_be.Store.Types.{Status}
use jejak_inderasakti_be.Store.Results.{ResultRow}

abbrev pub max_nickname_runes : ℕ
max_nickname_runes = 20

abbrev pub min_avatar : ℕ
min_avatar = 1

abbrev pub max_avatar : ℕ
max_avatar = 12

unfoldable pub valid_jenjang : String → Bool
valid_jenjang s = same s "SD" || same s "SMP" || same s "SMA"

unfoldable pub valid_lang : String → Bool
valid_lang s = same s "id" || same s "en"

pub record LoginRequest : Type 0 where
  pub email : String
  pub password : String

pub record CreateRoomRequest : Type 0 where
  pub jenjang : String
  pub short_session : Bool
  pub accuracy_mode : Bool
  pub consent_confirmed : Bool

pub record JoinRequest : Type 0 where
  pub nickname : String
  pub school_id : Option ℤ
  pub jenjang : String
  pub avatar : ℤ
  pub lang : String

-- Packages strings, unicode, regexp, net and encoding/json, on the texts of a request. A body that is
-- no valid JSON, or too large, has no value.
pub record Texts : Type 0 where
  pub trim_space : String → String
  pub to_lower : String → String
  pub rune_count : String → ℕ
  pub has_control : String → Bool
  pub is_pin : String → Bool
  pub split_comma : String → List String
  pub split_host_port : String → Option String
  pub cut_bearer : String → Option String
  pub login_body : String → Option LoginRequest
  pub create_room_body : String → Option CreateRoomRequest
  pub join_body : String → Option JoinRequest

pub record Request : Type 0 where
  pub path_pin : String
  pub path_id : String
  pub query : String
  pub body : String
  pub authorization : String
  pub forwarded_for : String
  pub remote_addr : String
  pub origin : String
  pub is_options : Bool

-- What a response carries, a constructor for each shape.
pub data Body : Type 0 where
  -- code, message
  error_body : String → String → Body
  token_body : String → Body
  player_token_body : String → Body
  -- id, pin, qr_url
  created_body : String → String → String → Body
  -- status, slots_left, jenjang
  room_body : Status → ℕ → String → Body
  -- The rows of the file, with its name.
  csv_body : String → List ResultRow → Body

pub record Response : Type 0 where
  pub status : ℕ
  pub body : Body

unfoldable pub write_error : ℕ → String → String → Response
write_error status code message = record { status = status; body = error_body code message }

unfoldable pub write_invalid : String → Response
write_invalid message = write_error 400 "INVALID_REQUEST" message

unfoldable pub write_internal : Response
write_internal = write_error 500 "INTERNAL" "internal error"

unfoldable pub write_json : ℕ → Body → Response
write_json status body = record { status = status; body = body }

-- An avatar below 1 or above 12.
unfoldable pub is_bad_avatar : ℤ → Bool
is_bad_avatar (pos n) = ltb n min_avatar || ltb max_avatar n
is_bad_avatar (negsuc n) = true

module _ (t : Texts) where
  -- none stands for the empty message.
  unfoldable pub validate_join : JoinRequest → Option String
  validate_join r =
      if same r.nickname "" || ltb max_nickname_runes (t.rune_count r.nickname)
      then some "nickname must be 1-20 characters"
      else if t.has_control r.nickname
      then some "nickname contains invalid characters"
      else if not (valid_jenjang r.jenjang)
      then some "jenjang must be SD, SMP or SMA"
      else if is_bad_avatar r.avatar
      then some "avatar must be between 1 and 12"
      else if not (valid_lang r.lang)
      then some "lang must be id or en"
      else none

  unfoldable pub last_of : List String → String
  last_of [] = ""
  last_of (s ∷ []) = s
  last_of (s ∷ x ∷ ss) = last_of (x ∷ ss)

  unfoldable pub client_ip : Bool → Request → String
  client_ip trust_proxy req =
      let ip = t.trim_space (last_of (t.split_comma req.forwarded_for)) in
      let peer = maybe (t.split_host_port req.remote_addr) req.remote_addr (λ host. host) in
      if trust_proxy && not (same ip "") then ip else peer

-- csvFormulaChars
unfoldable pub is_formula_char : ℕ → Bool
is_formula_char c = c == b'=' || c == b'+' || c == b'-' || c == b'@' || c == b'\t' || c == b'\r'

unfoldable pub starts_formula : String → Bool
starts_formula String.[] = false
starts_formula (String.◌∷◌ c s) = is_formula_char (code c)

-- The formula characters are ASCII, and no first byte of another character is one of them.
unfoldable pub safe_cell : String → String
safe_cell s = if starts_formula s then "'" ++ s else s

unfoldable pub contains_origin : List String → String → Bool
contains_origin [] origin = false
contains_origin (o ∷ os) origin = same o origin || contains_origin os origin

-- Access-Control-Allow-Origin, and whether the request goes on to the handlers.
unfoldable pub cors : List String → Request → Option String × Bool
cors allowed req =
    (if contains_origin allowed req.origin then some req.origin else none, not req.is_options)
