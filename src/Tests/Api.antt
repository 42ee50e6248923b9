-- ===== src/Tests/Api.antt =====
-- The REST handlers at concrete requests.
use jejak_inderasakti_be.Shared.{
  ℕ, ◌≡◌, ◌↔◌, refl, pos, String, String-discrete, true, false, ◌&&◌, List, [], ◌∷◌, none, some,
  if◌then◌else◌, same,
}
use jejak_inderasakti_be.Store.Types.{RoomData}
use jejak_inderasakti_be.Store.Database.{PlayerRow, HostRow, QuestionRow}
use jejak_inderasakti_be.Store.Rooms.{Faults, commits, new_room_data}
use jejak_inderasakti_be.Http.Requests.{
  LoginRequest, CreateRoomRequest, JoinRequest, Texts, Request, validate_join, valid_jenjang,
  valid_lang, is_bad_avatar,
}
use jejak_inderasakti_be.Http.Api.{Api, RoomRegistry, Calls, ServerOf}
use jejak_inderasakti_be.Store.Questions.{QuestionJson}
use jejak_inderasakti_be.Game.Registry.{Registry, LoadFaults}
use jejak_inderasakti_be.Http.Live.{live_rooms}
use jejak_inderasakti_be.Http.Validation.{IsValidJoin, validate_join_iff}
use jejak_inderasakti_be.Tests.Tokens.{jwt, tokens}
use jejak_inderasakti_be.Tests.Selector.{pool}
use jejak_inderasakti_be.Game.Selector.{QuestionRef}

abbrev pub joining : JoinRequest
joining = record {
  nickname = "budi";
  school_id = none;
  jenjang = "SD";
  avatar = pos 2;
  lang = "id";
}

abbrev pub logging_in : LoginRequest
logging_in = record { email = "guru@sekolah.id"; password = "rahasia" }

abbrev pub creating : CreateRoomRequest
creating = record {
  jenjang = "SD";
  short_session = true;
  accuracy_mode = false;
  consent_confirmed = true;
}

-- Texts without blanks, and bodies of one form.
abbrev pub texts : Texts
texts = record {
  trim_space = λ s. s;
  to_lower = λ s. s;
  rune_count = λ s. 4;
  has_control = λ s. false;
  is_pin = λ s. true;
  split_comma = λ s. s ∷ [];
  split_host_port = λ s. none;
  cut_bearer = λ s. if same s "" then none else some s;
  login_body = λ s. some logging_in;
  create_room_body = λ s. some creating;
  join_body = λ s. some joining;
}

abbrev pub json : QuestionJson
json = record { text = λ s. some (record { id = s; en = s }); options = λ s. some [] }

abbrev pub loads : LoadFaults
loads = record {
  room_fails = false;
  mark_fails = false;
  players_fail = false;
  questions_fail = false;
  now = 0;
}

abbrev pub registry : RoomRegistry
registry = live_rooms (λ s. some s) json loads

abbrev pub no_rooms : Registry
no_rooms = record { rooms = []; started = []; next = 0; sent = [] }

abbrev pub api : Api
api = record {
  registry = registry;
  texts = texts;
  jwt = jwt;
  tokens = tokens;
  parse_uuid = λ s. some s;
  compare_hash_and_password = λ hash password. same hash "hash" && same password "rahasia";
  dummy_hash = "dummy";
  shuffle = λ s l xs. xs;
  collation = λ s t. false;
  public_base_url = "https://kuis.id";
  trust_proxy = false;
}

abbrev pub lobby_room : RoomData
lobby_room = new_room_data "r1" "u1" "111111" (record {
  host_id = "u1";
  jenjang = "SD";
  short_session = true;
  accuracy_mode = false;
  question_ids = "a" ∷ [];
})

abbrev pub teacher : HostRow
teacher = record {
  id = "u1";
  email = "guru@sekolah.id";
  password_hash = "hash";
  name = "Guru";
  last_login_at = none;
}

-- The pool of Tests/Selector, as rows.
abbrev pub rows_of : List QuestionRef → List QuestionRow
rows_of [] = []
rows_of (q ∷ qs) =
    record {
      id = q.id;
      site = q.site;
      level = q.level;
      kind = "mcq";
      prompt = "{}";
      options = "[]";
      explanation = "{}";
      active = true;
    }
    ∷ rows_of qs

-- One host with an open room.
abbrev pub server : ServerOf api
server = record {
  rooms = no_rooms;
  join_limiter = none;
  db = record {
    hosts = teacher ∷ [];
    questions = rows_of pool;
    rooms = record { room = lobby_room; created_at = 0 } ∷ [];
    players = [];
    answers = [];
    schools = [];
  };
}

abbrev pub played : String → String → String → ℕ → PlayerRow
played id room_id nickname score = record {
  id = id;
  room_id = room_id;
  nickname = nickname;
  school_id = none;
  jenjang = "SD";
  avatar = 1;
  lang = "id";
  score = score;
  correct_count = 1;
  total_ms = 900;
  current_index = 1;
  streak = 1;
  finished_at = some 5;
}

-- The room has two players, and another room has one.
abbrev pub played_server : ServerOf api
played_server = record server {
  db = record server.db {
    players =
        played "p1" "r1" "@budi" 100
        ∷ played "p2" "r2" "citra" 200
        ∷ played "p3" "r1" "ani" 300
        ∷ [];
  };
}

abbrev pub fine : Faults
fine = record {
  begin_fails = false;
  lock_fails = false;
  count_fails = false;
  school_fails = false;
  insert_fails = false;
  commit = commits;
  new_id = "u1";
}

abbrev pub calls : Calls
calls = record {
  now = 0;
  first_fails = false;
  second_fails = false;
  faults = λ i. fine;
  random_pin = λ i. some "222222";
  reply = none;
}

-- A request that carries a token.
abbrev pub request : String → Request
request authorization = record {
  path_pin = "111111";
  path_id = "r1";
  query = "";
  body = "{}";
  authorization = authorization;
  forwarded_for = "";
  remote_addr = "10.0.0.1:4000";
  origin = "";
  is_options = false;
}

joining-accepted : validate_join texts joining ≡ none
unfolding validate_join valid_jenjang valid_lang is_bad_avatar String-discrete
joining-accepted = refl

validate_join_iff_example : (validate_join texts joining ≡ none) ↔ IsValidJoin texts joining
validate_join_iff_example = validate_join_iff texts joining
