-- ===== src/Config.antt =====
-- api/internal/config/config.go: the settings that are read from the environment.
pub mod Laws
use jejak_inderasakti_be.Shared.{
  ℕ, ℤ, pos, negsuc, String, Bool, true, false, List, [], ◌∷◌, Option, none, some, if◌then◌else◌,
  same, maybe,
}

-- slog.Level, as its number.
abbrev pub Level : Type 0
Level = ℤ

abbrev pub level_info : Level
level_info = pos 0

pub record Config : Type 0 where
  pub database_url : String
  pub redis_url : String
  pub jwt_secret : String
  pub port : String
  pub public_base_url : String
  pub env : String
  pub log_level : Level
  pub join_limit_per_minute : ℕ
  pub trust_proxy : Bool
  pub allowed_origins : List String

abbrev pub default_join_limit_per_minute : ℕ
default_join_limit_per_minute = 10

-- Packages strings, strconv and slog: strings.Split at commas, TrimSpace, TrimRight of "/", Atoi, and
-- the level of a text in upper case.
pub record TextTools : Type 0 where
  pub split_comma : String → List String
  pub trim_space : String → String
  pub trim_slashes : String → String
  pub atoi : String → Option ℤ
  pub read_level : String → Option Level

pub data ConfigError : Type 0 where
  no_database_url bad_join_limit : ConfigError

pub data Loaded (A : Type 0) : Type 0 where
  loaded : A → Loaded A
  refused : ConfigError → Loaded A

unfoldable pub getenv : (String → String) → String → String → String
getenv os key fallback = if same (os key) "" then fallback else os key

module _ (tools : TextTools) where
  unfoldable pub parse_level : String → Level
  parse_level s = maybe (tools.read_level s) level_info (λ level. level)

  unfoldable pub kept_origins : List String → List String
  kept_origins [] = []
  kept_origins (o ∷ os) =
      let rest = kept_origins os in
      if same (tools.trim_space o) "" then rest else tools.trim_space o ∷ rest

  unfoldable pub allowed_origins : String → String → List String
  allowed_origins raw public_base_url =
      if same raw "" then public_base_url ∷ [] else kept_origins (tools.split_comma raw)

  unfoldable pub read_limit : Option ℤ → Loaded ℕ
  read_limit (some (pos n)) = loaded n
  read_limit (some (negsuc n)) = refused bad_join_limit
  read_limit none = refused bad_join_limit

  -- `raw` is RATE_LIMIT_JOIN_PER_MIN.
  unfoldable pub join_limit : String → String → Loaded ℕ
  join_limit raw env =
      if same raw ""
      then loaded (if same env "development" then 0 else default_join_limit_per_minute)
      else read_limit (tools.atoi raw)

  abbrev pub public_url : (String → String) → String
  public_url os = tools.trim_slashes (getenv os "PUBLIC_BASE_URL" "http://localhost:5173")

  abbrev pub config_of : (String → String) → ℕ → Config
  config_of os limit = record {
    database_url = os "DATABASE_URL";
    redis_url = os "REDIS_URL";
    jwt_secret = os "JWT_SECRET";
    port = getenv os "PORT" "8080";
    public_base_url = public_url os;
    env = getenv os "ENV" "development";
    log_level = parse_level (getenv os "LOG_LEVEL" "info");
    join_limit_per_minute = limit;
    trust_proxy = same (os "TRUST_PROXY") "true";
    allowed_origins = allowed_origins (os "CORS_ALLOWED_ORIGINS") (public_url os);
  }

  unfoldable pub with_limit : (String → String) → Loaded ℕ → Loaded Config
  with_limit os (refused e) = refused e
  with_limit os (loaded limit) = loaded (config_of os limit)

  -- The argument is os.Getenv.
  unfoldable pub load_config : (String → String) → Loaded Config
  load_config os =
      if same (os "DATABASE_URL") ""
      then refused no_database_url
      else with_limit os (join_limit (os "RATE_LIMIT_JOIN_PER_MIN") (getenv os "ENV" "development"))
