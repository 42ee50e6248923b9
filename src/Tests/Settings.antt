-- ===== src/Tests/Settings.antt =====
-- The configuration of a concrete environment.
use jejak_inderasakti_be.Shared.{
  ℕ, pos, ◌≡◌, ◌≢◌, ◌↔◌, refl, String, String-discrete, [], ◌∷◌, none, some, if◌then◌else◌, same,
}
use jejak_inderasakti_be.Config.{
  TextTools, loaded, read_limit, join_limit, with_limit, config_of, load_config,
}
use jejak_inderasakti_be.Config.Laws.{IsLimit, load_config_iff}

-- A reader of one number, and lists of one text.
abbrev tools : TextTools
tools = record {
  split_comma = λ s. s ∷ [];
  trim_space = λ s. s;
  trim_slashes = λ s. s;
  atoi = λ s. if same s "30" then some (pos 30) else none;
  read_level = λ s. none;
}

abbrev environment : String → String
environment key =
    if same key "DATABASE_URL"
    then "postgres://db"
    else if same key "ENV"
    then "production"
    else if same key "RATE_LIMIT_JOIN_PER_MIN"
    then "30"
    else ""

load_config_run : load_config tools environment ≡ loaded (config_of tools environment 30)
unfolding load_config with_limit join_limit read_limit String-discrete
load_config_run = refl

load_config_iff_example :
    (load_config tools environment ≡ loaded (config_of tools environment 30)) ↔ (
      (environment "DATABASE_URL" ≢ "")
      × ((limit : ℕ) × IsLimit tools environment limit
          × (config_of tools environment 30 ≡ config_of tools environment limit)))
unfolding String-discrete
load_config_iff_example = load_config_iff tools environment (config_of tools environment 30)
