-- ===== src/Http/Login.antt =====
-- Laws of the route POST /api/auth/login (api/internal/http/handlers.go, login), with the guard of the
-- routes of hosts (middleware.go, requireHost).
use jejak_inderasakti_be.Shared.{
  ◌∙◌, ap, ◌+◌, ◌<◌, ◌≡◌, ◌≢◌, refl, sym, String, true, Option, none, some, maybe, if_elim,
  maybe_elim, arith,
}
use jejak_inderasakti_be.Auth.{issue_host, host_token_ttl, new_numeric_date}
use jejak_inderasakti_be.Auth.Laws.{parse-issue_host}
use jejak_inderasakti_be.Store.Types.{StoreError, ok, err}
use jejak_inderasakti_be.Store.Database.{HostRow}
use jejak_inderasakti_be.Store.Hosts.{host_of, get_host_by_email, host_by_email, touch_host_login}
use jejak_inderasakti_be.Http.Requests.{
  LoginRequest, Request, Response, token_body, write_error, write_invalid, write_internal,
  write_json,
}
use jejak_inderasakti_be.Http.Api.{Api, Calls, ServerOf}
use jejak_inderasakti_be.Http.Handlers.{no_host, password_matches, log_in, log_in_loaded, login}
use jejak_inderasakti_be.Http.Access.{IsFromHost}

module _ (api : Api) (req : Request) (c : Calls) (s : ServerOf api) where
  -- A host with the email and the password of the request, and its token.
  abbrev pub IsLoggedIn : Response → Type 0
  IsLoggedIn response =
      (r : LoginRequest) × (row : HostRow) × (token : String) × (api.texts.login_body req.body
        ≡ some r)
      × (get_host_by_email (api.texts.to_lower (api.texts.trim_space r.email)) s.db.hosts
          ≡ some row)
      × (row.password_hash ≢ "")
      × (api.compare_hash_and_password row.password_hash r.password ≡ true)
      × (issue_host api.jwt api.tokens row.id c.now ≡ some token)
      × (response ≡ write_json 200 (token_body token))

  abbrev Leaves : Response × ServerOf api → Type 0
  Leaves (response, after) = response.status ≡ 200 → IsLoggedIn response

  -- A password matches only the hash that is stored, and only where one is.
  password_matches_lem :
      (hash password : String)
      → password_matches api hash password ≡ true
      → (hash ≢ "") × (api.compare_hash_and_password hash password ≡ true)
  unfolding password_matches
  password_matches_lem hash password e = (ground (arith, e), ground (arith, e))

  module _ (r : LoginRequest) (body : api.texts.login_body req.body ≡ some r) where
    log_in-Leaves :
        (row : HostRow)
        → get_host_by_email (api.texts.to_lower (api.texts.trim_space r.email)) s.db.hosts
          ≡ some row
        → Leaves (log_in api (host_of row) r c s)
    unfolding log_in write_internal write_error write_json
    log_in-Leaves row found =
        if_elim Leaves (password_matches api row.password_hash r.password)
          (λ m.
            let (known, matches) = password_matches_lem row.password_hash r.password m in
            maybe_elim Leaves (issue_host api.jwt api.tokens row.id c.now)
              (λ _ e. ground (arith, e))
              (λ token issued.
                maybe_elim (λ response. Leaves (response, s))
                  (touch_host_login api.parse_uuid c.second_fails c.now row.id s.db).0
                  (λ _ e. (r, row, token, body, found, known, matches, issued, refl))
                  (λ _ _ e. ground (arith, e))))
          (λ _ e. ground (arith, e))

    -- Without a host, no password matches.
    no_host-Leaves : Leaves (log_in api no_host r c s)
    unfolding log_in password_matches write_internal write_error write_json
    no_host-Leaves = λ e. ground (arith, e)

    loaded-Leaves :
        (found : Option HostRow)
        → get_host_by_email (api.texts.to_lower (api.texts.trim_space r.email)) s.db.hosts ≡ found
        → Leaves (
            log_in_loaded api
              (maybe found (err StoreError.not_found) (λ row. ok (host_of row)))
              r
              c
              s)
    unfolding log_in_loaded
    loaded-Leaves none e = no_host-Leaves
    loaded-Leaves (some row) e = log_in-Leaves row e

  login-Leaves : Leaves (login api req c s)
  unfolding login host_by_email log_in_loaded write_invalid write_internal write_error write_json
  login-Leaves =
      maybe_elim Leaves (api.texts.login_body req.body) (λ _ e. ground (arith, e))
        (λ r body.
          if_elim (λ found. Leaves (log_in_loaded api found r c s)) c.first_fails
            (λ _ e. ground (arith, e)) (λ _. loaded-Leaves r body _ refl))

-- Where every host has an id, a response 200 of the login carries the token of the host with the
-- email of the request, whose stored hash the password matches: a later request with that token,
-- less than 8 hours after the login in whole seconds, is one of that host.
pub login-IsFromHost :
    (api : Api) (req later : Request) (c d : Calls) (s : ServerOf api) (token : String)
    → ((email : String) (row : HostRow)
        → get_host_by_email email s.db.hosts ≡ some row
        → row.id ≢ "")
    → (login api req c s).0 ≡ write_json 200 (token_body token)
    → api.texts.cut_bearer later.authorization ≡ some token
    → d.now < new_numeric_date (c.now + host_token_ttl)
    → (r : LoginRequest) × (row : HostRow) × (api.texts.login_body req.body ≡ some r)
      × (get_host_by_email (api.texts.to_lower (api.texts.trim_space r.email)) s.db.hosts
          ≡ some row)
      × (row.password_hash ≢ "")
      × (api.compare_hash_and_password row.password_hash r.password ≡ true)
      × IsFromHost api later d row.id
unfolding write_json
login-IsFromHost api req later c d s token ids e b early =
    let (r, row, raw, body, found, known, matches, issued, response) =
      login-Leaves api req c s (ap (λ (w : Response). w.status) e) in
    let carried : write_json 200 (token_body raw) ≡ write_json 200 (token_body token) =
      sym response ∙ e in
    let bodies : token_body raw ≡ token_body token = ap (λ (w : Response). w.body) carried in
    let same_token : raw ≡ token = cc in
    let read =
      parse-issue_host api.jwt api.tokens row.id raw c.now d.now (ids _ row found) early issued in
    (r, row, body, found, known, matches, (raw, _, b ∙ ap some (sym same_token), read, refl, refl))
