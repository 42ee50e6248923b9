-- ===== src/Auth/Laws.antt =====
-- Laws of issued tokens (api/internal/auth/tokens.go).
use jejak_inderasakti_be.Shared.{
  ℕ, ◌+◌, ◌<◌, ◌≡◌, ◌≢◌, ◌∙◌, String, none, some, ltb, if◌then◌else◌, arith, if_true,
}
use jejak_inderasakti_be.Auth.{
  claims_of, host, Claims, Tokens, Jwt, host_token_ttl, new_numeric_date, stamped, sign, issue_host,
  parse,
}

module _ (jwt : Jwt) (t : Tokens) where
  parse-sign :
      (claims : Claims) (subject raw : String) (ttl issued now : ℕ)
      → subject ≢ ""
      → sign jwt t claims subject ttl issued ≡ some raw
      → parse jwt t raw now ≡ (
          if ltb now (new_numeric_date (issued + ttl))
          then some (stamped claims subject ttl issued)
          else none)
  unfolding sign parse
  parse-sign claims subject raw ttl issued now n s =
      let p = jwt.parse_signed t.secret raw _ now s in rw p (ground (arith, n))

  -- The token of a host, until it expires.
  pub parse-issue_host :
      (subject raw : String) (issued now : ℕ)
      → subject ≢ ""
      → now < new_numeric_date (issued + host_token_ttl)
      → issue_host jwt t subject issued ≡ some raw
      → parse jwt t raw now ≡ some (stamped (claims_of host "") subject host_token_ttl issued)
  unfolding issue_host
  parse-issue_host subject raw issued now n early h =
      parse-sign _ subject raw host_token_ttl issued now n h
      ∙ if_true (some (stamped (claims_of host "") subject host_token_ttl issued)) none
          (ground (arith, early))
