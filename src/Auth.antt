-- ===== src/Auth.antt =====
-- api/internal/auth/tokens.go: the signed tokens of hosts and players.
pub mod Laws
use Prim.Native.String.{len}
use jejak_inderasakti_be.Shared.{
  ℕ, ◌+◌, ◌*◌, ◌/◌, String, Bool, true, false, List, Option, none, some, ltb, if◌then◌else◌, same,
  maybe, ◌≡◌,
}
use jejak_inderasakti_be.Game.Scoring.{second}

-- Role is a text of the token; `other` is any text but "host" and "player".
pub data Role : Type 0 where
  host player other : Role

abbrev pub min_secret_length : ℕ
min_secret_length = 32

abbrev pub host_token_ttl : ℕ
host_token_ttl = 8 * 3600 * second

abbrev pub player_token_ttl : ℕ
player_token_ttl = 6 * 3600 * second

-- `subject` is the id of the host or of the player.
pub record Claims : Type 0 where
  pub role : Role
  pub room_id : String
  pub subject : String
  pub issued_at : ℕ
  pub expires_at : ℕ

pub record Tokens : Type 0 where
  pub secret : String

-- Package golang-jwt: signing with HS256, which can fail, and parsing with the options of the source
-- (HS256 only, with an expiry, at a given time). A signed token is read back until its expiry.
pub record Jwt : Type 0 where
  pub signed_string : String → Claims → Option String
  pub parse_with_claims : String → String → ℕ → Option Claims
  pub parse_signed :
      (secret raw : String) (c : Claims) (now : ℕ)
      → signed_string secret c ≡ some raw
      → parse_with_claims secret raw now ≡ (if ltb now c.expires_at then some c else none)

unfoldable pub new_tokens : String → Option Tokens
new_tokens secret =
    if ltb (len secret) min_secret_length then none else some (record { secret = secret })

-- jwt.NewNumericDate cuts a time to whole seconds.
unfoldable pub new_numeric_date : ℕ → ℕ
new_numeric_date t = t / second * second

abbrev pub claims_of : Role → String → Claims
claims_of role room_id = record {
  role = role;
  room_id = room_id;
  subject = "";
  issued_at = 0;
  expires_at = 0;
}

-- The claims that `sign` completes.
abbrev pub stamped : Claims → String → ℕ → ℕ → Claims
stamped claims subject ttl now = record claims {
  subject = subject;
  issued_at = new_numeric_date now;
  expires_at = new_numeric_date (now + ttl);
}

module _ (jwt : Jwt) (t : Tokens) where
  unfoldable pub sign : Claims → String → ℕ → ℕ → Option String
  sign claims subject ttl now = jwt.signed_string t.secret (stamped claims subject ttl now)

  unfoldable pub issue_host : String → ℕ → Option String
  issue_host host_id now = sign (claims_of host "") host_id host_token_ttl now

  unfoldable pub issue_player : String → String → ℕ → Option String
  issue_player room_id player_id now =
      sign (claims_of player room_id) player_id player_token_ttl now

  -- none is ErrInvalidToken.
  unfoldable pub parse : String → ℕ → Option Claims
  parse raw now =
      maybe (jwt.parse_with_claims t.secret raw now) none
        (λ claims. if same claims.subject "" then none else some claims)
