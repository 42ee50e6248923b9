-- ===== src/Tests/Tokens.antt =====
-- Tokens at concrete claims.
use jejak_inderasakti_be.Shared.{
  ◌≡◌, ◌≢◌, refl, sym, ap, subst, String, String-discrete, Bool, true, false, ◌&&◌, Option, none,
  some, if◌then◌else◌, same, maybe, ltb, ◌==◌, Bool-cases, inl, inr, arith,
}
use jejak_inderasakti_be.Auth.{
  Role, host, player, other, Claims, Tokens, Jwt, host_token_ttl, player_token_ttl, stamped,
  claims_of,
}

abbrev pub same_role : Role → Role → Bool
same_role host host = true
same_role player player = true
same_role other other = true
same_role _ _ = false

same_role_lem : (a b : Role) → same_role a b ≡ true → a ≡ b
same_role_lem host host e = refl
same_role_lem host player e = cc
same_role_lem host other e = cc
same_role_lem player host e = cc
same_role_lem player player e = refl
same_role_lem player other e = cc
same_role_lem other host e = cc
same_role_lem other player e = cc
same_role_lem other other e = refl

abbrev pub same_claims : Claims → Claims → Bool
same_claims a b =
    same_role a.role b.role
    && same a.room_id b.room_id
    && same a.subject b.subject
    && a.issued_at == b.issued_at
    && a.expires_at == b.expires_at

same_claims_lem : (a b : Claims) → same_claims a b ≡ true → a ≡ b
same_claims_lem a b e =
    let role = same_role_lem a.role b.role (ground (arith, e)) in
    let room : a.room_id ≡ b.room_id = ground (arith, e) in
    let subject : a.subject ≡ b.subject = ground (arith, e) in
    let issued : a.issued_at ≡ b.issued_at = ground (arith, e) in
    let expires : a.expires_at ≡ b.expires_at = ground (arith, e) in
    λ i. record {
      role = role i;
      room_id = room i;
      subject = subject i;
      issued_at = issued i;
      expires_at = expires i;
    }

abbrev pub host_claims : Claims
host_claims = stamped (claims_of host "") "u1" host_token_ttl 0

abbrev pub player_claims : Claims
player_claims = stamped (claims_of player "r1") "u1" player_token_ttl 0

abbrev pub signed : Claims → Option String
signed c =
    if same_claims c host_claims
    then some "host token"
    else if same_claims c player_claims
    then some "player token"
    else none

abbrev pub known : String → Option Claims
known raw =
    if same raw "host token"
    then some host_claims
    else if same raw "player token"
    then some player_claims
    else none

pub known-signed : (c : Claims) (raw : String) → signed c ≡ some raw → known raw ≡ some c
unfolding String-discrete
known-signed c raw e = elim (Bool-cases (same_claims c host_claims)) [
  | inl h ↦
      let token : "host token" ≡ raw = ground (arith, e, h) in
      subst (λ t. known t ≡ some c) token (ap some (sym (same_claims_lem c host_claims h)))
  | inr n ↦ elim (Bool-cases (same_claims c player_claims)) [
    | inl h ↦
        let token : "player token" ≡ raw = ground (arith, e, h, n) in
        subst (λ t. known t ≡ some c) token (ap some (sym (same_claims_lem c player_claims h)))
    | inr m ↦ ground (arith, e, n, m)
  ]
]

-- A library that signs two claims.
abbrev pub jwt : Jwt
jwt = record {
  signed_string = λ secret c. signed c;
  parse_with_claims =
      λ secret raw now. maybe (known raw) none (λ c. if ltb now c.expires_at then some c else none);
  parse_signed = λ secret raw c now e. rw (known-signed c raw e);
}

abbrev pub tokens : Tokens
tokens = record { secret = "0123456789abcdef0123456789abcdef" }

pub has_id : (let id : String = "u1" in id ≢ "")
unfolding String-discrete
has_id e = let k : false ≡ true = ap (λ s. same s "") e in cc
