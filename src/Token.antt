-- ===== src/Token.antt =====
-- internal/token/token.go and internal/token/verify.go: device roles, the claims of a connection
-- token, and what the relay accepts. The JWT parser is a parameter of `verify`.
pub mod Accept
use secure_gateway.Common.{
  ℕ, ◌≡◌, String, str_eq, Bool, true, false, ◌||◌, not, Option, none, some, List, if◌then◌else◌,
}

-- Role is a Go string; any text can arrive in a claim.
abbrev pub role_mobile : String
role_mobile = "mobile"

abbrev pub role_desktop : String
role_desktop = "desktop"

abbrev pub opposite : String → String
opposite r =
    if str_eq r role_mobile then role_desktop else if str_eq r role_desktop then role_mobile else ""

abbrev pub valid_role : String → Bool
valid_role r = str_eq r role_mobile || str_eq r role_desktop

-- The registered claims (iss, aud, sub, jti, iat, exp) stand among the fields; times are unix
-- seconds, and `none` is an absent claim.
pub record Claims : Type 0 where
  pub issuer : String
  pub audience : List String
  pub subject : String
  pub id : String
  pub issued_at : Option ℕ
  pub expires_at : Option ℕ
  pub account_id : String
  pub pair_id : String
  pub device_id : String
  pub role : String
  pub license_id : String

pub data Reason : Type 0 where
  missing_token malformed bad_signature expired not_yet_valid wrong_audience : Reason
  wrong_issuer missing_claim bad_role unknown_key : Reason

-- The wrapped Go error is left out: only the log reads it.
pub record AuthError : Type 0 where
  pub reason : Reason
  pub http_status : ℕ

abbrev pub unauthorized : Reason → AuthError
unauthorized r = record { reason = r; http_status = 401 }

abbrev pub forbidden : Reason → AuthError
forbidden r = record { reason = r; http_status = 403 }

-- The sentinel errors that `classify` looks for.
pub data Sentinel : Type 0 where
  token_expired token_not_valid_yet token_invalid_audience token_invalid_issuer : Sentinel
  token_signature_invalid err_unknown_key token_malformed token_unverifiable : Sentinel

-- What the JWT library's ParseWithClaims gives: an error, which may wrap several sentinels
-- (`failed e` answers errors.Is by `e`), or a token with its Valid flag and claims.
pub data Parsed : Type 0 where
  failed : (Sentinel → Bool) → Parsed
  parsed : Bool → Claims → Parsed

pub data Verdict : Type 0 where
  accepted : Claims → Verdict
  rejected : AuthError → Verdict

unfoldable pub classify : (Sentinel → Bool) → AuthError
classify is =
    if is token_expired
    then unauthorized expired
    else if is token_not_valid_yet
    then unauthorized not_yet_valid
    else if is token_invalid_audience
    then forbidden wrong_audience
    else if is token_invalid_issuer
    then forbidden wrong_issuer
    else if is token_signature_invalid
    then unauthorized bad_signature
    else if is err_unknown_key
    then unauthorized unknown_key
    else if is token_malformed || is token_unverifiable
    then unauthorized malformed
    else unauthorized malformed

unfoldable pub validate_custom_claims : Claims → Option AuthError
validate_custom_claims c =
    if str_eq c.account_id ""
    then some (forbidden missing_claim)
    else if str_eq c.pair_id ""
    then some (forbidden missing_claim)
    else if str_eq c.device_id ""
    then some (forbidden missing_claim)
    else if str_eq c.license_id ""
    then some (forbidden missing_claim)
    else if not (valid_role c.role)
    then some (forbidden bad_role)
    else none

abbrev pub vet : Claims → Option AuthError → Verdict
vet c none = accepted c
vet c (some e) = rejected e

abbrev pub verify_parsed : Parsed → Verdict
verify_parsed (failed is) = rejected (classify is)
verify_parsed (parsed valid c) =
    if not valid then rejected (unauthorized bad_signature) else vet c (validate_custom_claims c)

unfoldable pub verify : (String → Parsed) → String → Verdict
verify parse raw =
    if str_eq raw "" then rejected (unauthorized missing_token) else verify_parsed (parse raw)
