-- ===== src/AuthService/Issue.antt =====
-- internal/authservice/handlers.go and internal/signer/signer.go: connection tokens, issued and
-- refreshed.
pub mod Entitled
pub mod Rotation
use Prim.Native.String.{◌++◌ as cat}
use secure_gateway.Common.{
  ℕ, suc, ◌+◌, ◌/◌, String, str_eq, Bool, true, false, ◌&&◌, ◌||◌, not, Option, none, some, List,
  [], ◌∷◌, if◌then◌else◌, string_key,
}
use secure_gateway.Common.Table.{get}
use secure_gateway.Token.{Claims}
use secure_gateway.AuthStore.{
  is_zero, is_pairing_active, License, Device, Pairing, RefreshToken, PairCredential,
  refresh_token_active,
}
use secure_gateway.AuthStore.State.{Store, Outcome, ok, fail}
use secure_gateway.AuthStore.Tokens.{
  put_refresh_token, revoke_refresh_token, consume_refresh_token, revoke_refresh_tokens_by_device,
}
use secure_gateway.AuthService.{
  Env, World, Flow, done, going, ◌>>=◌, ◌>>◌, need, require, new_id, draw, with_store,
  publish_event, pairing_issuable, pairing_has_device,
}
use secure_gateway.AuthService.Credentials.{Caller, authenticate_account_or_pair}

abbrev pub second : ℕ
second = 1000000000

pub record TokenReq : Type 0 where
  pub device_id : String
  pub pair_id : String

pub record TokenResp : Type 0 where
  pub token : String
  pub refresh_token : String
  pub expires_in : ℕ

-- Signer.Mint for these parameters, with the random `jti`; the times of the claims are the seconds of
-- the instant. (The source leaves IssuedAt unset here, so Mint reads the clock.)
unfoldable pub mint : Env → ℕ → String → String → Pairing → Device → License → Option String
mint env now jti account p d lic = env.sign (record {
  issuer = env.issuer;
  audience = env.audience ∷ [];
  subject = cat "device:" d.id;
  id = jti;
  issued_at = some (now / second);
  expires_at = some ((now + env.token_ttl) / second);
  account_id = account;
  pair_id = p.pair_id;
  device_id = d.id;
  role = d.role;
  license_id = lic.id;
})

unfoldable pub refresh_row : Env → ℕ → String → Pairing → Device → World → RefreshToken
refresh_row env now account p d w = record {
  id = env.hash (new_id env "rt" w);
  device_id = d.id;
  account_id = account;
  pair_id = p.pair_id;
  expires_at = now + env.refresh_ttl;
  revoked_at = 0;
}

-- The first random text is the jti, the second the refresh secret.
unfoldable pub issue_token_pair :
    Env → ℕ → String → Pairing → Device → License → World → Flow (World × TokenResp)
issue_token_pair env now account p d lic w = do
  jwt ← need (draw w) (mint env now (env.rand w.drawn) account p d lic) 500 "sign_error"
  let v = draw w
  going (
    draw (with_store v (put_refresh_token (refresh_row env now account p d v) v.store)),
    record { token = jwt; refresh_token = new_id env "rt" v; expires_in = env.token_ttl / second },
  )

abbrev pub well_formed : TokenReq → Bool
well_formed req = not (str_eq req.device_id "") && not (str_eq req.pair_id "")

abbrev pub credential_covers : TokenReq → Option PairCredential → Bool
credential_covers req none = true
credential_covers req (some cred) =
    str_eq cred.pair_id req.pair_id && str_eq cred.mobile_device_id req.device_id

unfoldable pub handle_issue_token :
    Env → ℕ → String → Option TokenReq → World → Flow (World × TokenResp)
handle_issue_token env now secret body w = do
  caller ← need w (authenticate_account_or_pair env now secret w.store) 401 "unauthorized"
  req ← need w body 400 "bad_request"
  require w (well_formed req) 400 "bad_request"
  require w (credential_covers req caller.credential) 403 "pairing_invalid"
  p ← need w (get req.pair_id w.store.pairings) 403 "pairing_invalid"
  require w (str_eq p.account_id caller.account_id && is_pairing_active p.status) 403
      "pairing_invalid"
  d ← need w (get req.device_id w.store.devices) 403 "device_invalid"
  require w (str_eq d.account_id caller.account_id) 403 "device_invalid"
  require w (pairing_has_device p d) 403 "device_not_in_pairing"
  lic ← need w (pairing_issuable env now p w.store) 403 "license_invalid"
  issue_token_pair env now caller.account_id p d lic w

-- The store after a best-effort RevokeRefreshToken, whose error is dropped.
abbrev stored : World → Outcome Store → World
stored w (fail e) = w
stored w (ok s) = with_store w s

abbrev pub revoked_world : ℕ → String → World → World
revoked_world now id w = stored w (revoke_refresh_token id now w.store)

-- A row that is revoked, not merely expired, was presented again: the device's chain is revoked and
-- the session cut.
unfoldable pub after_reuse : ℕ → RefreshToken → World → World
after_reuse now rt w =
    if is_zero rt.revoked_at
    then w
    else publish_event (record { pair_id = rt.pair_id; account_id = rt.account_id })
        (with_store w (revoke_refresh_tokens_by_device rt.device_id now w.store))

abbrev consumed {ℓ} : {A : Type ℓ} → Outcome A → Option A
consumed (ok a) = some a
consumed (fail e) = none

abbrev active_pairing : Option Pairing → Option Pairing
active_pairing none = none
active_pairing (some p) = if is_pairing_active p.status then some p else none

unfoldable pub handle_refresh_token : Env → ℕ → Option String → World → Flow (World × TokenResp)
handle_refresh_token env now body w = do
  secret ← need w body 400 "bad_request"
  require w (not (str_eq secret "")) 400 "bad_request"
  rt ← need w (get (env.hash secret) w.store.refresh_tokens) 401 "refresh_invalid"
  require (after_reuse now rt w) (refresh_token_active rt now) 401 "refresh_invalid"
  p ←
      need (revoked_world now rt.id w) (active_pairing (get rt.pair_id w.store.pairings)) 403
        "pairing_invalid"
  d ← need w (get rt.device_id w.store.devices) 403 "device_invalid"
  require w (str_eq d.account_id rt.account_id) 403 "device_invalid"
  require (revoked_world now rt.id w) (pairing_has_device p d) 403 "device_not_in_pairing"
  lic ← need (revoked_world now rt.id w) (pairing_issuable env now p w.store) 403 "license_invalid"
  s ← need w (consumed (consume_refresh_token rt.id now w.store)) 401 "refresh_invalid"
  issue_token_pair env now rt.account_id p d lic (with_store w s)
