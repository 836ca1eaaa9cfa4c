-- ===== src/AuthService/Pair/Desktop.antt =====
-- internal/authservice/pairing.go: the desktop asks for a pairing token and polls it.
use secure_gateway.Common.{
  ℕ, ◌+◌, ◌/◌, String, str_eq, Bool, true, false, ◌&&◌, not, Option, none, some, List,
  if◌then◌else◌, string_key, ltb,
}
use secure_gateway.Common.Table.{get}
use secure_gateway.Token.{role_desktop}
use secure_gateway.AuthStore.{is_zero, License, Device, PairingToken}
use secure_gateway.AuthStore.Devices.{upsert_device, bytes}
use secure_gateway.AuthStore.Tokens.{create_pairing_token}
use secure_gateway.AuthService.{
  Env, World, Flow, done, going, ◌>>=◌, ◌>>◌, need, require, new_id, draw, with_store,
  license_issuable, device_for_role,
}
use secure_gateway.AuthService.Credentials.{authenticate_account}
use secure_gateway.AuthService.Issue.{second}
use secure_gateway.AuthService.Pair.{
  active_pairing_for_desktop, capacity_available, is_some, stored, gate_unless, has_bytes,
}

pub record PairingTokenReq : Type 0 where
  pub license_id : String
  pub desktop_device_id : String
  pub desktop_public_key : String

pub record PairingTokenResp : Type 0 where
  pub pairing_token : String
  pub expires_in : ℕ
  pub qr_version : ℕ
  pub qr_desktop_pubkey : String
  pub qr_desktop_device_id : String
  pub qr_relay : String
  pub qr_auth : String

abbrev pairing_qr_version : ℕ
pairing_qr_version = 1

abbrev license_of : String → Option License → Option License
license_of account none = none
license_of account (some lic) = if str_eq lic.account_id account then some lic else none

-- The desktop with its key, and the store that has it: a supplied key is kept.
abbrev key_supplied : Device → World → Option (List ℕ) → Flow (World × Device)
key_supplied d w none = done w 400 "bad_public_key"
key_supplied d w (some key) =
    let d' : Device = record d { public_key = some key } in
    going (with_store w (upsert_device d' w.store), d')

abbrev with_key : Env → String → Device → World → Flow (World × Device)
with_key env text d w =
    if str_eq text "" then going (w, d) else key_supplied d w (env.decode64 text)

unfoldable pub handle_create_pairing_token :
    Env → ℕ → String → Option PairingTokenReq → World → Flow (World × PairingTokenResp)
handle_create_pairing_token env now secret body w = do
  account ← need w (authenticate_account env secret w.store) 401 "unauthorized"
  req ← need w body 400 "bad_request"
  require w (not (str_eq req.license_id "") && not (str_eq req.desktop_device_id "")) 400
      "bad_request"
  lic ← need w (license_of account (get req.license_id w.store.licenses)) 404 "license_not_found"
  require w (license_issuable env now lic w.store) 403 "license_invalid"
  d ← need w (device_for_role req.desktop_device_id account role_desktop w.store) 400 "bad_devices"
  let again = active_pairing_for_desktop lic.id d.id w.store
  _ ← gate_unless w (is_some again) (capacity_available lic w.store)
  (v, desktop) ← with_key env req.desktop_public_key d w
  require v (has_bytes desktop.public_key) 400 "missing_public_key"
  let secret' = new_id env "pt" v
  s ← stored (draw v) (
      create_pairing_token
        (record {
          id = env.hash secret';
          account_id = account;
          license_id = lic.id;
          desktop_device_id = desktop.id;
          expires_at = now + env.pairing_token_ttl;
          consumed_at = 0;
          result_pair_id = "";
        })
        v.store)
  going (
    with_store (draw v) s,
    record {
      pairing_token = secret';
      expires_in = env.pairing_token_ttl / second;
      qr_version = pairing_qr_version;
      qr_desktop_pubkey = env.encode64 (bytes desktop.public_key);
      qr_desktop_device_id = desktop.id;
      qr_relay = env.relay_url;
      qr_auth = env.auth_url;
    },
  )

pub data PollResp : Type 0 where
  pending expired : PollResp
  completed : String → String → PollResp

abbrev token_of : String → Option PairingToken → Option PairingToken
token_of account none = none
token_of account (some pt) = if str_eq pt.account_id account then some pt else none

unfoldable pub poll_completed : Env → PairingToken → World → Flow PollResp
poll_completed env pt w = do
  p ← need w (get pt.result_pair_id w.store.pairings) 500 "store_error"
  mobile ← need w (get p.mobile_device_id w.store.devices) 500 "store_error"
  going (completed pt.result_pair_id (env.encode64 (bytes mobile.public_key)))

-- The switch: consumed, then expired, then pending.
abbrev poll_state : Bool → Bool → Flow PollResp → Flow PollResp
poll_state true live answer = answer
poll_state false false answer = going expired
poll_state false true answer = going pending

unfoldable pub handle_poll_pairing_token : Env → ℕ → String → Option String → World → Flow PollResp
handle_poll_pairing_token env now secret body w = do
  account ← need w (authenticate_account env secret w.store) 401 "unauthorized"
  token ← need w body 400 "bad_request"
  require w (not (str_eq token "")) 400 "bad_request"
  pt ←
      need w (token_of account (get (env.hash token) w.store.pairing_tokens)) 404
        "pairing_token_not_found"
  poll_state (not (is_zero pt.consumed_at)) (ltb now pt.expires_at) (poll_completed env pt w)
