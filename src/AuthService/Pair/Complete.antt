-- ===== src/AuthService/Pair/Complete.antt =====
-- internal/authservice/pairing.go: the mobile completes a pairing.
pub mod Capacity
pub mod Gates
pub mod Once
pub mod Tokens
use secure_gateway.Common.{
  ℕ, suc, ◌+◌, ◌/◌, String, str_eq, Bool, true, false, ◌&&◌, ◌||◌, not, Option, none, some, List,
  [], ◌∷◌, if◌then◌else◌, string_key, ltb, find_first,
}
use secure_gateway.Common.Table.{get}
use secure_gateway.Token.{role_mobile, role_desktop}
use secure_gateway.AuthStore.{
  is_zero, pairing_active, pairing_revoked, StoreError, capacity_exceeded, conflict, not_found,
  License, Device, Pairing, PairingToken, PairCredential, pairing_token_active, Subscription,
}
use secure_gateway.AuthStore.State.{Store, Outcome, ok, fail}
use secure_gateway.AuthStore.Devices.{upsert_device, bytes}
use secure_gateway.AuthStore.Pairings.{
  active_pair_count, create_pairing_within_capacity, list_active_pairings_by_license,
  update_pairing_devices, set_pairing_status,
}
use secure_gateway.AuthStore.Tokens.{
  create_pairing_token, consume_pairing_token, revoke_refresh_tokens_by_device, put_pair_credential,
  revoke_pair_credential,
}
use secure_gateway.AuthService.{
  Env, World, Flow, done, going, ◌>>=◌, ◌>>◌, need, require, new_id, new_secret_for, draw,
  with_store, publish_event, license_issuable, device_for_role, register_or_find_device,
}
use secure_gateway.AuthService.Credentials.{
  Caller, authenticate_account, authenticate_account_or_pair,
}
use secure_gateway.AuthService.Issue.{second}
use secure_gateway.AuthService.Pair.{
  active_pairing_for_desktop, capacity_available, is_some, stored, gate_unless, has_bytes,
}

pub record CompleteReq : Type 0 where
  pub pairing_token : String
  pub mobile_device_id : String
  pub mobile_public_key : String

pub record CompleteResp : Type 0 where
  pub pair_id : String
  pub desktop_public_key : String
  pub mobile_device_id : String
  pub pair_credential : String

abbrev pub token_if : ℕ → Option PairingToken → Option PairingToken
token_if now none = none
token_if now (some pt) = if pairing_token_active pt now then some pt else none

abbrev pub usable_key : Option (List ℕ) → Option (List ℕ)
usable_key none = none
usable_key (some []) = none
usable_key (some (b ∷ bs)) = some (b ∷ bs)

abbrev with_device : World → Option Device → Flow (World × Device)
with_device w none = done w 400 "bad_devices"
with_device w (some d) = going (w, d)

-- The mobile: registered before, or registered here from its key.
unfoldable pub resolve_mobile : Env → ℕ → String → String → List ℕ → World → Flow (World × Device)
resolve_mobile env now account id key w =
    if str_eq id ""
    then need w (register_or_find_device env now account role_mobile (some key) w) 409
        "device_limit"
    else with_device w (device_for_role id account role_mobile w.store)

abbrev pub desktop_if : Option Device → Option Device
desktop_if none = none
desktop_if (some d) = if has_bytes d.public_key then some d else none

-- Only ErrConflict is "used"; any other error of the store is a 500.
abbrev consumed : World → Outcome Store → Flow Store
consumed w (ok s) = going s
consumed w (fail conflict) = done w 409 "pairing_token_used"
consumed w (fail not_found) = done w 500 "store_error"
consumed w (fail capacity_exceeded) = done w 500 "store_error"

abbrev created : World → Outcome Store → Flow Store
created w (ok s) = going s
created w (fail capacity_exceeded) = done w 409 "capacity_exceeded"
created w (fail not_found) = done w 500 "store_error"
created w (fail conflict) = done w 500 "store_error"

-- The tokens of an evicted mobile are revoked, unless it is the same device again.
abbrev evict : ℕ → String → String → Store → Store
evict now evicted mobile s =
    if not (str_eq evicted "") && not (str_eq evicted mobile)
    then revoke_refresh_tokens_by_device evicted now s
    else s

-- The pairing is replaced in place, or a new one takes a slot.
unfoldable pub bind_pairing :
    ℕ → PairingToken → License → Device → Device → String → ℕ → Option Pairing → World → Flow World
bind_pairing now pt lic mobile desktop pair_id max_pairs (some old) w = do
  s ← stored w (update_pairing_devices pair_id mobile.id desktop.id w.store)
  going (
      publish_event (record { pair_id = pair_id; account_id = "" })
        (with_store w (evict now old.mobile_device_id mobile.id s)))
bind_pairing now pt lic mobile desktop pair_id max_pairs none w = do
  s ← created w (
      create_pairing_within_capacity
        (record {
          pair_id = pair_id;
          license_id = lic.id;
          account_id = pt.account_id;
          mobile_device_id = mobile.id;
          desktop_device_id = desktop.id;
          status = pairing_active;
          created_at = now;
        })
        max_pairs w.store)
  going (with_store w s)

abbrev pub pair_id_for : Env → World → Option Pairing → String
pair_id_for env w none = new_id env "pair" w
pair_id_for env w (some old) = old.pair_id

-- The last part of the handler: the credential of the phone.
unfoldable pub grant_credential :
    Env → ℕ → PairingToken → License → Device → Device → String → World → World × CompleteResp
grant_credential env now pt lic mobile desktop pair_id w =
    let secret = new_secret_for env pair_id w in
    (
      with_store (draw w) (
          put_pair_credential
            (record {
              pair_id = pair_id;
              account_id = pt.account_id;
              license_id = lic.id;
              mobile_device_id = mobile.id;
              secret_hash = env.hash secret;
              created_at = now;
              revoked_at = 0;
            })
            w.store),
      record {
        pair_id = pair_id;
        desktop_public_key = env.encode64 (bytes desktop.public_key);
        mobile_device_id = mobile.id;
        pair_credential = secret;
      },
    )

unfoldable pub handle_complete_pairing :
    Env → ℕ → Option CompleteReq → World → Flow (World × CompleteResp)
handle_complete_pairing env now body w = do
  req ← need w body 400 "bad_request"
  require w (not (str_eq req.pairing_token "") && not (str_eq req.mobile_public_key "")) 400
      "bad_request"
  pt ←
      need w (token_if now (get (env.hash req.pairing_token) w.store.pairing_tokens)) 401
        "pairing_token_invalid"
  lic ← need w (get pt.license_id w.store.licenses) 403 "license_invalid"
  require w (license_issuable env now lic w.store) 403 "license_invalid"
  key ← need w (usable_key (env.decode64 req.mobile_public_key)) 400 "bad_public_key"
  (w1, mobile) ← resolve_mobile env now pt.account_id req.mobile_device_id key w
  desktop ←
      need w1 (desktop_if (get pt.desktop_device_id w1.store.devices)) 403 "desktop_unavailable"
  let old = active_pairing_for_desktop lic.id pt.desktop_device_id w1.store
  let pair_id = pair_id_for env w1 old
  let w2 = draw w1
  max_pairs ← gate_unless w2 (is_some old) (capacity_available lic w2.store)
  s ← consumed w2 (consume_pairing_token pt.id pair_id now w2.store)
  let w3 = with_store w2 (upsert_device (record mobile { public_key = some key }) s)
  w4 ← bind_pairing now pt lic mobile desktop pair_id max_pairs old w3
  going (grant_credential env now pt lic mobile desktop pair_id w4)
