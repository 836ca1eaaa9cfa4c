-- ===== src/AuthService/Pair/Unpair.antt =====
-- internal/authservice/pairing.go: unpairing.
pub mod Cut
pub mod Effect
use secure_gateway.Common.{
  ℕ, suc, ◌+◌, ◌/◌, String, str_eq, Bool, true, false, ◌&&◌, ◌||◌, not, Option, none, some, List,
  [], ◌∷◌, if◌then◌else◌, string_key, ltb, find_first,
}
use secure_gateway.Common.Table.{get}
use secure_gateway.Token.{role_mobile, role_desktop}
use secure_gateway.AuthStore.{
  is_zero, pairing_active, pairing_revoked, StoreError, capacity_exceeded, conflict, not_found,
  License, Device, Pairing, PairingToken, PairCredential, pairing_token_active, Subscription,
}
use secure_gateway.AuthStore.State.{Store, Outcome, ok, fail}
use secure_gateway.AuthStore.Devices.{upsert_device, bytes}
use secure_gateway.AuthStore.Pairings.{
  active_pair_count, create_pairing_within_capacity, list_active_pairings_by_license,
  update_pairing_devices, set_pairing_status,
}
use secure_gateway.AuthStore.Tokens.{
  create_pairing_token, consume_pairing_token, revoke_refresh_tokens_by_device, put_pair_credential,
  revoke_pair_credential,
}
use secure_gateway.AuthService.{
  Env, World, Flow, done, going, ◌>>=◌, ◌>>◌, need, require, new_id, new_secret_for, draw,
  with_store, publish_event, license_issuable, device_for_role, register_or_find_device,
}
use secure_gateway.AuthService.Credentials.{
  Caller, authenticate_account, authenticate_account_or_pair,
}
use secure_gateway.AuthService.Issue.{second}
use secure_gateway.AuthService.Pair.{
  active_pairing_for_desktop, capacity_available, is_some, stored, gate_unless, has_bytes,
}

abbrev pub own_pair : String → Option PairCredential → Bool
own_pair pair none = true
own_pair pair (some cred) = str_eq cred.pair_id pair

abbrev pub pairing_of : String → Option Pairing → Option Pairing
pairing_of account none = none
pairing_of account (some p) = if str_eq p.account_id account then some p else none

-- The answer is {"status": "revoked"}.
unfoldable pub handle_unpair : Env → ℕ → String → Option String → World → Flow World
handle_unpair env now secret body w = do
  caller ← need w (authenticate_account_or_pair env now secret w.store) 401 "unauthorized"
  pair ← need w body 400 "bad_request"
  require w (not (str_eq pair "")) 400 "bad_request"
  require w (own_pair pair caller.credential) 404 "pairing_not_found"
  p ← need w (pairing_of caller.account_id (get pair w.store.pairings)) 404 "pairing_not_found"
  s ← stored w (set_pairing_status p.pair_id pairing_revoked w.store)
  going (
      publish_event (record { pair_id = p.pair_id; account_id = "" })
        (with_store w (revoke_pair_credential p.pair_id now s)))
