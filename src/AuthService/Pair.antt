-- ===== src/AuthService/Pair.antt =====
-- internal/authservice/pairing.go: the helpers of its handlers.
pub mod Desktop
pub mod Complete
pub mod Unpair
use secure_gateway.Common.{
  ℕ, suc, ◌+◌, ◌/◌, String, str_eq, Bool, true, false, ◌&&◌, ◌||◌, not, Option, none, some, List,
  [], ◌∷◌, if◌then◌else◌, string_key, ltb, find_first,
}
use secure_gateway.Common.Table.{get}
use secure_gateway.Token.{role_mobile, role_desktop}
use secure_gateway.AuthStore.{
  is_zero, pairing_active, pairing_revoked, StoreError, capacity_exceeded, conflict, not_found,
  License, Device, Pairing, PairingToken, PairCredential, pairing_token_active, Subscription,
}
use secure_gateway.AuthStore.State.{Store, Outcome, ok, fail}
use secure_gateway.AuthStore.Devices.{upsert_device, bytes}
use secure_gateway.AuthStore.Pairings.{
  active_pair_count, create_pairing_within_capacity, list_active_pairings_by_license,
  update_pairing_devices, set_pairing_status,
}
use secure_gateway.AuthStore.Tokens.{
  create_pairing_token, consume_pairing_token, revoke_refresh_tokens_by_device, put_pair_credential,
  revoke_pair_credential,
}
use secure_gateway.AuthService.{
  Env, World, Flow, done, going, ◌>>=◌, ◌>>◌, need, require, new_id, new_secret_for, draw,
  with_store, publish_event, license_issuable, device_for_role, register_or_find_device,
}
use secure_gateway.AuthService.Credentials.{
  Caller, authenticate_account, authenticate_account_or_pair,
}
use secure_gateway.AuthService.Issue.{second}

abbrev pub bound_to : String → Pairing → Bool
bound_to desktop p = str_eq p.desktop_device_id desktop

-- The active pairing of a license with this desktop, lowest id first.
unfoldable pub active_pairing_for_desktop : String → String → Store → Option Pairing
active_pairing_for_desktop license desktop s =
    find_first (bound_to desktop) (list_active_pairings_by_license license s)

abbrev pub room_for : ℕ → Option Subscription → Option (Bool × ℕ)
room_for in_use none = none
room_for in_use (some sub) = some (ltb in_use sub.max_pairs, sub.max_pairs)

-- `none` is the store's error, a subscription that is not there.
unfoldable pub capacity_available : License → Store → Option (Bool × ℕ)
capacity_available lic s =
    room_for (active_pair_count lic.id s) (get lic.subscription_id s.subscriptions)

abbrev pub is_some {ℓ} : {A : Type ℓ} → Option A → Bool
is_some none = false
is_some (some a) = true

abbrev pub stored {ℓ} : {A : Type ℓ} → World → Outcome A → Flow A
stored w (ok a) = going a
stored w (fail e) = done w 500 "store_error"

abbrev pub gate : World → Option (Bool × ℕ) → Flow ℕ
gate w none = done w 500 "store_error"
gate w (some (free, max_pairs)) = require w free 409 "capacity_exceeded" >> going max_pairs

-- The capacity gate for a new pair; a pair that is replaced keeps its slot.
abbrev pub gate_unless : World → Bool → Option (Bool × ℕ) → Flow ℕ
gate_unless w true room = going 0
gate_unless w false room = gate w room

abbrev pub has_bytes : Option (List ℕ) → Bool
has_bytes none = false
has_bytes (some []) = false
has_bytes (some (b ∷ bs)) = true
