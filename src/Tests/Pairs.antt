-- ===== src/Tests/Pairs.antt =====
-- Pairing and unpairing on the small account.
use secure_gateway.Common.{
  ℕ, ◌≡◌, ◌≢◌, ◌⊎◌, true, none, List, [], ◌∷◌, nat_key, ◌+◌, refl, String, Option, some, arith,
  string_key, eq_iff,
}
use secure_gateway.Common.Lists.{count}
use secure_gateway.Common.Table.{get}
use secure_gateway.AuthStore.{
  PairingToken, License, Subscription, Pairing, PairCredential, pairing_revoked,
}
use secure_gateway.AuthStore.Pairings.{active_pair_count}
use secure_gateway.AuthStore.Pairings.Limits.{WithinCapacity}
use secure_gateway.AuthStore.Tokens.{revoke_refresh_tokens_by_device}
use secure_gateway.AuthStore.Tokens.Later.{now_on, device_revoked}
use secure_gateway.Backplane.{Backplane, RevocationEvent, new_backplane, slot_key}
use secure_gateway.Relay.Hub.{slot_of, revoke}
use secure_gateway.AuthService.Pair.Unpair.Effect.{IsCutOff, queue_of, unpair-ends}
use secure_gateway.Tests.Hub.{hub_1, phone, hub_1-index, hub_1-at}
use secure_gateway.AuthService.{World, Flow, done, going, with_store, publish_event}
use secure_gateway.AuthService.Ends.{Ends}
use secure_gateway.AuthService.Issue.{TokenResp, handle_issue_token}
use secure_gateway.AuthService.Pair.Complete.{CompleteReq, CompleteResp, handle_complete_pairing}
use secure_gateway.AuthService.Pair.Complete.Capacity.{complete-Capped}
use secure_gateway.AuthService.Pair.Complete.Once.{complete_once}
use secure_gateway.AuthService.Pair.Unpair.{handle_unpair}
use secure_gateway.AuthService.Pair.Unpair.Cut.{Unpairable, unpair-cuts, unpair-frees}
use secure_gateway.Tests.Auth.{test_env, store_1, world_1, pair_1, request_1, outcome}

store_1-within : WithinCapacity store_1
unfolding get active_pair_count count
store_1-within = record {
  keyed = λ id lic h. ground (arith, eq_iff "lic" id);
  within = λ id lic sub h e.
      ground (arith, eq_iff "lic" id, eq_iff "sub" "sub", eq_iff "sub" lic.subscription_id);
}

abbrev scan_1 : Option CompleteReq
scan_1 = some (record { pairing_token = "qr"; mobile_device_id = ""; mobile_public_key = "key" })

complete-Capped_example :
    Ends
      (λ v. WithinCapacity v.store)
      (λ (r : World × CompleteResp). WithinCapacity r.0.store)
      (handle_complete_pairing test_env 100 scan_1 world_1)
complete-Capped_example = complete-Capped test_env 100 scan_1 world_1 store_1-within

pairs_keyed : (id : String) (p : Pairing) → get id store_1.pairings ≡ some p → p.pair_id ≡ id
unfolding get
pairs_keyed id p h = ground (arith, eq_iff "pair" id)

abbrev credential_1 : PairCredential
credential_1 = record {
  pair_id = "pair";
  account_id = "acct";
  license_id = "lic";
  mobile_device_id = "dm";
  secret_hash = "h:pair.s";
  created_at = 1;
  revoked_at = 0;
}

abbrev plane_2 : Backplane
plane_2 = record (new_backplane 60 4) { revs = (0, []) ∷ []; next_rev = 1 }

abbrev unpaired_1 : World
unpaired_1 = outcome (handle_unpair test_env 100 "acct.s" (some "pair") world_1) world_1

unpaired_1-going : handle_unpair test_env 100 "acct.s" (some "pair") world_1 ≡ going unpaired_1
unfolding handle_unpair secure_gateway.AuthService.Credentials.authenticate_account_or_pair
    secure_gateway.AuthService.Credentials.authenticate_account
    secure_gateway.AuthService.Credentials.owner_of get
    secure_gateway.AuthStore.Pairings.set_pairing_status
unpaired_1-going = refl

pair_1-there : get "pair" store_1.pairings ≡ some pair_1
unfolding get
pair_1-there = refl

-- The pair has a credential, a channel listens, and the phone is connected.
abbrev world_2 : World
world_2 = record world_1 {
  store = record store_1 { pair_credentials = ("pair", credential_1) ∷ [] };
  bp = some plane_2;
}

abbrev unpaired_2 : World
unpaired_2 = outcome (handle_unpair test_env 100 "acct.s" (some "pair") world_2) world_2

unpaired_2-going : handle_unpair test_env 100 "acct.s" (some "pair") world_2 ≡ going unpaired_2
unfolding handle_unpair secure_gateway.AuthService.Credentials.authenticate_account_or_pair
    secure_gateway.AuthService.Credentials.authenticate_account
    secure_gateway.AuthService.Credentials.owner_of get
    secure_gateway.AuthStore.Pairings.set_pairing_status
unpaired_2-going = refl

unpair-ends_example :
    (u : Unpairable test_env 100 "acct.s" "pair" world_2.store) × (get "pair"
        unpaired_2.store.pairings
      ≡ some (record u.p { status = pairing_revoked }))
    × IsCutOff "pair" unpaired_2.store
    × (c : Backplane) × (unpaired_2.bp ≡ some c)
    × (ev : RevocationEvent) × (queue_of 0 c.revs ≡ some (ev ∷ []))
    × (get 1 (revoke ev hub_1).sessions
        ≡ some (record phone { cancelled = true; closed = some (4004, "revoked") }))
unfolding new_backplane
unpair-ends_example =
    unpair-ends test_env 100 "acct.s" "pair" world_2 unpaired_2 plane_2 0 [] hub_1 (slot_of phone) 1
      phone pairs_keyed (omega arith) unpaired_2-going refl refl (omega arith) hub_1-index.0
      hub_1-at.0 refl refl

abbrev guessed : World × TokenResp
guessed = (unpaired_1, record { token = "t"; refresh_token = ""; expires_in = 0 })

unpair-cuts_example :
    ¬ (handle_issue_token test_env 200 "acct.s" (some request_1) unpaired_1 ≡ going guessed)
unpair-cuts_example =
    unpair-cuts test_env 100 200 "acct.s" "acct.s" "pair" request_1 world_1 unpaired_1 guessed
      pairs_keyed unpaired_1-going refl

unpair-frees_example :
    active_pair_count "lic" unpaired_1.store + 1 ≡ active_pair_count "lic" store_1
unpair-frees_example =
    unpair-frees test_env 100 "acct.s" "pair" pair_1 world_1 unpaired_1 pairs_keyed pair_1-there
      refl unpaired_1-going

abbrev scan_again : CompleteReq
scan_again = record { pairing_token = "qr"; mobile_device_id = "dm"; mobile_public_key = "key" }

abbrev scanned_1 : World × CompleteResp
scanned_1 = outcome (handle_complete_pairing test_env 100 (some scan_again) world_1) (
  world_1,
  record { pair_id = ""; desktop_public_key = ""; mobile_device_id = ""; pair_credential = "" },
)

scanned_1-going : handle_complete_pairing test_env 100 (some scan_again) world_1 ≡ going scanned_1
unfolding handle_complete_pairing get secure_gateway.AuthService.license_issuable
    secure_gateway.License.issuable secure_gateway.License.evaluate
    secure_gateway.AuthService.Pair.Complete.resolve_mobile
    secure_gateway.AuthService.device_for_role
    secure_gateway.AuthService.Pair.active_pairing_for_desktop
    secure_gateway.Common.Lists.find_first
    secure_gateway.AuthStore.Pairings.list_active_pairings_by_license
    secure_gateway.AuthStore.State.sort_by secure_gateway.Common.Lists.select
    secure_gateway.AuthStore.Tokens.consume_pairing_token
    secure_gateway.AuthService.Pair.Complete.bind_pairing
    secure_gateway.AuthStore.Pairings.update_pairing_devices
    secure_gateway.AuthStore.Devices.upsert_device
scanned_1-going = refl

scans_keyed :
    (pt : PairingToken)
    → get (test_env.hash "qr") store_1.pairing_tokens ≡ some pt
    → pt.id ≡ test_env.hash "qr"
unfolding get
scans_keyed pt h = ground arith

-- The device's refresh tokens are revoked in between.
abbrev scanned_later : World
scanned_later = record scanned_1.0 {
  store = revoke_refresh_tokens_by_device "dm" 105 scanned_1.0.store;
}

complete_once_example :
    handle_complete_pairing test_env 110 (some scan_again) scanned_later
    ≡ done scanned_later 401 "pairing_token_invalid"
complete_once_example =
    complete_once test_env 100 110 scan_again scan_again world_1 scanned_later scanned_1 scans_keyed
      (omega arith) scanned_1-going (device_revoked "dm" 105 scanned_1.0.store now_on) refl refl
